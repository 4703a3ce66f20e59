-- ===== src/Graph/Words.antt =====
-- src/graph.rs: the symbols of the index against the words of the flat scan, and a checked query against it.
use trunnion.Prelude.{
  ℕ, leb, length, Bool, true, false, ◌||◌, Bool-cases, Text, str_eq, str_eq_iff, str_eq_refl, some,
  List, [], ◌∷◌, ◌++◌, ◌≡◌, ◌≢◌, refl, sym, ap, subst, ◌∙◌, ◌⊎◌, inl, inr,
}
use trunnion.Json.{Digest}
use trunnion.Secrets.{contains}
use trunnion.Graph.{
  Retrieval, Files, is_word, text_lt, insert_text, remove_text, keep_symbol, collect, symbols_in,
  split_words, has_word, hash_bytes, node_of, note_hit, check_node, visit,
}

or_absorb : (a b : Bool) → (a || b) ≡ (a || (a || b))
or_absorb true b = refl
or_absorb false b = refl

or_swap : (a b c : Bool) → (a || (b || c)) ≡ (b || (a || c))
or_swap true true c = refl
or_swap true false c = refl
or_swap false b c = refl

or_comm : (a b : Bool) → (a || b) ≡ (b || a)
or_comm true true = refl
or_comm true false = refl
or_comm false true = refl
or_comm false false = refl

or_assoc : (a b c : Bool) → ((a || b) || c) ≡ (a || (b || c))
or_assoc true b c = refl
or_assoc false b c = refl

pub contains-insert_text :
    (t w : Text) (us : List Text) → contains (insert_text t us) w ≡ (str_eq t w || contains us w)
unfolding insert_text
contains-insert_text t w [] = refl
contains-insert_text t w (u ∷ us) = elim (Bool-cases (str_eq t u)) [
  | inl same ↦
      rw (same, insert_text, (str_eq_iff t u).0 same) (or_absorb (str_eq u w) (contains us w))
  | inr other ↦ elim (Bool-cases (text_lt t u)) [
    | inl less ↦ rw (other, less, insert_text) refl
    | inr more ↦
        rw (other, more, insert_text)
          (ap (λ b. str_eq u w || b) (contains-insert_text t w us)
            ∙ or_swap (str_eq u w) (str_eq t w) (contains us w))
  ]
]

shorter-str_eq :
    (cur w : Text) → leb 4 (length w) ≡ true → leb 4 (length cur) ≡ false → str_eq cur w ≡ false
shorter-str_eq cur w long short = elim (Bool-cases (str_eq cur w)) [
  | inr other ↦ other
  | inl same ↦ absurd (cc (ap (λ t. leb 4 (length t)) ((str_eq_iff cur w).0 same), long, short))
]

contains-keep_symbol :
    (cur w : Text) (out : List Text)
    → leb 4 (length w) ≡ true
    → contains (keep_symbol cur out) w ≡ (contains out w || str_eq cur w)
unfolding keep_symbol
contains-keep_symbol cur w out long = elim (Bool-cases (leb 4 (length cur))) [
  | inl kept ↦
      rw (kept, keep_symbol)
        (contains-insert_text cur w out ∙ or_comm (str_eq cur w) (contains out w))
  | inr short ↦
      rw (short, keep_symbol, shorter-str_eq cur w long short) (or_comm false (contains out w))
]

contains-collect :
    (cur w s : Text) (out : List Text)
    → leb 4 (length w) ≡ true
    → contains (collect cur out s) w ≡ (contains out w || contains (split_words cur s) w)
unfolding collect split_words
contains-collect cur w [] out long =
    contains-keep_symbol cur w out long
    ∙ ap (λ b. contains out w || b) (or_comm false (str_eq cur w))
contains-collect cur w (c ∷ s) out long = elim (Bool-cases (is_word c)) [
  | inl word ↦ rw (word, collect, split_words) (contains-collect (cur ++ c ∷ []) w s out long)
  | inr gap ↦
      rw (gap, collect, split_words)
        (contains-collect [] w s (keep_symbol cur out) long
          ∙ ap (λ b. b || contains (split_words [] s) w) (contains-keep_symbol cur w out long)
          ∙ or_assoc (contains out w) (str_eq cur w) (contains (split_words [] s) w))
]

pub symbols_in-has_word :
    (text w : Text) → leb 4 (length w) ≡ true → contains (symbols_in text) w ≡ has_word text w
unfolding symbols_in has_word
symbols_in-has_word text w long = contains-collect [] w text [] long

pub other-str_eq : (t u w : Text) → str_eq t w ≡ true → str_eq u t ≡ false → str_eq u w ≡ false
other-str_eq t u w same kept = elim (Bool-cases (str_eq u w)) [
  | inr other ↦ other
  | inl here ↦
      let e : u ≡ t = (str_eq_iff u w).0 here ∙ sym ((str_eq_iff t w).0 same) in
      absurd (cc ((str_eq_iff u t).1 e, kept))
]

contains-remove_text :
    (t w : Text) (us : List Text) → str_eq t w ≡ true → contains (remove_text t us) w ≡ false
unfolding remove_text
contains-remove_text t w [] same = refl
contains-remove_text t w (u ∷ us) same = elim (Bool-cases (str_eq u t)) [
  | inl gone ↦ rw (gone, remove_text) (contains-remove_text t w us same)
  | inr kept ↦
      rw (kept, remove_text, other-str_eq t u w same kept) (contains-remove_text t w us same)
]

-- Two files with one hash.
pub record IsCollision (d : Digest) (a b : List ℕ) : Type 0 where
  pub differ : a ≢ b
  pub agree : hash_bytes d a ≡ hash_bytes d b

module _ (d : Digest) (files : Files) (symbol path : Text) (old new : List ℕ) (r : Retrieval) where
  note_hit-contains :
      (b : Bool) → contains r.hits path ≡ false → contains (note_hit d path b r.hits) path ≡ b
  note_hit-contains true fresh =
      contains-insert_text path path r.hits ∙ ap (λ b. b || contains r.hits path) (str_eq_refl path)
  note_hit-contains false fresh = fresh

  checked-has_word :
      (noted : Retrieval)
      → contains noted.hits path ≡ has_word old symbol
      → (contains (check_node d (node_of d path old) symbol (some new) noted).hits path
          ≡ has_word new symbol)
        ⊎ IsCollision d new old
  unfolding check_node node_of
  checked-has_word noted h = elim (Bool-cases (str_eq (hash_bytes d new) (hash_bytes d old))) [
    | inl agree ↦ elim (Bool-cases (str_eq new old)) [
      | inr differ ↦ inr (record {
        differ = λ e. absurd (cc ((str_eq_iff new old).1 e, differ));
        agree = (str_eq_iff _ _).0 agree;
      })
      | inl same ↦ inl (
          rw (agree, check_node)
            (h ∙ ap (λ t. has_word t symbol) (sym ((str_eq_iff new old).0 same))))
    ]
    | inr changed ↦ elim (Bool-cases (has_word new symbol)) [
      | inl found ↦ inl (
          rw (changed, found, check_node)
            (contains-insert_text path path noted.hits
              ∙ ap (λ b. b || contains noted.hits path) (str_eq_refl path)))
      | inr missing ↦ inl (
          rw (changed, missing, check_node)
            (contains-remove_text path path noted.hits (str_eq_refl path)))
    ]
  ]

  -- A checked visit of the node of a file agrees with a flat scan of the file as it is now, for a symbol of four
  -- bytes or more and a path that is not among the hits yet, however old the index is, or the file as it was and
  -- as it is are a collision of the hash.
  pub visit-has_word :
      leb 4 (length symbol) ≡ true
      → files path ≡ some new
      → contains r.hits path ≡ false
      → (contains (visit d files symbol true (node_of d path old) r).hits path
          ≡ has_word new symbol)
        ⊎ IsCollision d new old
  unfolding visit node_of
  visit-has_word long now fresh =
      subst
        (λ o.
          (contains (check_node d (node_of d path old) symbol o noted).hits path
            ≡ has_word new symbol)
          ⊎ IsCollision d new old)
        (sym now)
        (checked-has_word noted (
          note_hit-contains (contains (symbols_in old) symbol) fresh
          ∙ symbols_in-has_word old symbol long))
    where
      noted : Retrieval
      noted = record r { hits = note_hit d path (contains (symbols_in old) symbol) r.hits }
