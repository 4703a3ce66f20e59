-- ===== src/Graph/Fresh.antt =====
-- src/graph.rs: a checked query over a whole index, at one of its files.
use trunnion.Prelude.{
  ℕ, leb, length, Bool, true, false, ◌||◌, Bool-cases, All, Text, str_eq, str_eq_iff, Option, none,
  some, List, [], ◌∷◌, ◌++◌, ◌≡◌, refl, sym, ap, ◌∙◌, ◌⊎◌, inl, inr,
}
use trunnion.Json.{Digest}
use trunnion.Secrets.{contains}
use trunnion.Graph.{
  Node, Retrieval, Files, insert_text, remove_text, has_word, hash_bytes, node_of, note_hit,
  check_node, visit, visit_all, index_bytes, query,
}
use trunnion.Graph.Words.{contains-insert_text, IsCollision, visit-has_word}

insert_text-other :
    (t w : Text) (us : List Text)
    → str_eq t w ≡ false
    → contains (insert_text t us) w ≡ contains us w
insert_text-other t w us other = contains-insert_text t w us ∙ ap (λ b. b || contains us w) other

remove_text-other :
    (t w : Text) (us : List Text)
    → str_eq t w ≡ false
    → contains (remove_text t us) w ≡ contains us w
unfolding remove_text
remove_text-other t w [] other = refl
remove_text-other t w (u ∷ us) other = elim (Bool-cases (str_eq u t)) [
  | inr kept ↦ rw (kept, remove_text) (ap (λ b. str_eq u w || b) (remove_text-other t w us other))
  | inl gone ↦
      let e : str_eq u w ≡ false = ap (λ x. str_eq x w) ((str_eq_iff u t).0 gone) ∙ other in
      rw (gone, remove_text) (remove_text-other t w us other ∙ ap (λ b. b || contains us w) (sym e))
]

module _ (d : Digest) (files : Files) (symbol path : Text) where
  abbrev Elsewhere : Node → Type 0
  Elsewhere n = str_eq n.path path ≡ false

  note_hit-other :
      (n : Node) (b : Bool) (hits : List Text)
      → Elsewhere n
      → contains (note_hit d n.path b hits) path ≡ contains hits path
  note_hit-other n true hits other = insert_text-other n.path path hits other
  note_hit-other n false hits other = refl

  check_node-other :
      (n : Node) (o : Option (List ℕ)) (r : Retrieval)
      → Elsewhere n
      → contains (check_node d n symbol o r).hits path ≡ contains r.hits path
  unfolding check_node
  check_node-other n none r other = refl
  check_node-other n (some bytes) r other =
      elim (Bool-cases (str_eq (hash_bytes d bytes) n.content_hash)) [
        | inl agree ↦ rw (agree, check_node) refl
        | inr changed ↦ elim (Bool-cases (has_word bytes symbol)) [
          | inl found ↦ rw (changed, found, check_node) (insert_text-other n.path path r.hits other)
          | inr missing ↦
              rw (changed, missing, check_node) (remove_text-other n.path path r.hits other)
        ]
      ]

  visit_all-other :
      (nodes : List Node) (r : Retrieval)
      → All Elsewhere nodes
      → contains (visit_all d files symbol true nodes r).hits path ≡ contains r.hits path
  unfolding visit_all visit
  visit_all-other [] r h = refl
  visit_all-other (n ∷ nodes) r (other, others) =
      visit_all-other nodes _ others
      ∙ check_node-other n (files n.path) _ other
      ∙ note_hit-other n (contains n.symbols symbol) r.hits other

  visit_all-append :
      (nodes more : List Node) (r : Retrieval)
      → visit_all d files symbol true (nodes ++ more) r
        ≡ visit_all d files symbol true more (visit_all d files symbol true nodes r)
  unfolding visit_all
  visit_all-append [] more r = refl
  visit_all-append (n ∷ nodes) more r = visit_all-append nodes more (visit d files symbol true n r)

  -- However old an index is, a checked query for a symbol of four bytes or more has a file among its hits exactly
  -- where a flat scan of the file as it is now finds the symbol, if the file can be read and is in the index
  -- once, or the file as it was when it was indexed and as it is now are a collision of the hash.
  pub query-has_word :
      (before after : List Node) (old new : List ℕ)
      → leb 4 (length symbol) ≡ true
      → files path ≡ some new
      → All Elsewhere before
      → All Elsewhere after
      → (contains (query d files (before ++ node_of d path old ∷ after) symbol true).hits path
          ≡ has_word new symbol)
        ⊎ IsCollision d new old
  unfolding query visit_all
  query-has_word before after old new long now first last =
      elim (visit-has_word d files symbol path old new reached long now
        (visit_all-other before start first)) [
          | inr collision ↦ inr collision
          | inl agrees ↦ inl (
              ap (λ (r : Retrieval). contains r.hits path)
                (visit_all-append before (node_of d path old ∷ after) start)
              ∙ visit_all-other after (visit d files symbol true (node_of d path old) reached) last
              ∙ agrees)
        ]
    where
      start : Retrieval
      start = record {
        hits = [];
        bytes_read = index_bytes d (before ++ node_of d path old ∷ after);
        stale_reread = [];
      }

      reached : Retrieval
      reached = visit_all d files symbol true before start
