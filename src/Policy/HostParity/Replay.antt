-- ===== src/Policy/HostParity/Replay.antt =====
-- src/policy.rs: what `host_parity` promises of the host's deny list.
use trunnion.Prelude.{
  ℕ, Bool, true, false, ◌||◌, ◌==◌, Text, codes, strip_prefix, starts_with, some, List, [], ◌∷◌,
  ◌++◌, if◌then◌else◌, ◌≡◌, ◌≢◌, refl, ap, arith, All, Bool-cases, Option-cases, inl, inr,
}
use mathlib.Core.Option
use trunnion.Fault.{Fault, ok, >>=-eq-ok}
use trunnion.Json.{Json, Digest}
use trunnion.Policy.Ladder.{allow}
use trunnion.Policy.Glob.{
  command_prefix, parse_tool_pattern, inner_matches, glob_matches, glob_inner, strip_dot,
}
use trunnion.Policy.Glob.Meaning.{glob_inner-star}
use trunnion.Policy.Rules.{Policy}
use trunnion.Policy.Decide.{Decision, decide}
use trunnion.Policy.HostParity.{
  replace_pairs, replace_wild, sample_target, host_identity, sample_call, fault_of, check_entry,
  check_entries, deny_list, host_parity,
}

abbrev wild : ℕ → Bool
wild a = a == b'*' || a == b'?'

abbrev sample_byte : ℕ → ℕ
sample_byte a = if wild a then b'x' else a

abbrev replaced : Text → Text
replaced s = replace_wild (replace_pairs s)

glob_inner-byte :
    (a : ℕ) (p t : Text) → glob_inner p t ≡ true → glob_inner (a ∷ p) (sample_byte a ∷ t) ≡ true
unfolding glob_inner
glob_inner-byte a p t h = ground (arith, glob_inner-star a p (b'x' ∷ []) t)

-- Off a pair of stars the replacement goes byte by byte.
replaced-cons :
    (a : ℕ) (s : Text) → (a == b'*') ≡ false → replaced (a ∷ s) ≡ sample_byte a ∷ replaced s
unfolding replace_wild replace_pairs
replaced-cons a [] n = refl
replaced-cons a (b ∷ s) n = ground arith

replaced-pair :
    (a b : ℕ) (s : Text)
    → (a == b'*') ≡ true
    → (b == b'*') ≡ true
    → replaced (a ∷ b ∷ s) ≡ b'x' ∷ replaced s
unfolding replace_wild replace_pairs
replaced-pair a b s e e' = rw (e, replace_pairs, e')

replaced-single :
    (a b : ℕ) (s : Text)
    → (b == b'*') ≡ false
    → replaced (a ∷ b ∷ s) ≡ sample_byte a ∷ replaced (b ∷ s)
unfolding replace_wild replace_pairs
replaced-single a b s e' = ground arith

glob_inner-replaced : (s : Text) → glob_inner s (replaced s) ≡ true
glob_inner-replaced [] = unfold glob_inner replace_wild replace_pairs in refl
glob_inner-replaced (a ∷ []) =
    unfold replace_wild replace_pairs in glob_inner-byte a [] [] (unfold glob_inner in refl)
glob_inner-replaced (a ∷ b ∷ s) = elim (Bool-cases (b == b'*')) [
  | inr plain ↦
      rw (replaced-single a b s plain) (glob_inner-byte a (b ∷ s) _ (glob_inner-replaced (b ∷ s)))
  | inl second ↦ elim (Bool-cases (a == b'*')) [
    | inr plain ↦
        rw (replaced-cons a (b ∷ s) plain)
          (glob_inner-byte a (b ∷ s) _ (glob_inner-replaced (b ∷ s)))
    | inl first ↦ rw (replaced-pair a b s first second) (
        glob_inner-star a (b ∷ s) (b'x' ∷ []) _ (ground arith)
          (glob_inner-star b s [] _ (ground arith) (glob_inner-replaced s)))
  ]
]

-- The first byte of a replaced text.
replaced-head : (a : ℕ) (s : Text) → (t : Text) × (replaced (a ∷ s) ≡ sample_byte a ∷ t)
replaced-head a [] = (replaced [], unfold replace_wild replace_pairs in refl)
replaced-head a (b ∷ s) = elim (Bool-cases (b == b'*')) [
  | inr plain ↦ (replaced (b ∷ s), replaced-single a b s plain)
  | inl second ↦ elim (Bool-cases (a == b'*')) [
    | inr plain ↦ (replaced (b ∷ s), replaced-cons a (b ∷ s) plain)
    | inl first ↦ (replaced s, rw (replaced-pair a b s first second) (ground arith))
  ]
]

strip_dot-replaced : (s : Text) → strip_dot (replaced s) ≡ replaced (strip_dot s)
unfolding strip_dot strip_prefix
strip_dot-replaced [] = unfold replace_wild replace_pairs in refl
strip_dot-replaced (a ∷ s) = elim (Bool-cases (a == b'.')) [
  | inr other ↦ let (t, e) = replaced-head a s in ground (arith, e)
  | inl dot ↦ ground (arith, replaced-cons a s, slash s)
]
  where
    slash :
        (s : Text)
        → strip_prefix (codes "/") (replaced s) ≡ Option.map replaced (strip_prefix (codes "/") s)
    slash [] = unfold replace_wild replace_pairs in refl
    slash (b ∷ s) = elim (Bool-cases (b == b'/')) [
      | inr other ↦ let (t, e) = replaced-head b s in ground (arith, e)
      | inl same ↦ ground (arith, replaced-cons b s)
    ]

glob_matches-replace : (s : Text) → glob_matches s (replaced s) ≡ true
unfolding glob_matches
glob_matches-replace s = ground (arith, strip_dot-replaced s, glob_inner-replaced (strip_dot s))

starts_with-space : (p : Text) → starts_with (p ++ codes " ") (p ++ codes " x") ≡ true
unfolding starts_with strip_prefix
starts_with-space [] = refl
starts_with-space (c ∷ p) = ground (arith, starts_with-space p)

-- The sample that `host_parity` tries for an entry is one that the entry matches.
pub inner_matches-sample : (inner : Text) → inner_matches inner (sample_target inner) ≡ true
unfolding inner_matches sample_target
inner_matches-sample inner = elim (Option-cases (command_prefix inner)) [
  | inl e ↦ ground (arith, glob_matches-replace inner)
  | inr (prefix, e) ↦ ground (arith, starts_with-space prefix)
]

module _ (j : Json) (d : Digest) (policy : Policy j.Value) where
  -- An entry that is a tool pattern is answered, at its sample target, by a decision that does not allow.
  abbrev pub IsAnswered : j.Value → Type 0
  IsAnswered entry =
      (text tool inner : Text)
      → j.as_str entry ≡ some text
      → parse_tool_pattern text ≡ some (tool, inner)
      → (decision : Decision j.Value) × (decide j d policy (host_identity j d policy)
            (sample_call j d policy tool inner)
          ≡ ok decision)
        × (decision.verdict ≢ allow)

  fault_of-empty :
      (entry target : Text) (decision : Decision j.Value)
      → ok (fault_of j d policy entry target decision) ≡ ok []
      → decision.verdict ≢ allow
  unfolding fault_of
  fault_of-empty entry target decision h e = ground arith

  check_entry_sound : (entry : j.Value) → check_entry j d policy entry ≡ ok [] → IsAnswered entry
  unfolding check_entry
  check_entry_sound entry h text tool inner e p =
      let (decision, decided, none_added) =
        >>=-eq-ok {b = []}
          (decide j d policy (host_identity j d policy) (sample_call j d policy tool inner))
          (λ (decision : Decision j.Value).
            ok (fault_of j d policy text (sample_target inner) decision))
          (rw (e, check_entry, p) at h) in
      (decision, decided, fault_of-empty text (sample_target inner) decision none_added)

  append-empty : (xs ys : List Fault) → (xs ++ ys) ≡ [] → (xs ≡ []) × (ys ≡ [])
  append-empty [] ys h = (refl, h)
  append-empty (x ∷ xs) ys h = cc

  check_entries_sound :
      (entries : List j.Value) → check_entries j d policy entries ≡ ok [] → All IsAnswered entries
  unfolding check_entries
  check_entries_sound [] h = tt
  check_entries_sound (entry ∷ entries) h =
      let (faults, here, next) = >>=-eq-ok (check_entry j d policy entry) _ h in
      let (rest, later, both) = >>=-eq-ok (check_entries j d policy entries) _ next in
      let (a, b) = append-empty faults rest (cc) in
      (
        check_entry_sound entry (rw here (ap (λ (f : List Fault). ok f) a)),
        check_entries_sound entries (rw later (ap (λ (f : List Fault). ok f) b)),
      )

  -- A parity check that finds nothing has answered every entry of the host's deny list that is a tool
  -- pattern: the decision on the entry's sample target is a denial or a hold.
  pub host_parity_sound :
      (settings_json : Text) (settings : j.Value)
      → j.from_str settings_json ≡ some settings
      → host_parity j d policy settings_json ≡ ok []
      → All IsAnswered (deny_list j d policy settings)
  unfolding host_parity
  host_parity_sound settings_json settings parsed h =
      check_entries_sound (deny_list j d policy settings) (rw (parsed, host_parity) at h)
