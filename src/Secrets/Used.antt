-- ===== src/Secrets/Used.antt =====
-- src/secrets.rs: what a substitution uses, and what it does not show.
use trunnion.Prelude.{
  ℕ, zero, suc, true, Text, Option, none, some, List, [], ◌∷◌, ◌++◌, ◌≡◌, ◌≢◌, refl, sym, ◌∙◌, ap,
  All, All-append, Bool-cases, Option-cases, ◌⊎◌, inl, inr, length,
}
use trunnion.Fault.{ok}
use trunnion.Secrets.{
  Substitution, handle_open, handle_close, cut_at, value_of, contains, note_name, take_handle,
  substitute_on, blank, substitute, handles_on, handles_in,
}

module _ (upper : Text → Text) where
  -- A round of the loop that ends well.
  record IsRound (values : List (Text × Text)) (command : Text) (granted : List Text) (fuel : ℕ)
      (rest : Text) (s result : Substitution) : Type 0 where
    before : Text
    after : Text
    name : Text
    next : Text
    value : Text
    opened : cut_at handle_open rest ≡ some (before, after)
    closed : cut_at handle_close after ≡ some (name, next)
    is_granted : contains granted name ≡ true
    found : value_of values name ≡ some value
    goes_on :
        substitute_on upper fuel values command granted next (take_handle upper before name value s)
        ≡ ok result

  round :
      (values : List (Text × Text)) (command : Text) (granted : List Text) (fuel : ℕ) (rest : Text)
      (s result : Substitution)
      → substitute_on upper (suc fuel) values command granted rest s ≡ ok result
      → ((cut_at handle_open rest ≡ none) × (record s { command = s.command ++ rest } ≡ result))
        ⊎ IsRound values command granted fuel rest s result
  unfolding substitute_on
  round values command granted fuel rest s result h =
      elim (Option-cases (cut_at handle_open rest)) [
        | inl ends ↦ inl (ends, ended (rw (ends, substitute_on) at h))
        | inr ((before, after), opened) ↦ elim (Option-cases (cut_at handle_close after)) [
          | inl open_end ↦ absurd (cc (rw (opened, substitute_on, open_end) at h))
          | inr ((name, next), closed) ↦ elim (Bool-cases (contains granted name)) [
            | inr refused ↦ absurd (cc (rw (opened, substitute_on, closed, refused) at h))
            | inl is_granted ↦ elim (Option-cases (value_of values name)) [
              | inl missing ↦
                  absurd (cc (rw (opened, substitute_on, closed, is_granted, missing) at h))
              | inr (value, found) ↦ inr (record {
                before = before;
                after = after;
                name = name;
                next = next;
                value = value;
                opened = opened;
                closed = closed;
                is_granted = is_granted;
                found = found;
                goes_on = rw (opened, substitute_on, closed, is_granted, found) at h;
              })
            ]
          ]
        ]
      ]
    where
      ended :
          ok (record s { command = s.command ++ rest }) ≡ ok result
          → record s { command = s.command ++ rest } ≡ result
      ended e = cc

  All-note_name :
      (P : Text → Type 0) (name : Text) (used : List Text)
      → P name
      → All P used
      → All P (note_name upper name used)
  All-note_name P name used p h = elim (Bool-cases (contains used name)) [
    | inl known ↦ rw known h
    | inr fresh ↦ rw fresh (All-append P used (name ∷ []) h (p, tt))
  ]

  no_fuel :
      (values : List (Text × Text)) (command : Text) (granted : List Text) (rest : Text)
      (s result : Substitution)
      → substitute_on upper zero values command granted rest s ≢ ok result
  unfolding substitute_on
  no_fuel values command granted rest s result e = cc

  granted_on :
      (fuel : ℕ) (values : List (Text × Text)) (command : Text) (granted : List Text) (rest : Text)
      (s result : Substitution)
      → substitute_on upper fuel values command granted rest s ≡ ok result
      → All (λ h. contains granted h ≡ true) s.handles_used
      → All (λ h. contains granted h ≡ true) result.handles_used
  granted_on zero values command granted rest s result h used =
      absurd (no_fuel values command granted rest s result h)
  granted_on (suc fuel) values command granted rest s result h used =
      elim (round values command granted fuel rest s result h) [
        | inl (ends, same) ↦ rw (← same) used
        | inr r ↦
            granted_on fuel values command granted r.next
              (take_handle upper r.before r.name r.value s) result r.goes_on
              (unfold take_handle in
                All-note_name (λ h. contains granted h ≡ true) r.name s.handles_used r.is_granted
                  used)
      ]

  -- A substitution that succeeds uses no handle that is not granted.
  pub substitute-granted :
      (values : List (Text × Text)) (command : Text) (granted : List Text) (result : Substitution)
      → substitute upper values command granted ≡ ok result
      → All (λ h. contains granted h ≡ true) result.handles_used
  unfolding substitute
  substitute-granted values command granted result h =
      granted_on (suc (length command)) values command granted command (blank upper) result h tt

  same_next :
      {o : Option (Text × Text)} {b b' a a' : Text}
      → o ≡ some (b, a)
      → o ≡ some (b', a')
      → (b ≡ b') × (a ≡ a')
  same_next e e' = (cc, cc)

  -- Two runs that have built the same command and names go on in the same way, whatever the values.
  secret_on :
      (fuel : ℕ) (values values' : List (Text × Text)) (command : Text) (granted : List Text)
      (rest : Text) (s s' result result' : Substitution)
      → substitute_on upper fuel values command granted rest s ≡ ok result
      → substitute_on upper fuel values' command granted rest s' ≡ ok result'
      → s.command ≡ s'.command
      → s.handles_used ≡ s'.handles_used
      → (result.command ≡ result'.command) × (result.handles_used ≡ result'.handles_used)
  secret_on zero values values' command granted rest s s' result result' h h' c u =
      absurd (no_fuel values command granted rest s result h)
  secret_on (suc fuel) values values' command granted rest s s' result result' h h' c u =
      elim (round values command granted fuel rest s result h) [
        | inl (ends, same) ↦ elim (round values' command granted fuel rest s' result' h') [
          | inl (ends', same') ↦ rw (← same, ← same') (ap (λ (t : Text). t ++ rest) c, u)
          | inr r' ↦ absurd (cc (sym ends ∙ r'.opened))
        ]
        | inr r ↦ elim (round values' command granted fuel rest s' result' h') [
          | inl (ends', same') ↦ absurd (cc (sym ends' ∙ r.opened))
          | inr r' ↦
              let (same_before, same_after) = same_next r.opened r'.opened in
              let (same_name, same_rest) =
                same_next r.closed (ap (cut_at handle_close) same_after ∙ r'.closed) in
              secret_on fuel values values' command granted r.next
                (take_handle upper r.before r.name r.value s)
                (take_handle upper r'.before r'.name r'.value s') result result' r.goes_on
                (rw (same_rest) r'.goes_on) (unfold take_handle in rw (c, same_before, same_name))
                (unfold take_handle in rw (u, same_name))
        ]
      ]

  -- Two substitutions of one command that succeed give the same command and the same names, whatever
  -- the values of the handles: no value shows in them.
  pub substitute-secret :
      (values values' : List (Text × Text)) (command : Text) (granted : List Text)
      (result result' : Substitution)
      → substitute upper values command granted ≡ ok result
      → substitute upper values' command granted ≡ ok result'
      → (result.command ≡ result'.command) × (result.handles_used ≡ result'.handles_used)
  unfolding substitute
  substitute-secret values values' command granted result result' h h' =
      secret_on (suc (length command)) values values' command granted command (blank upper)
        (blank upper) result result' h h' refl refl

  handles_on-agrees :
      (fuel : ℕ) (values : List (Text × Text)) (command : Text) (granted : List Text) (rest : Text)
      (s result : Substitution)
      → substitute_on upper fuel values command granted rest s ≡ ok result
      → result.handles_used ≡ handles_on upper fuel rest s.handles_used
  unfolding handles_on
  handles_on-agrees zero values command granted rest s result h =
      absurd (no_fuel values command granted rest s result h)
  handles_on-agrees (suc fuel) values command granted rest s result h =
      elim (round values command granted fuel rest s result h) [
        | inl (ends, same) ↦ rw (ends, handles_on, ← same) refl
        | inr r ↦
            rw (r.opened, handles_on, r.closed)
              (handles_on-agrees fuel values command granted r.next
                  (take_handle upper r.before r.name r.value s) result r.goes_on
                ∙ (unfold take_handle in refl))
      ]

  -- A substitution that succeeds uses the handles that `handles_in` finds in the command.
  pub substitute-handles_in :
      (values : List (Text × Text)) (command : Text) (granted : List Text) (result : Substitution)
      → substitute upper values command granted ≡ ok result
      → result.handles_used ≡ handles_in upper command
  unfolding substitute handles_in
  substitute-handles_in values command granted result h =
      handles_on-agrees (suc (length command)) values command granted command (blank upper) result h
