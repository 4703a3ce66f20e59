-- ===== src/Policy/Rules/Sound.antt =====
-- src/policy.rs: what `Policy::validate` accepts.
use trunnion.Prelude.{
  true, false, ◌&&◌, Text, str_eq, is_blank, any, All, All-imp, All-both, Option, none, some, List,
  [], ◌∷◌, ◌++◌, if◌then◌else◌, ◌≡◌, ◌≢◌, ◌↔◌, refl, arith, append_assoc, append-nil, ap,
}
use trunnion.Fault.{Result, done, err, >>-eq-ok, Fault}
use trunnion.Policy.Ladder.{Action, allow, deny, hold, Gate, pre, post, open_gate, gate}
use trunnion.Policy.Rules.{
  Capability, Rule, Policy, is_none, is_post, is_allow, covers, for_each, check_capability,
  check_named, check_message, check_rule, check_pair, check_reach, or_empty, validate,
}

-- A loop ends well exactly when every round does.
for_each_iff {ℓ} :
    {A : Type ℓ} (body : A → Result (Unit {0})) (xs : List A)
    → (for_each body xs ≡ done) ↔ All (λ x. body x ≡ done) xs
for_each_iff {A} body xs = (to xs, from xs)
  where
    to : (ys : List A) → for_each body ys ≡ done → All (λ x. body x ≡ done) ys
    to [] h = tt
    to (y ∷ ys) h =
        let (here, later) = >>-eq-ok (body y) (for_each body ys) h in (here, to ys later)

    from : (ys : List A) → All (λ x. body x ≡ done) ys → for_each body ys ≡ done
    from [] h = refl
    from (y ∷ ys) h = rw h.0 (from ys h.1)

-- A gate after the call comes with a rollback handle.
abbrev pub HasRollback : Capability → Type 0
HasRollback c = gate c.rung c.effect ≡ post → c.rollback ≢ none

-- The rule names no capability, or one that is declared.
abbrev pub IsDeclared : List Capability → Rule → Type 0
IsDeclared capabilities r =
    (id : Text)
    → r.matcher.capability ≡ some id
    → any (λ (c : Capability). str_eq c.id id) capabilities ≡ true

-- A rule that can deny or hold carries a message that is not blank.
abbrev pub IsSpoken : Rule → Type 0
IsSpoken r = r.action ≢ allow → (m : Text) × (r.message ≡ some m) × (is_blank m ≡ false)

post_guard :
    (g : Gate) (handle : Option Text) (e : Fault)
    → ((if is_post g && is_none handle then err e else done) ≡ done) ↔ (g ≡ post → handle ≢ none)
post_guard post none e = (λ h. cc, λ h. absurd (h refl refl))
post_guard post (some r) e = (λ _ _ n. cc, λ _. refl)
post_guard pre handle e = (λ _ n. cc, λ _. refl)
post_guard open_gate handle e = (λ _ n. cc, λ _. refl)

check_capability_iff : (c : Capability) → (check_capability c ≡ done) ↔ HasRollback c
unfolding check_capability
check_capability_iff c = post_guard (gate c.rung c.effect) c.rollback _

named_guard :
    (capabilities : List Capability) (rule : Text) (name : Option Text)
    → (check_named capabilities rule name ≡ done) ↔ (
        (id : Text) → name ≡ some id → any (λ (c : Capability). str_eq c.id id) capabilities ≡ true)
unfolding check_named
named_guard capabilities rule none = (λ _ id e. cc, λ _. refl)
named_guard capabilities rule (some x) = (to, λ h. rw (h x refl))
  where
    to :
        check_named capabilities rule (some x) ≡ done
        → (id : Text) → some x ≡ some id
        → any (λ (c : Capability). str_eq c.id id) capabilities ≡ true
    to h id e = ground (arith, h)

spoken :
    (m : Text) (e : Fault)
    → (t : Text) × (some m ≡ some t) × (is_blank t ≡ false)
    → (if is_blank m then err e else done) ≡ done
spoken m e (t, same, loud) = ground arith

message_guard :
    (a : Action) (message : Option Text) (e : Fault)
    → ((if is_allow a then done else if is_blank (or_empty message) then err e else done) ≡ done)
      ↔ (a ≢ allow → (m : Text) × (message ≡ some m) × (is_blank m ≡ false))
unfolding is_blank
message_guard allow message e = (λ _ n. absurd (n refl), λ _. refl)
message_guard deny none e = (λ h n. cc, λ h. let (m, same, _) = h (λ q. cc) in cc)
message_guard deny (some m) e = (λ h n. (m, refl, ground arith), λ h. spoken m e (h (λ q. cc)))
message_guard hold none e = (λ h n. cc, λ h. let (m, same, _) = h (λ q. cc) in cc)
message_guard hold (some m) e = (λ h n. (m, refl, ground arith), λ h. spoken m e (h (λ q. cc)))

check_message_iff : (r : Rule) → (check_message r ≡ done) ↔ IsSpoken r
unfolding check_message
check_message_iff r = message_guard r.action r.message _

check_rule_iff :
    (capabilities : List Capability) (r : Rule)
    → (check_rule capabilities r ≡ done) ↔ (IsDeclared capabilities r × IsSpoken r)
unfolding check_rule
check_rule_iff capabilities r = (to, from)
  where
    to : check_rule capabilities r ≡ done → IsDeclared capabilities r × IsSpoken r
    to h =
        let (named, voiced) =
          >>-eq-ok (check_named capabilities r.id r.matcher.capability) (check_message r) h in
        (
          (named_guard capabilities r.id r.matcher.capability).0 named,
          (check_message_iff r).0 voiced,
        )

    from : IsDeclared capabilities r × IsSpoken r → check_rule capabilities r ≡ done
    from (named, voiced) = rw (
      (named_guard capabilities r.id r.matcher.capability).1 named,
      (check_message_iff r).1 voiced,
    )

-- The fields of a policy that loads: no gate after the call without a rollback handle, no rule for an
-- undeclared capability, no mute denial or hold, and no rule below one that covers it.
pub record IsSound {V : Type 0} (policy : Policy V) : Type 0 where
  pub rollbacks : All HasRollback policy.capabilities
  pub declared : All (IsDeclared policy.capabilities) policy.rules
  pub spoken : All IsSpoken policy.rules
  pub reachable :
      (above : List Rule) (later : Rule) (below : List Rule)
      → policy.rules ≡ above ++ later ∷ below
      → All (λ e. covers e later ≡ false) above

check_pair_iff : (later e : Rule) → (check_pair later e ≡ done) ↔ (covers e later ≡ false)
unfolding check_pair
check_pair_iff later e = (λ h. ground arith, λ h. ground arith)

All-iff {ℓ} :
    {A : Type ℓ} {P Q : A → Type 0} → ((x : A) → P x ↔ Q x) → (xs : List A) → All P xs ↔ All Q xs
All-iff f [] = (λ h. h, λ h. h)
All-iff f (x ∷ xs) =
    (λ h. ((f x).0 h.0, (All-iff f xs).0 h.1), λ h. ((f x).1 h.0, (All-iff f xs).1 h.1))

-- No rule of `rules` is covered by one above it, of `above` or of `rules`.
abbrev Reachable : List Rule → List Rule → Type 0
Reachable above rules =
    (xs : List Rule) (later : Rule) (ys : List Rule)
    → rules ≡ xs ++ later ∷ ys
    → All (λ e. covers e later ≡ false) (above ++ xs)

check_reach_sound :
    (above rules : List Rule) → check_reach above rules ≡ done → Reachable above rules
unfolding check_reach
check_reach_sound above [] h [] later ys e = cc
check_reach_sound above [] h (x ∷ xs) later ys e = cc
check_reach_sound above (r ∷ rest) h [] later ys e =
    let (here, _) = >>-eq-ok (for_each (check_pair r) above) _ h in
    let same : r ≡ later = cc in
    rw (append-nil above, ← same)
      ((All-iff (check_pair_iff r) above).0 ((for_each_iff (check_pair r) above).0 here))
check_reach_sound above (r ∷ rest) h (x ∷ xs) later ys e =
    let (_, next) = >>-eq-ok (for_each (check_pair r) above) _ h in
    let same : r ≡ x = cc in
    let split : rest ≡ xs ++ later ∷ ys = cc in
    rw (← same, ← append_assoc above (r ∷ []) xs)
      (check_reach_sound (above ++ r ∷ []) rest next xs later ys split)

check_reach_complete :
    (above rules : List Rule) → Reachable above rules → check_reach above rules ≡ done
unfolding check_reach
check_reach_complete above [] h = refl
check_reach_complete above (r ∷ rest) h =
    rw (here, check_reach_complete (above ++ r ∷ []) rest next)
  where
    here : for_each (check_pair r) above ≡ done
    here =
        (for_each_iff (check_pair r) above).1
          ((All-iff (check_pair_iff r) above).1 (rw (append-nil above) at (h [] r rest refl)))

    next : Reachable (above ++ r ∷ []) rest
    next xs later ys e =
        rw (append_assoc above (r ∷ []) xs)
          (h (r ∷ xs) later ys (ap (λ (zs : List Rule). r ∷ zs) e))

-- `validate` accepts exactly the sound policies.
pub validate_iff : {V : Type 0} (policy : Policy V) → (validate policy ≡ done) ↔ IsSound policy
unfolding validate
validate_iff policy = (to, from)
  where
    to : validate policy ≡ done → IsSound policy
    to h =
        let (first, rest) = >>-eq-ok (for_each check_capability policy.capabilities) _ h in
        let (second, third) =
          >>-eq-ok (for_each (check_rule policy.capabilities) policy.rules) _ rest in
        let rules =
          (All-iff (check_rule_iff policy.capabilities) policy.rules).0
            ((for_each_iff (check_rule policy.capabilities) policy.rules).0 second) in
        record {
          rollbacks =
              (All-iff check_capability_iff policy.capabilities).0
                ((for_each_iff check_capability policy.capabilities).0 first);
          declared = All-imp (λ r p. p.0) policy.rules rules;
          spoken = All-imp (λ r p. p.1) policy.rules rules;
          reachable = check_reach_sound [] policy.rules third;
        }

    from : IsSound policy → validate policy ≡ done
    from s = rw (
      (for_each_iff check_capability policy.capabilities).1
          ((All-iff check_capability_iff policy.capabilities).1 s.rollbacks),
      (for_each_iff (check_rule policy.capabilities) policy.rules).1 (
          (All-iff (check_rule_iff policy.capabilities) policy.rules).1
            (All-both _ _ policy.rules s.declared s.spoken)),
      check_reach_complete [] policy.rules s.reachable,
    )
