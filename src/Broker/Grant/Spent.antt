-- ===== src/Broker/Grant/Spent.antt =====
-- src/broker.rs: what a usable grant is, and that a grant which an `approval.use` names is not usable again.
use trunnion.Prelude.{
  Bool, true, false, ◌&&◌, not, find-eq-some, All, Any, Bool-cases, Text, codes, Option, none, some,
  List, [], ◌∷◌, ◌++◌, ◌≡◌, ◌≢◌, refl, inl, inr,
}
use trunnion.Json.{Json, IsLawful}
use trunnion.Policy.Rules.{Policy}
use trunnion.Trust.{TrustBudget, approver_ok, from_policy, subject_of}
use trunnion.Broker.Grant.{
  has_kind, subjects_of, grant_id, names_grant, is_spent, may_approve, releases, usable_grant,
}

and_five :
    {a b c d e : Bool}
    → (a && b && c && d && e) ≡ true
    → (a ≡ true) × (b ≡ true) × (c ≡ true) × (d ≡ true) × (e ≡ true)
and_five {a = true} {b = true} {c = true} {d = true} {e = true} h = (refl, refl, refl, refl, refl)
and_five {a = true} {b = true} {c = true} {d = true} {e = false} h = cc
and_five {a = true} {b = true} {c = true} {d = false} h = cc
and_five {a = true} {b = true} {c = false} h = cc
and_five {a = true} {b = false} h = cc
and_five {a = false} h = cc

not-eq_true : {b : Bool} → not b ≡ true → b ≡ false
not-eq_true {b = true} h = cc
not-eq_true {b = false} h = refl

module _ (j : Json) (lawful : IsLawful j) where
  -- An approval on the ledger for this call and this rule, which says approve, by an approver whom the trust
  -- budget permits, and which no `approval.use` on the ledger names.
  pub record IsRelease (policy : Policy j.Value) (history : List j.Value) (hash rule : Text)
      (g : j.Value) : Type 0 where
    pub recorded :
        Any
          (λ e. (j.field e (codes "kind") ≡ j.str (codes "approval")) × (subject_of j e ≡ g))
          history
    pub for_call : j.field g (codes "call_hash") ≡ j.str hash
    pub for_rule : j.field g (codes "rule") ≡ j.str rule
    pub approves : j.field g (codes "verdict") ≡ j.str (codes "approve")
    pub permitted :
        (a : Text) × (j.as_str (j.field g (codes "approver")) ≡ some a)
        × (approver_ok (from_policy j policy.trust_budget) a ≡ true)
    pub unspent :
        All
          (λ e.
            j.field e (codes "kind") ≡ j.str (codes "approval.use")
            → grant_id j (subject_of j e) ≢ grant_id j g)
          history

  subjects_of-Any :
      (kind : Text) (g : j.Value) (history before after : List j.Value)
      → subjects_of j kind history ≡ before ++ g ∷ after
      → Any (λ e. (j.field e (codes "kind") ≡ j.str kind) × (subject_of j e ≡ g)) history
  unfolding subjects_of
  subjects_of-Any kind g [] [] after h = cc
  subjects_of-Any kind g [] (_ ∷ _) after h = cc
  subjects_of-Any kind g (e ∷ events) before after h = elim (Bool-cases (has_kind j kind e)) [
    | inr other ↦ inr (subjects_of-Any kind g events before after (rw (other, subjects_of) at h))
    | inl same ↦
        here same (λ b. subjects_of-Any kind g events b after) before (rw (same, subjects_of) at h)
  ]
    where
      here :
          has_kind j kind e ≡ true
          → ((b : List j.Value)
              → subjects_of j kind events ≡ b ++ g ∷ after
              → Any (λ e. (j.field e (codes "kind") ≡ j.str kind) × (subject_of j e ≡ g)) events)
          → (before : List j.Value)
          → subject_of j e ∷ subjects_of j kind events ≡ before ++ g ∷ after
          → Any (λ e. (j.field e (codes "kind") ≡ j.str kind) × (subject_of j e ≡ g)) (e ∷ events)
      here same later [] h = inl ((lawful.equal_iff _ _).0 same, cc)
      here same later (_ ∷ before) h = inr (later before cc)

  is_spent-All :
      (g : j.Value) (history : List j.Value)
      → is_spent j history g ≡ false
      → All
          (λ e.
            j.field e (codes "kind") ≡ j.str (codes "approval.use")
            → grant_id j (subject_of j e) ≢ grant_id j g)
          history
  unfolding is_spent subjects_of
  is_spent-All g [] h = tt
  is_spent-All g (e ∷ events) h = elim (Bool-cases (has_kind j (codes "approval.use") e)) [
    | inr other ↦ (
      (λ used. absurd (cc ((lawful.equal_iff _ _).1 used, other))),
      is_spent-All g events (rw (other, subjects_of, is_spent) at h),
    )
    | inl used ↦ elim (Bool-cases (names_grant j g (subject_of j e))) [
      | inl named ↦ absurd (cc (rw (used, subjects_of, named, is_spent) at h))
      | inr unnamed ↦ (
        (λ _. λ same. absurd (cc ((lawful.equal_iff _ _).1 same, unnamed))),
        is_spent-All g events (rw (used, subjects_of, unnamed, is_spent) at h),
      )
    ]
  ]

  may_approve-eq :
      (budget : TrustBudget) (approver : Option Text)
      → may_approve j budget approver ≡ true
      → (a : Text) × (approver ≡ some a) × (approver_ok budget a ≡ true)
  unfolding may_approve
  may_approve-eq budget none h = cc
  may_approve-eq budget (some a) h = (a, refl, h)

  pub usable_grant-IsRelease :
      (policy : Policy j.Value) (history : List j.Value) (hash rule : Text) (g : j.Value)
      → usable_grant j policy history hash rule ≡ some g
      → IsRelease policy history hash rule g
  unfolding usable_grant releases
  usable_grant-IsRelease policy history hash rule g h =
      let (before, after, split, passes, _) =
        find-eq-some (releases j budget history hash rule)
          (subjects_of j (codes "approval") history) g h in
      let (call, for_rule, approves, permitted, fresh) = and_five passes in
      record {
        recorded = subjects_of-Any (codes "approval") g history before after split;
        for_call = (lawful.equal_iff _ _).0 call;
        for_rule = (lawful.equal_iff _ _).0 for_rule;
        approves = (lawful.equal_iff _ _).0 approves;
        permitted = may_approve-eq budget (j.as_str (j.field g (codes "approver"))) permitted;
        unspent = is_spent-All g history (not-eq_true fresh);
      }
    where
      budget : TrustBudget
      budget = from_policy j policy.trust_budget
