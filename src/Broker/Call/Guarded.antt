-- ===== src/Broker/Call/Guarded.antt =====
-- src/broker.rs: what a call must be before it reaches the machine.
use trunnion.Prelude.{false, Text, codes, Option, none, some, List, ◌≡◌, refl, ◌⊎◌, inl, inr}
use trunnion.Fault.{Fault, Result, ok, err, call_denied, tool_not_registered}
use trunnion.Trial.{Trial, chain, give}
use trunnion.Json.{Json, Digest}
use trunnion.Keys.{Keys}
use trunnion.Event.{subject_hash}
use trunnion.Ledger.{or_fault}
use trunnion.Policy.Ladder.{Action, allow, deny, hold}
use trunnion.Policy.Decide.{Decision}
use trunnion.Secrets.{value_of}
use trunnion.Runlog.{Core, append}
use trunnion.Broker.{Site, Run, call_hash, emit_result, result_subject}
use trunnion.Broker.Grant.{usable_grant}
use trunnion.Broker.Steps.{give-step, record-step}
use trunnion.Broker.Call.Demotion.{demote-step}
use trunnion.Broker.Call.{
  BrokerResult, Pending, builtin_args, decide_call, decided, refuse, release, carry_out, call,
}

module _ (j : Json) (d : Digest) (keys : Keys) (site : Site j) where
  -- The world of the machine is as it was.
  abbrev Still : {A : Type 0} → Run j d keys site → Run j d keys site × Result A → Type 0
  Still run (after, result) = after.world ≡ run.world

  emit-Still :
      (request_id outcome : Text) (message : Option Text) (run : Run j d keys site) (fault : Fault)
      → Still {A = BrokerResult} run (
          chain
            (emit_result j d keys site request_id outcome none false 0 message run)
            (λ _. give (err fault)))
  unfolding emit_result
  emit-Still request_id outcome message run fault =
      record-step j d keys site (Still run) (codes "tool.result")
        (result_subject j d keys site request_id outcome none false 0 message)
        (λ _. give (err fault)) run (λ core e h. refl) (λ core id h. refl)

  refuse-Still :
      (p : Pending j d keys site) (run : Run j d keys site) → Still run (refuse j d keys site p run)
  unfolding refuse
  refuse-Still p run =
      demote-step j d keys site run (λ t. Still {A = BrokerResult} run (chain t (λ _. last)))
        (emit-Still p.request_id (codes "denied") p.decision.message run _)
        (λ subject core fault e. refl)
        (λ subject core id e.
          emit-Still p.request_id (codes "denied") p.decision.message (record run { core = core })
            _)
        p.history p.decision.capability p.decision.rule
    where
      last : Trial (Run j d keys site) BrokerResult
      last s =
          chain
            (emit_result j d keys site p.request_id (codes "denied") none false 0 p.decision.message
              s)
            (λ _. give (err (call_denied p.tool p.target p.decision.rule p.decision.message)))

  -- What a call is that reaches the machine: of a registered tool, decided on the history after its request, and
  -- allowed, or held with a grant on that history that is usable.
  pub record IsCleared (run : Run j d keys site) (tool target : Text) : Type 0 where
    pub schema : Text
    pub is_registered : value_of run.registered tool ≡ some schema
    pub request : j.Value
    pub core : Core j d keys site.book site.clock
    pub request_id : Text
    pub requested :
        append j d keys site.book site.clock (codes "tool.request") request run.core
        ≡ (core, ok request_id)
    pub history : List j.Value
    pub replayed : site.book.history core.ledger ≡ ok history
    pub decision : Decision j.Value
    pub decided_so : decide_call j d keys site run history tool target ≡ ok decision
    pub hash : Text
    pub hashed : call_hash j d keys site tool (builtin_args j d keys site tool target) ≡ ok hash
    pub cleared :
        (decision.verdict ≡ allow)
        ⊎ ((decision.verdict ≡ hold)
            × (g : j.Value) × (usable_grant j run.policy history hash decision.rule ≡ some g))

  -- Either the machine is as it was, or the call was cleared.
  abbrev pub Held :
      {A : Type 0} → Run j d keys site → Text → Text → Run j d keys site × Result A → Type 0
  Held run tool target (after, result) = (after.world ≡ run.world) ⊎ IsCleared run tool target

  release-held :
      (p : Pending j d keys site) (g : Option j.Value) (run : Run j d keys site)
      → Still run (release j d keys site p g run) ⊎ ((h : j.Value) × (g ≡ some h))
  unfolding release
  release-held p none run = inl (emit-Still p.request_id (codes "blocked") p.decision.message run _)
  release-held p (some g) run = inr (g, refl)

  carry_out-held :
      (p : Pending j d keys site) (verdict : Action) (run : Run j d keys site)
      → Still run (carry_out j d keys site p verdict run)
        ⊎ ((verdict ≡ allow)
            ⊎ ((verdict ≡ hold)
                × (g : j.Value) × (usable_grant j run.policy p.history p.hash p.decision.rule
                    ≡ some g)))
  unfolding carry_out
  carry_out-held p allow run = inr (inl refl)
  carry_out-held p deny run = inl (refuse-Still p run)
  carry_out-held p hold run =
      elim (release-held p (usable_grant j run.policy p.history p.hash p.decision.rule) run) [
        | inl still ↦ inl still
        | inr (g, e) ↦ inr (inr (refl, g, e))
      ]

  -- The steps after the request, from the run as it was when the call came.
  decided-Held :
      (start : Run j d keys site) (tool target schema hash request_id : Text) (request : j.Value)
      (core : Core j d keys site.book site.clock) (id : Text)
      → value_of start.registered tool ≡ some schema
      → call_hash j d keys site tool (builtin_args j d keys site tool target) ≡ ok hash
      → append j d keys site.book site.clock (codes "tool.request") request start.core
        ≡ (core, ok id)
      → Held start tool target
          (decided j d keys site request_id hash tool target (record start { core = core }))
  unfolding decided decide_call
  decided-Held start tool target schema hash request_id request core id registered hashed
        requested =
      give-step (Held start tool target) (site.book.history core.ledger) _ run (λ fault e. inl refl)
        (λ history replayed.
          give-step (Held start tool target) (decide_call j d keys site start history tool target) _
            run (λ fault e. inl refl)
            (λ decision decided_so.
              record-step j d keys site (Held start tool target) (codes "policy.decision") _ _ run
                (λ core2 fault e. inl refl)
                (λ core2 id2 e.
                  elim (carry_out-held (pending history decision) decision.verdict
                    (record run { core = core2 })) [
                      | inl still ↦ inl still
                      | inr cleared ↦ inr (record {
                        schema = schema;
                        is_registered = registered;
                        request = request;
                        core = core;
                        request_id = id;
                        requested = requested;
                        history = history;
                        replayed = replayed;
                        decision = decision;
                        decided_so = decided_so;
                        hash = hash;
                        hashed = hashed;
                        cleared = cleared;
                      })
                    ])))
    where
      run : Run j d keys site
      run = record start { core = core }

      pending : List j.Value → Decision j.Value → Pending j d keys site
      pending history decision = record {
        tool = tool;
        target = target;
        request_id = request_id;
        hash = hash;
        history = history;
        decision = decision;
      }

  -- Whatever a call ends with, it changed nothing in the world of the machine unless it was cleared: its tool is
  -- registered, the policy's decision on the history after the request was an allow, or a hold for which that
  -- history has a usable grant.
  pub call-Held :
      (tool target : Text) (run : Run j d keys site)
      → Held run tool target (call j d keys site tool target run)
  unfolding call
  call-Held tool target run =
      give-step (Held run tool target)
        (or_fault (value_of run.registered tool) (tool_not_registered tool)) _ run
        (λ fault e. inl refl)
        (λ schema found.
          give-step (Held run tool target) (subject_hash j d egress) _ run (λ fault e. inl refl)
            (λ egress_hash e.
              give-step (Held run tool target)
                (call_hash j d keys site tool (builtin_args j d keys site tool target)) _ run
                (λ fault e. inl refl)
                (λ hash hashed.
                  record-step j d keys site (Held run tool target) (codes "tool.request") _ _ run
                    (λ core fault e. inl refl)
                    (λ core id requested.
                      decided-Held run tool target schema hash _ _ core id
                        (found_some (value_of run.registered tool) _ schema found) hashed
                        requested))))
    where
      egress : j.Value
      egress = j.field (j.field run.policy.profile_requirements (codes "egress")) (codes "allow")

      found_some :
          (o : Option Text) (fault : Fault) (t : Text) → or_fault o fault ≡ ok t → o ≡ some t
      found_some none fault t h = cc
      found_some (some u) fault t h = cc
