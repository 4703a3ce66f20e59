-- ===== src/Broker/Call/Told.antt =====
-- src/broker.rs: what a call leaves on the ledger, for every way in which it ends.
use trunnion.Prelude.{
  ℕ, Bool, true, false, Text, codes, str_eq, Option, none, some, [], ◌∷◌, ◌++◌, ◌≡◌, refl, subst,
  ◌⊎◌, inl, inr,
}
use trunnion.Fault.{Fault, Result, ok, err, call_denied, call_held, credential_refused, call_failed}
use trunnion.Trial.{Trial, chain, give}
use trunnion.Json.{Json, Digest}
use trunnion.Keys.{Keys}
use trunnion.Event.{subject_hash}
use trunnion.Policy.Ladder.{Action, allow, deny, hold}
use trunnion.Secrets.{Substitution, substitute}
use trunnion.Runlog.{Core, append}
use trunnion.Runlog.Traces.{Items, Trace}
use trunnion.Broker.{Site, Run, emit_result, result_subject}
use trunnion.Broker.Grant.{usable_grant}
use trunnion.Broker.Steps.{give-step, if-step, record-step}
use trunnion.Broker.Call.Demotion.{demote-step}
use trunnion.Broker.Call.{
  BrokerResult, ExecResult, Pending, capability_of, credentials_of, finish, run_in_world, execute,
  execute_with, execute_allowed, refuse, release, use_subject, note_review, carry_out, is_review,
}

abbrev ends_well : {A : Type 0} → Result A → Bool
ends_well (err fault) = false
ends_well (ok a) = true

module _ (j : Json) (d : Digest) (keys : Keys) (site : Site j) where
  abbrev pub SiteCore : Type 0
  SiteCore = Core j d keys site.book site.clock

  abbrev pub SiteItems : Type 0
  SiteItems = Items j d keys site.book site.clock

  abbrev pub SiteTrace : SiteCore → SiteItems → SiteCore → Type 0
  SiteTrace = Trace j d keys site.book site.clock

  -- What stopped a call after these appends: the next one failed, or the tool gave a payload that has no
  -- canonical form.
  pub data Halts (tool target : Text) (first : SiteCore) (items : SiteItems)
      (after : Run j d keys site) (fault : Fault) : Type 0 where
    unwritten :
        (kind : Text) (subject : j.Value) (core : SiteCore)
        → SiteTrace first items core
        → append j d keys site.book site.clock kind subject core ≡ (after.core, err fault)
        → Halts tool target first items after fault
    unhashed :
        (s : Substitution) (before : site.World) (result : ExecResult j.Value)
        → SiteTrace first items after.core
        → execute j d keys site tool target s before ≡ (after.world, ok result)
        → subject_hash j d result.payload ≡ err fault
        → Halts tool target first items after fault

  -- At most one demotion or use of an approval.
  pub data Middle : SiteItems → Type 0 where
    nothing : Middle []
    demoted : (subject : j.Value) → Middle ((codes "rung.change", subject) ∷ [])
    used : (subject : j.Value) → Middle ((codes "approval.use", subject) ∷ [])

  -- The appends of the call are these items and then a result, whose outcome is "ok" exactly where the call
  -- ends well.
  pub record Ends (request_id : Text) (first : SiteCore) (items : SiteItems)
      (after : Run j d keys site) (result : Result BrokerResult) : Type 0 where
    pub outcome : Text
    pub result_hash : Option Text
    pub taint : Bool
    pub duration_ms : ℕ
    pub message : Option Text
    pub traced :
        SiteTrace first
          (items
            ++ (
              codes "tool.result",
              result_subject j d keys site request_id outcome result_hash taint duration_ms message,
            )
              ∷ [])
          after.core
    pub said : ends_well result ≡ str_eq outcome (codes "ok")

  module _ (tool target request_id : Text) where
    abbrev pub Told : SiteCore → SiteItems → Run j d keys site × Result BrokerResult → Type 0
    Told first items (after, result) =
        ((fault : Fault) × (result ≡ err fault) × Halts tool target first items after fault)
        ⊎ Ends request_id first items after result

    -- An append more at the beginning.
    pub Told-after :
        (kind : Text) (subject : j.Value) (first core : SiteCore) (id : Text) (items : SiteItems)
        (out : Run j d keys site × Result BrokerResult)
        → append j d keys site.book site.clock kind subject first ≡ (core, ok id)
        → Told core items out
        → Told first ((kind, subject) ∷ items) out
    Told-after kind subject first core id items (after, result) e (inl (fault, bad, halts)) =
        inl (fault, bad, later halts)
      where
        later :
            Halts tool target core items after fault
            → Halts tool target first ((kind, subject) ∷ items) after fault
        later (unwritten k s mid traced refused) = unwritten k s mid (core, id, e, traced) refused
        later (unhashed s before r traced ran failed) =
            unhashed s before r (core, id, e, traced) ran failed
    Told-after kind subject first core id items (after, result) e (inr end) = inr (record {
      outcome = end.outcome;
      result_hash = end.result_hash;
      taint = end.taint;
      duration_ms = end.duration_ms;
      message = end.message;
      traced = (core, id, e, end.traced);
      said = end.said;
    })

    -- A result, and then the end of the call.
    emit-Told :
        (outcome : Text) (result_hash : Option Text) (taint : Bool) (ms : ℕ) (message : Option Text)
        (ending : Text → Result BrokerResult) (run : Run j d keys site)
        → ((id : Text) → ends_well (ending id) ≡ str_eq outcome (codes "ok"))
        → Told run.core [] (
            chain
              (emit_result j d keys site request_id outcome result_hash taint ms message run)
              (λ id. give (ending id)))
    unfolding emit_result
    emit-Told outcome result_hash taint ms message ending run said =
        record-step j d keys site (Told run.core []) (codes "tool.result") subject
          (λ id. give (ending id)) run
          (λ core fault e.
            inl (fault, refl, unwritten (codes "tool.result") subject run.core refl e))
          (λ core id e. inr (record {
            outcome = outcome;
            result_hash = result_hash;
            taint = taint;
            duration_ms = ms;
            message = message;
            traced = (core, id, e, refl);
            said = said id;
          }))
      where
        subject : j.Value
        subject = result_subject j d keys site request_id outcome result_hash taint ms message

    finish-Told :
        (s : Substitution) (before : site.World) (ms : ℕ) (outcome : Result (ExecResult j.Value))
        (run : Run j d keys site)
        → execute j d keys site tool target s before ≡ (run.world, outcome)
        → Told run.core [] (finish j d keys site request_id tool target ms outcome run)
    unfolding finish str_eq
    finish-Told s before ms (err fault) run ran =
        emit-Told (codes "blocked") none false ms (some (site.fault_text fault))
          (λ _. err (call_failed tool target fault)) run (λ _. refl)
    finish-Told s before ms (ok result) run ran =
        give-step (Told run.core []) (subject_hash j d result.payload) _ run
          (λ fault e. inl (fault, refl, unhashed s before result refl ran e))
          (λ hash e.
            emit-Told (codes "ok") (some hash) true ms none
              (λ id. ok (record { content = result.content; taint = true; event_id = id })) run
              (λ _. refl))

    execute_with-Told :
        (substitution : Result Substitution) (run : Run j d keys site)
        → Told run.core [] (execute_with j d keys site request_id tool target substitution run)
    unfolding execute_with run_in_world str_eq
    execute_with-Told (err fault) run =
        emit-Told (codes "denied") none false 0 (some (site.fault_text fault))
          (λ _. err (credential_refused tool fault)) run (λ _. refl)
    execute_with-Told (ok s) run = in_world (execute j d keys site tool target s run.world) refl
      where
        in_world :
            (r : site.World × Result (ExecResult j.Value))
            → execute j d keys site tool target s run.world ≡ r
            → Told run.core [] (run_in_world j d keys site request_id tool target run r)
        in_world (world, outcome) ran =
            finish-Told s run.world (site.elapsed_ms run.world world) outcome
              (record run { world = world }) ran

    -- The end of a call, after one append in the middle or none.
    abbrev pub Finished : SiteCore → Run j d keys site × Result BrokerResult → Type 0
    Finished first out = (middle : SiteItems) × Middle middle × Told first middle out

  module _ (p : Pending j d keys site) where
    refuse-Finished :
        (run : Run j d keys site)
        → Finished p.tool p.target p.request_id run.core (refuse j d keys site p run)
    unfolding refuse str_eq
    refuse-Finished run =
        demote-step j d keys site run
          (λ t. Finished p.tool p.target p.request_id run.core (chain t (λ _. last)))
          ([], nothing, denied run)
          (λ subject core fault e. (
            [],
            nothing,
            inl (fault, refl, unwritten (codes "rung.change") subject run.core refl e),
          ))
          (λ subject core id e. (
            (codes "rung.change", subject) ∷ [],
            demoted subject,
            Told-after p.tool p.target p.request_id (codes "rung.change") subject run.core core id
                [] (last (record run { core = core })) e (denied (record run { core = core })),
          ))
          p.history p.decision.capability p.decision.rule
      where
        last : Trial (Run j d keys site) BrokerResult
        last s =
            chain
              (emit_result j d keys site p.request_id (codes "denied") none false 0
                p.decision.message s)
              (λ _. give (err (call_denied p.tool p.target p.decision.rule p.decision.message)))

        denied : (s : Run j d keys site) → Told p.tool p.target p.request_id s.core [] (last s)
        denied s =
            emit-Told p.tool p.target p.request_id (codes "denied") none false 0 p.decision.message
              (λ _. err (call_denied p.tool p.target p.decision.rule p.decision.message)) s
              (λ _. refl)

    allowed-Told :
        (run : Run j d keys site)
        → Told p.tool p.target p.request_id run.core []
            (execute_allowed j d keys site p.decision p.request_id p.tool p.target run)
    unfolding execute_allowed
    allowed-Told run =
        execute_with-Told p.tool p.target p.request_id
          (substitute site.upper run.credentials p.target
            (credentials_of (capability_of run.policy.capabilities p.decision.capability)))
          run

    release-Finished :
        (g : Option j.Value) (run : Run j d keys site)
        → Finished p.tool p.target p.request_id run.core (release j d keys site p g run)
    unfolding release str_eq
    release-Finished none run = (
      [],
      nothing,
      emit-Told p.tool p.target p.request_id (codes "blocked") none false 0 p.decision.message
          (λ _. err (call_held p.tool p.target p.decision.rule p.request_id p.decision.message)) run
          (λ _. refl),
    )
    release-Finished (some g) run =
        record-step j d keys site (Finished p.tool p.target p.request_id run.core)
          (codes "approval.use") subject
          (λ _. execute_allowed j d keys site p.decision p.request_id p.tool p.target) run
          (λ core fault e. (
            [],
            nothing,
            inl (fault, refl, unwritten (codes "approval.use") subject run.core refl e),
          ))
          (λ core id e. (
            (codes "approval.use", subject) ∷ [],
            used subject,
            Told-after p.tool p.target p.request_id (codes "approval.use") subject run.core core id
                []
                (execute_allowed j d keys site p.decision p.request_id p.tool p.target
                  (record run { core = core }))
                e (allowed-Told (record run { core = core })),
          ))
      where
        subject : j.Value
        subject = use_subject j d keys site p run.identity g

    note_review-core :
        (obligation : Option Text) (run : Run j d keys site)
        → (note_review j d keys site obligation run).core ≡ run.core
    unfolding note_review
    note_review-core obligation run =
        if-step (λ (s : Run j d keys site). s.core ≡ run.core) (is_review obligation) refl refl

    pub carry_out-Finished :
        (verdict : Action) (run : Run j d keys site)
        → Finished p.tool p.target p.request_id run.core (carry_out j d keys site p verdict run)
    unfolding carry_out
    carry_out-Finished deny run = refuse-Finished run
    carry_out-Finished hold run =
        release-Finished (usable_grant j run.policy p.history p.hash p.decision.rule) run
    carry_out-Finished allow run = (
      [],
      nothing,
      subst
          (λ c. Told p.tool p.target p.request_id c [] (
            execute_allowed j d keys site p.decision p.request_id p.tool p.target
              (note_review j d keys site p.decision.obligation run)))
          (note_review-core p.decision.obligation run)
          (allowed-Told (note_review j d keys site p.decision.obligation run)),
    )
