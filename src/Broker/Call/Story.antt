-- ===== src/Broker/Call/Story.antt =====
-- src/broker.rs: the story of a call on the ledger, from its request to its result.
use trunnion.Prelude.{Text, codes, Option, none, some, List, ◌∷◌, ◌≡◌, refl, sym, ap, ◌⊎◌, inl, inr}
use trunnion.Fault.{Fault, Result, ok, err, tool_not_registered}
use trunnion.Json.{Json, Digest}
use trunnion.Keys.{Keys}
use trunnion.Event.{subject_hash}
use trunnion.Ledger.{or_fault}
use trunnion.Policy.Decide.{Decision}
use trunnion.Secrets.{value_of}
use trunnion.Runlog.{append}
use trunnion.Broker.{Site, Run, call_hash}
use trunnion.Broker.Steps.{give-step, record-step}
use trunnion.Broker.Call.Told.{
  SiteCore, SiteItems, Middle, Told, Told-after, Finished, carry_out-Finished,
}
use trunnion.Broker.Call.{
  BrokerResult, Pending, builtin_args, decide_call, decision_subject, decided, request_id_of,
  request_subject, call,
}

or_fault-err :
    (o : Option Text) (f fault : Fault) → or_fault o f ≡ err fault → (o ≡ none) × (f ≡ fault)
or_fault-err none f fault e = (refl, cc)
or_fault-err (some t) f fault e = cc

or_fault-ok : (o : Option Text) (f : Fault) (t : Text) → or_fault o f ≡ ok t → o ≡ some t
or_fault-ok none f t e = cc
or_fault-ok (some u) f t e = cc

module _ (j : Json) (d : Digest) (keys : Keys) (site : Site j) where
  abbrev egress : Run j d keys site → j.Value
  egress run = j.field (j.field run.policy.profile_requirements (codes "egress")) (codes "allow")

  -- A request that was appended, first of all, with the hashes that it names.
  pub record Requested (tool target : Text) (run : Run j d keys site)
      (core : SiteCore j d keys site) : Type 0 where
    pub schema : Text
    pub egress_hash : Text
    pub hash : Text
    pub id : Text
    pub registered : value_of run.registered tool ≡ some schema
    pub egress_hashed : subject_hash j d (egress run) ≡ ok egress_hash
    pub hashed : call_hash j d keys site tool (builtin_args j d keys site tool target) ≡ ok hash
    pub appended :
        append j d keys site.book site.clock
          (codes "tool.request")
          (request_subject j d keys site run
            (request_id_of j d keys site run)
            hash
            tool
            schema
            target
            egress_hash)
          run.core
        ≡ (core, ok id)

  -- What stopped a call before its decision was on the ledger, with the run as it then is: nothing but the
  -- ledger is another one.
  pub data Stops (tool target : Text) (run : Run j d keys site)
      : Run j d keys site → Fault → Type 0 where
    unregistered :
        value_of run.registered tool ≡ none → Stops tool target run run (tool_not_registered tool)
    uncanonical_egress :
        {fault : Fault}
        → subject_hash j d (egress run) ≡ err fault
        → Stops tool target run run fault
    uncanonical_args :
        {fault : Fault}
        → call_hash j d keys site tool (builtin_args j d keys site tool target) ≡ err fault
        → Stops tool target run run fault
    unrequested :
        {fault : Fault} {core : SiteCore j d keys site} (hash schema egress_hash : Text)
        → append j d keys site.book site.clock
            (codes "tool.request")
            (request_subject j d keys site run
              (request_id_of j d keys site run)
              hash
              tool
              schema
              target
              egress_hash)
            run.core
          ≡ (core, err fault)
        → Stops tool target run (record run { core = core }) fault
    unread :
        {fault : Fault} {core : SiteCore j d keys site}
        → Requested tool target run core
        → site.book.history core.ledger ≡ err fault
        → Stops tool target run (record run { core = core }) fault
    undecided :
        {fault : Fault} {core : SiteCore j d keys site} (history : List j.Value)
        → Requested tool target run core
        → site.book.history core.ledger ≡ ok history
        → decide_call j d keys site (record run { core = core }) history tool target ≡ err fault
        → Stops tool target run (record run { core = core }) fault
    unannounced :
        {fault : Fault} {core after : SiteCore j d keys site} (decision : Decision j.Value)
        (requested : Requested tool target run core)
        → append j d keys site.book site.clock
            (codes "policy.decision")
            (decision_subject j d keys site decision
              (request_id_of j d keys site run)
              requested.hash)
            core
          ≡ (after, err fault)
        → Stops tool target run (record run { core = after }) fault

  -- The appends of a call that was decided: the request, the decision that the history after it gives, under
  -- the request's id, at most one more, and the result under the request's id, unless the call halts first.
  pub record Story (tool target : Text) (run : Run j d keys site)
      (out : Run j d keys site × Result BrokerResult) : Type 0 where
    pub core : SiteCore j d keys site
    pub requested : Requested tool target run core
    pub history : List j.Value
    pub decision : Decision j.Value
    pub read : site.book.history core.ledger ≡ ok history
    pub decided_so :
        decide_call j d keys site (record run { core = core }) history tool target ≡ ok decision
    pub middle : SiteItems j d keys site
    pub is_middle : Middle j d keys site middle
    pub told :
        Told j d keys site tool target
          (request_id_of j d keys site run)
          run.core
          ((
            codes "tool.request",
            request_subject j d keys site run
                (request_id_of j d keys site run)
                requested.hash
                tool
                requested.schema
                target
                requested.egress_hash,
          )
            ∷ (
              codes "policy.decision",
              decision_subject j d keys site decision
                  (request_id_of j d keys site run)
                  requested.hash,
            )
            ∷ middle)
          out

  abbrev pub Recorded :
      Text → Text → Run j d keys site → Run j d keys site × Result BrokerResult → Type 0
  Recorded tool target run (after, result) =
      ((fault : Fault) × (result ≡ err fault) × Stops tool target run after fault)
      ⊎ Story tool target run (after, result)

  -- The steps after the request.
  decided-Recorded :
      (tool target : Text) (run : Run j d keys site) (core : SiteCore j d keys site)
      (requested : Requested tool target run core)
      → Recorded tool target run (
          decided j d keys site
            (request_id_of j d keys site run)
            requested.hash
            tool
            target
            (record run { core = core }))
  unfolding decided
  decided-Recorded tool target run core requested =
      give-step P (site.book.history core.ledger) _ here
        (λ fault e. inl (fault, refl, unread requested e))
        (λ history read.
          give-step P (decide_call j d keys site here history tool target) _ here
            (λ fault e. inl (fault, refl, undecided history requested read e))
            (λ decision decided_so.
              record-step j d keys site P (codes "policy.decision") (body decision) _ here
                (λ after fault e. inl (fault, refl, unannounced decision requested e))
                (λ after id e. told history decision read decided_so after id e _ (
                  carry_out-Finished j d keys site (pending history decision) decision.verdict
                    (record run { core = after })))))
    where
      here : Run j d keys site
      here = record run { core = core }

      request_id : Text
      request_id = request_id_of j d keys site run

      P : Run j d keys site × Result BrokerResult → Type 0
      P = Recorded tool target run

      body : Decision j.Value → j.Value
      body decision = decision_subject j d keys site decision request_id requested.hash

      pending : List j.Value → Decision j.Value → Pending j d keys site
      pending history decision = record {
        tool = tool;
        target = target;
        request_id = request_id;
        hash = requested.hash;
        history = history;
        decision = decision;
      }

      told :
          (history : List j.Value) (decision : Decision j.Value)
          → site.book.history core.ledger ≡ ok history
          → decide_call j d keys site here history tool target ≡ ok decision
          → (after : SiteCore j d keys site) (id : Text)
          → append j d keys site.book site.clock (codes "policy.decision") (body decision) core
            ≡ (after, ok id)
          → (out : Run j d keys site × Result BrokerResult)
          → Finished j d keys site tool target request_id after out
          → P out
      told history decision read decided_so after id e out (middle, is_middle, end) = inr (record {
        core = core;
        requested = requested;
        history = history;
        decision = decision;
        read = read;
        decided_so = decided_so;
        middle = middle;
        is_middle = is_middle;
        told =
            Told-after j d keys site tool target request_id _ _ run.core core requested.id _ out
              requested.appended
              (Told-after j d keys site tool target request_id _ _ core after id middle out e end);
      })

  -- A call ends with the fault of a step that stopped it before the decision was appended (the tool is not
  -- registered, the egress list or the arguments have no canonical form, the request's append failed, the
  -- history after it could not be read or decided on, or the decision's append failed), or its appends are
  -- the request, the decision that the history after the request gives, at most one demotion or use of an
  -- approval, and a result under the request's id, whose outcome is "ok" exactly where the call ends well,
  -- unless the append after some of them failed or the tool's payload has no canonical form, with that fault.
  pub call-Recorded :
      (tool target : Text) (run : Run j d keys site)
      → Recorded tool target run (call j d keys site tool target run)
  unfolding call decided
  call-Recorded tool target run =
      give-step P (or_fault (value_of run.registered tool) (tool_not_registered tool)) _ run
        (λ fault e.
          unfound fault
            (or_fault-err (value_of run.registered tool) (tool_not_registered tool) fault e))
        (λ schema found.
          give-step P (subject_hash j d (egress run)) _ run
            (λ fault e. inl (fault, refl, uncanonical_egress e))
            (λ egress_hash egress_hashed.
              give-step P (call_hash j d keys site tool (builtin_args j d keys site tool target)) _
                run (λ fault e. inl (fault, refl, uncanonical_args e))
                (λ hash hashed.
                  record-step j d keys site P (codes "tool.request") (body hash schema egress_hash)
                    _ run (λ core fault e. inl (fault, refl, unrequested hash schema egress_hash e))
                    (λ core id e. decided-Recorded tool target run core (record {
                      schema = schema;
                      egress_hash = egress_hash;
                      hash = hash;
                      id = id;
                      registered =
                          or_fault-ok (value_of run.registered tool) (tool_not_registered tool)
                            schema found;
                      egress_hashed = egress_hashed;
                      hashed = hashed;
                      appended = e;
                    })))))
    where
      P : Run j d keys site × Result BrokerResult → Type 0
      P = Recorded tool target run

      body : Text → Text → Text → j.Value
      body hash schema egress_hash =
          request_subject j d keys site run (request_id_of j d keys site run) hash tool schema
            target egress_hash

      unfound :
          (fault : Fault)
          → (value_of run.registered tool ≡ none) × (tool_not_registered tool ≡ fault)
          → P (run, err fault)
      unfound fault (missing, same) =
          inl (tool_not_registered tool, sym (ap err same), unregistered missing)
