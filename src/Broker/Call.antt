-- ===== src/Broker/Call.antt =====
-- src/broker.rs: `call`, which every call of a tool passes, from the request to the result.
pub mod Demotion
pub mod Guarded
pub mod Told
pub mod Story
pub mod Once
pub mod Delegated
use trunnion.Prelude.{
  ℕ, ◌+◌, ◌++◌, Bool, true, false, ◌&&◌, not, ◌||◌, any, find, map, Text, codes, str_eq, decimal,
  Option, none, some, List, [], ◌∷◌, if◌then◌else◌,
}
use trunnion.Fault.{
  Fault, Result, done, ok, err, tool_not_registered, call_denied, call_held, credential_refused,
  call_failed, no_executor,
}
use trunnion.Trial.{Trial, ◌>>=◌, ◌>>◌, update, give}
use trunnion.Json.{Json, Digest}
use trunnion.Keys.{Keys}
use trunnion.Event.{subject_hash, text_or_null}
use trunnion.Ledger.{or_fault}
use trunnion.Ledger.Actors.{or_empty}
use trunnion.Policy.Ladder.{
  Rung, Effect, Gate, pre, post, open_gate, Action, allow, deny, hold, rung_name, effect_name, down,
}
use trunnion.Policy.Document.{action_name}
use trunnion.Policy.Decide.{CallRequest, Decision, decide_with_earned, review}
use trunnion.Policy.Rules.{Capability, Policy}
use trunnion.Secrets.{Substitution, value_of, contains, handles_in, substitute}
use trunnion.Trust.{from_policy, replay}
use trunnion.Broker.{Site, Output, Run, record_event, emit_result, call_hash}
use trunnion.Broker.Grant.{usable_grant}

pub record ExecResult (V : Type 0) : Type 0 where
  pub content : Text
  pub payload : V

pub record BrokerResult : Type 0 where
  pub content : Text
  pub taint : Bool
  pub event_id : Text

gate_name : Gate → Text
gate_name pre = codes "pre"
gate_name post = codes "post"
gate_name open_gate = codes "none"

-- `policy.capabilities.iter().find(|c| c.id == id)`, where the decision names a capability.
unfoldable pub capability_of : List Capability → Option Text → Option Capability
unfolding str_eq
capability_of capabilities none = none
capability_of capabilities (some id) = find (λ c. str_eq c.id id) capabilities

unfoldable pub credentials_of : Option Capability → List Text
credentials_of none = []
credentials_of (some c) = c.credentials

abbrev is_deny : Action → Bool
is_deny deny = true
is_deny _ = false

outside_grant : Text → Text
outside_grant cap =
    codes "capability "
    ++ (cap
        ++ (codes
              " is outside this sub-agent's delegated grant. Run the step under a parent that holds "
            ++ (cap
                ++ (codes ", or add " ++ (cap ++ codes " to the skill scope and re-delegate.")))))

unfoldable pub is_review : Option Text → Bool
unfolding str_eq
is_review none = false
is_review (some obligation) = str_eq obligation review

module _ {V : Type 0} where
  abbrev delegation_denial : Text → Decision V → Decision V
  delegation_denial cap decision = record decision {
    verdict = deny;
    rule = codes "r-delegation";
    gate = none;
    obligation = none;
    message = some (outside_grant cap);
  }

  -- The delegated grant's own denial.
  unfoldable pub narrowed_to : List Text → Option Text → Decision V → Decision V
  unfolding outside_grant str_eq
  narrowed_to granted none decision = decision
  narrowed_to granted (some cap) decision =
      if not (is_deny decision.verdict) && not (contains granted cap)
      then delegation_denial cap decision
      else decision

  unfoldable pub narrowed : Option (List Text) → Decision V → Decision V
  unfolding narrowed_to
  narrowed none decision = decision
  narrowed (some granted) decision = narrowed_to granted decision.capability decision

module _ (j : Json) (d : Digest) (keys : Keys) (site : Site j) where
  abbrev named : {A : Type 0} → (A → Text) → Option A → j.Value
  named name none = j.null
  named name (some a) = j.str (name a)

  -- The decision as serde writes it, with the two keys that are inserted.
  unfoldable pub decision_subject : Decision j.Value → Text → Text → j.Value
  unfolding action_name rung_name effect_name gate_name
  decision_subject decision request_id hash = j.object (
      (codes "verdict", j.str (action_name decision.verdict))
      ∷ (codes "capability", text_or_null j d decision.capability)
      ∷ (codes "rule", j.str decision.rule)
      ∷ (codes "rung", named rung_name decision.rung)
      ∷ (codes "effect", named effect_name decision.effect)
      ∷ (codes "gate", named gate_name decision.gate)
      ∷ (codes "obligation", text_or_null j d decision.obligation)
      ∷ (codes "request", decision.request)
      ∷ (codes "identity", decision.identity)
      ∷ (codes "message", text_or_null j d decision.message)
      ∷ (codes "request_id", j.str request_id)
      ∷ (codes "call_hash", j.str hash)
      ∷ [])

  unfoldable pub builtin_args : Text → Text → j.Value
  unfolding str_eq
  builtin_args tool target =
      if str_eq tool (codes "Read")
      then j.object ((codes "path", j.str target) ∷ [])
      else if str_eq tool (codes "Bash")
      then j.object ((codes "command", j.str target) ∷ [])
      else j.object ((codes "target", j.str target) ∷ [])

  with_world :
      {A : Type 0} → Run j d keys site → site.World × Result A → Run j d keys site × Result A
  with_world run (world, result) = (record run { world = world }, result)

  abbrev read_result : site.World × Result Text → site.World × Result (ExecResult j.Value)
  read_result (world, err fault) = (world, err fault)
  read_result (world, ok content) = (
    world,
    ok (record { content = content; payload = j.object ((codes "content", j.str content) ∷ []) }),
  )

  abbrev shell_result :
      site.World × Result (Output j.Value) → site.World × Result (ExecResult j.Value)
  shell_result (world, err fault) = (world, err fault)
  shell_result (world, ok out) = (
    world,
    ok (record {
      content = out.stdout;
      payload = j.object (
          (codes "stdout", j.str out.stdout)
          ∷ (codes "stderr", j.str out.stderr)
          ∷ (codes "exit_code", out.exit_code)
          ∷ []);
    }),
  )

  unfoldable pub execute : Text → Text → Substitution → Trial site.World (ExecResult j.Value)
  unfolding str_eq
  execute tool target substitution world =
      if str_eq tool (codes "Read")
      then read_result (site.read_to_string target world)
      else if str_eq tool (codes "Bash")
      then shell_result (site.sandboxed substitution.command substitution.env world)
      else (world, err (no_executor tool))

  -- What follows the execution, after the milliseconds it took.
  finish :
      Text → Text → Text → ℕ → Result (ExecResult j.Value) → Trial (Run j d keys site) BrokerResult
  unfolding subject_hash emit_result
  finish request_id tool target duration_ms (err fault) = do
    _ ←
        emit_result j d keys site request_id (codes "blocked") none false duration_ms
          (some (site.fault_text fault))
    give (err (call_failed tool target fault))
  finish request_id tool target duration_ms (ok result) = do
    result_hash ← give (subject_hash j d result.payload)
    event_id ←
        emit_result j d keys site request_id (codes "ok") (some result_hash) true duration_ms none
    give (ok (record { content = result.content; taint = true; event_id = event_id }))

  unfoldable pub run_in_world :
      Text
      → Text
      → Text
      → Run j d keys site
      → site.World × Result (ExecResult j.Value)
      → Run j d keys site × Result BrokerResult
  unfolding finish
  run_in_world request_id tool target run (world, outcome) =
      finish request_id tool target (site.elapsed_ms run.world world) outcome
        (record run { world = world })

  unfoldable pub execute_with :
      Text → Text → Text → Result Substitution → Trial (Run j d keys site) BrokerResult
  unfolding emit_result execute run_in_world
  execute_with request_id tool target (err fault) = do
    _ ←
        emit_result j d keys site request_id (codes "denied") none false 0
          (some (site.fault_text fault))
    give (err (credential_refused tool fault))
  execute_with request_id tool target (ok substitution) =
      λ run. run_in_world request_id tool target run (execute tool target substitution run.world)

  unfoldable pub execute_allowed :
      Decision j.Value → Text → Text → Text → Trial (Run j d keys site) BrokerResult
  unfolding substitute capability_of credentials_of execute_with
  execute_allowed decision request_id tool target run =
      execute_with request_id tool target
        (substitute site.upper run.credentials target
          (credentials_of (capability_of run.policy.capabilities decision.capability)))
        run

  abbrev pub has_trigger : List Text → Bool
  has_trigger triggers = contains triggers (codes "policy.deny")

  change_subject : Text → Rung → Rung → Text → j.Value
  unfolding rung_name
  change_subject cap_id from to rule = j.object (
      (codes "capability", j.str cap_id)
      ∷ (codes "from", j.str (rung_name from))
      ∷ (codes "to", j.str (rung_name to))
      ∷ (codes "trigger", j.str (codes "demotion"))
      ∷ (codes "approver", j.null)
      ∷ (codes "cause", j.str rule)
      ∷ [])

  unfoldable pub demote_from :
      Text → Text → Rung → Option Rung → Trial (Run j d keys site) (Unit {0})
  unfolding change_subject record_event
  demote_from cap_id rule from none = give done
  demote_from cap_id rule from (some to) = do
    _ ← record_event j d keys site (codes "rung.change") (change_subject cap_id from to rule)
    give done

  unfoldable pub demote_capability :
      List j.Value → Text → Text → Option Capability → Trial (Run j d keys site) (Unit {0})
  unfolding replay down demote_from
  demote_capability history cap_id rule none = give done
  demote_capability history cap_id rule (some c) =
      let from = (replay j history cap_id c.rung).rung in demote_from cap_id rule from (down from)

  unfoldable pub demote_named :
      List j.Value → Option Text → Text → Trial (Run j d keys site) (Unit {0})
  unfolding capability_of demote_capability
  demote_named history none rule = give done
  demote_named history (some cap_id) rule = λ run.
      demote_capability history cap_id rule (capability_of run.policy.capabilities (some cap_id))
        run

  unfoldable pub demote_on_denial :
      List j.Value → Option Text → Text → Trial (Run j d keys site) (Unit {0})
  unfolding from_policy demote_named str_eq
  demote_on_denial history capability rule = λ run.
      if has_trigger (from_policy j run.policy.trust_budget).demotion_triggers
      then demote_named history capability rule run
      else give done run

  -- A call that has been requested and decided.
  pub record Pending : Type 0 where
    pub tool : Text
    pub target : Text
    pub request_id : Text
    pub hash : Text
    pub history : List j.Value
    pub decision : Decision j.Value

  unfoldable pub refuse : Pending → Trial (Run j d keys site) BrokerResult
  unfolding demote_on_denial emit_result
  refuse p = do
    _ ← demote_on_denial p.history p.decision.capability p.decision.rule
    _ ← emit_result j d keys site p.request_id (codes "denied") none false 0 p.decision.message
    give (err (call_denied p.tool p.target p.decision.rule p.decision.message))

  unfoldable pub use_subject : Pending → j.Value → j.Value → j.Value
  use_subject p identity g =
      let approver = j.str (or_empty (j.as_str (j.field g (codes "approver")))) in
      j.object (
        (codes "grant_id", j.field g (codes "grant_id"))
        ∷ (codes "call_hash", j.str p.hash)
        ∷ (codes "request_id", j.str p.request_id)
        ∷ (codes "rule", j.str p.decision.rule)
        ∷ (codes "approver", approver)
        ∷ (codes "self_approved", j.bool (j.equal (j.field identity (codes "id")) approver))
        ∷ [])

  unfoldable pub release : Pending → Option j.Value → Trial (Run j d keys site) BrokerResult
  unfolding use_subject record_event execute_allowed emit_result
  release p none = do
    _ ← emit_result j d keys site p.request_id (codes "blocked") none false 0 p.decision.message
    give (err (call_held p.tool p.target p.decision.rule p.request_id p.decision.message))
  release p (some g) = do
    _ ← λ run. record_event j d keys site (codes "approval.use") (use_subject p run.identity g) run
    execute_allowed p.decision p.request_id p.tool p.target

  note_review : Option Text → Run j d keys site → Run j d keys site
  unfolding is_review
  note_review obligation run =
      if is_review obligation
      then record run { outstanding_reviews = run.outstanding_reviews + 1 }
      else run

  unfoldable pub carry_out : Pending → Action → Trial (Run j d keys site) BrokerResult
  unfolding refuse release usable_grant note_review execute_allowed
  carry_out p deny = refuse p
  carry_out p hold =
      λ run. release p (usable_grant j run.policy p.history p.hash p.decision.rule) run
  carry_out p allow = do
    _ ← update (note_review p.decision.obligation)
    execute_allowed p.decision p.request_id p.tool p.target

  pub request_subject : Run j d keys site → Text → Text → Text → Text → Text → Text → j.Value
  unfolding builtin_args handles_in
  request_subject run request_id hash tool schema_version target egress_hash = j.object (
      (codes "request_id", j.str request_id)
      ∷ (codes "call_hash", j.str hash)
      ∷ (codes "tool", j.str tool)
      ∷ (codes "schema_version", j.str schema_version)
      ∷ (codes "args", builtin_args tool target)
      ∷ (codes "sandbox", j.str site.sandbox_kind)
      ∷ (codes "egress_allowlist_hash", j.str egress_hash)
      ∷ (codes "credential_handles", j.array (map j.str (handles_in site.upper target)))
      ∷ [])

  -- The decision on a call, by the rungs that the history earned.
  unfoldable pub decide_call :
      Run j d keys site → List j.Value → Text → Text → Result (Decision j.Value)
  unfolding decide_with_earned narrowed builtin_args replay
  decide_call run history tool target =
      elim (decide_with_earned j d run.policy run.identity
        (record { tool = tool; target = target; args = builtin_args tool target })
        (λ cap_id declared. (replay j history cap_id declared).rung)) [
          | err fault ↦ err fault
          | ok decision ↦ ok (narrowed run.grant decision)
        ]

  unfoldable pub decided : Text → Text → Text → Text → Trial (Run j d keys site) BrokerResult
  unfolding decide_call decision_subject record_event carry_out
  decided request_id hash tool target = do
    history ← λ run. (run, site.book.history run.core.ledger)
    decision ← λ run. (run, decide_call run history tool target)
    _ ←
        record_event j d keys site (codes "policy.decision")
          (decision_subject decision request_id hash)
    carry_out
        (record {
          tool = tool;
          target = target;
          request_id = request_id;
          hash = hash;
          history = history;
          decision = decision;
        })
        decision.verdict

  unfoldable pub request_id_of : Run j d keys site → Text
  unfolding decimal
  request_id_of run = run.core.run_id ++ (codes "-req-" ++ decimal run.core.next_seq)

  -- `BrokerRun::call`.
  unfoldable pub call : Text → Text → Trial (Run j d keys site) BrokerResult
  unfolding value_of subject_hash call_hash request_subject request_id_of decided builtin_args
  call tool target run =
      (do
        schema_version ← give (or_fault (value_of run.registered tool) (tool_not_registered tool))
        egress_hash ← give (
            subject_hash j d
              (j.field (j.field run.policy.profile_requirements (codes "egress")) (codes "allow")))
        hash ← give (call_hash j d keys site tool (builtin_args tool target))
        _ ←
            record_event j d keys site (codes "tool.request")
              (request_subject run (request_id_of run) hash tool schema_version target egress_hash)
        decided (request_id_of run) hash tool target)
        run
