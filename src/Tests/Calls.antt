-- ===== src/Tests/Calls.antt =====
-- Calls through src/broker.rs, on a ledger that is a list and a machine that keeps the list of its commands.
use trunnion.Prelude.{
  Bool, true, false, Text, codes, Option, none, some, List, [], ◌∷◌, ◌++◌, ◌≡◌, refl,
}
use trunnion.Fault.{
  Result, ok, err, tool_not_registered, call_denied, call_held, tool_undeclared, registry_rejected,
}
use trunnion.Policy.Ladder.{read, assisted, allow, hold}
use trunnion.Policy.Rules.{Capability, Rule, Policy}
use trunnion.Policy.Decide.{Decision}
use trunnion.Secrets.{contains}
use trunnion.Broker.{Site, Run, call_hash, seal_outcome}
use trunnion.Broker.Registry.{ToolDef, builtin_tools, register, register_builtins}
use trunnion.Broker.Registry.Closed.{AllClosed, register-AllClosed}
use trunnion.Broker.Call.{
  BrokerResult, Pending, use_subject, decide_call, release, call, builtin_args,
}
use trunnion.Broker.Call.Guarded.{Held, call-Held}
use trunnion.Broker.Call.Story.{Recorded, call-Recorded}
use trunnion.Broker.Call.Delegated.{decide_call-contains}
use trunnion.Tests.Sample.{
  Tree, nothing, text, key, keys, number, event_of, toy, sample_json, sample_json-IsLawful,
}
use trunnion.Tests.Bundles.{toy_keys}
use trunnion.Tests.Documents.{policy_of, write_notes, deploy, allow_deploy, deny_rest}
use trunnion.Tests.Runs.{list_book, still_clock, fresh_core}

abbrev pub toy_site : Site sample_json
toy_site = record {
  book = list_book;
  clock = still_clock;
  upper = λ t. t;
  fault_text = λ _. codes "fault";
  World = List Text;
  sandbox_kind = codes "seatbelt";
  read_to_string = λ path commands. (commands ++ path ∷ [], ok (codes "notes"));
  sandboxed = λ command env commands. (
    commands ++ command ∷ [],
    ok (record { stdout = codes "done"; stderr = []; exit_code = number 0 }),
  );
  elapsed_ms = λ _ _. 1;
}

abbrev read_notes : Capability
read_notes = record {
  id = codes "notes.read";
  tools = codes "Read(notes/**)" ∷ [];
  effect = read;
  rung = assisted;
  credentials = [];
  rollback = none;
  sensors = [];
}

abbrev allow_read : Rule
allow_read = record {
  id = codes "r-read";
  matcher = record { capability = some (codes "notes.read"); target_in = none };
  when = none;
  action = allow;
  message = none;
}

abbrev call_policy : Policy Tree
call_policy = record (policy_of (allow_read ∷ allow_deploy ∷ deny_rest ∷ [])) {
  capabilities = read_notes ∷ write_notes ∷ deploy ∷ [];
}

abbrev ToyRun : Type 0
ToyRun = Run sample_json toy toy_keys toy_site

abbrev pub opened : ToyRun
opened = record {
  core = fresh_core;
  policy = call_policy;
  registered = [];
  identity = key (codes "id") (text (codes "ana")) nothing;
  outstanding_reviews = 0;
  credentials = [];
  cost_total_usd = number 0;
  grant = none;
  world = [];
}

abbrev ready : ToyRun
ready = (register_builtins sample_json toy toy_keys toy_site opened).0

abbrev run_call : Text → Text → ToyRun → ToyRun × Result BrokerResult
run_call = call sample_json toy toy_keys toy_site

abbrev outcome : {A : Type 0} → ToyRun × Result A → List Text × Result A
outcome (run, result) = (run.world, result)

abbrev first_tool : List (ToolDef Tree) → ToolDef Tree
first_tool [] = record { name = []; description = []; input_schema = nothing }
first_tool (def ∷ defs) = def

abbrev read_tool : ToolDef Tree
unfolding builtin_tools
read_tool = first_tool (builtin_tools sample_json)

abbrev is_hold : Result BrokerResult → Bool
is_hold (err (call_held tool target rule request_id message)) = true
is_hold _ = false

abbrev hold_outcome : ToyRun × Result BrokerResult → List Text × Bool
hold_outcome (run, result) = (run.world, is_hold result)

abbrev denial_rule : Result BrokerResult → Option Text
denial_rule (err (call_denied tool target rule message)) = some rule
denial_rule _ = none

abbrev denial : ToyRun × Result BrokerResult → List Text × Option Text
denial (run, result) = (run.world, denial_rule result)

-- Tests.
registers : (register_builtins sample_json toy toy_keys toy_site opened).1 ≡ ok tt
unfolding register_builtins
registers = refl

read_allowed : outcome (run_call (codes "Read") (codes "notes/a") ready) ≡ (
  codes "notes/a" ∷ [],
  ok (record { content = codes "notes"; taint = true; event_id = codes "run-7-4" }),
)
unfolding call register_builtins
read_allowed = refl

deploy_held : hold_outcome (run_call (codes "Bash") (codes "deploy") ready) ≡ ([], true)
unfolding call register_builtins
deploy_held = refl

other_denied : denial (run_call (codes "Bash") (codes "rm") ready) ≡ ([], some (codes "r-default"))
unfolding call register_builtins
other_denied = refl

unregistered :
    outcome (run_call (codes "Read") (codes "notes/a") opened)
    ≡ ([], err (tool_not_registered (codes "Read")))
unfolding call
unregistered = refl

-- An approval of the deployment, and the run whose ledger begins with it.
abbrev or_blank : Result Text → Text
or_blank (err fault) = []
or_blank (ok t) = t

abbrev deploy_hash : Text
unfolding call_hash builtin_args
deploy_hash = or_blank (
    call_hash sample_json toy toy_keys toy_site (codes "Bash")
      (builtin_args sample_json toy toy_keys toy_site (codes "Bash") (codes "deploy")))

abbrev grant : Tree
grant = keys (
    (codes "grant_id", text (codes "g1"))
    ∷ (codes "call_hash", text deploy_hash)
    ∷ (codes "rule", text (codes "r-deploy"))
    ∷ (codes "verdict", text (codes "approve"))
    ∷ (codes "approver", text (codes "ana"))
    ∷ [])

abbrev approved : ToyRun
approved = record ready {
  core = record ready.core { ledger = event_of (codes "approval") grant ∷ ready.core.ledger };
}

deploy_released : outcome (run_call (codes "Bash") (codes "deploy") approved) ≡ (
  codes "deploy" ∷ [],
  ok (record { content = codes "done"; taint = true; event_id = codes "run-7-5" }),
)
unfolding call register_builtins
deploy_released = refl

-- The same call again.
deploy_held_again :
    hold_outcome (
      run_call
        (codes "Bash")
        (codes "deploy")
        (run_call (codes "Bash") (codes "deploy") approved).0)
    ≡ (codes "deploy" ∷ [], true)
unfolding call register_builtins
deploy_held_again = refl

outside_the_grant :
    denial (
      run_call
        (codes "Read")
        (codes "notes/a")
        (record ready { grant = some (codes "notes" ∷ []) }))
    ≡ ([], some (codes "r-delegation"))
unfolding call register_builtins
outside_the_grant = refl

rejects_undeclared :
    (register sample_json toy toy_keys toy_site
      (record {
        name = codes "Fetch";
        description = codes "Fetch a page";
        input_schema = read_tool.input_schema;
      })
      opened).1
    ≡ err (registry_rejected (codes "Fetch") (tool_undeclared (codes "Fetch")))
unfolding register builtin_tools
rejects_undeclared = refl

clean_with_reviews : seal_outcome 2 (codes "complete") ≡ codes "complete-with-outstanding-review"
unfolding seal_outcome
clean_with_reviews = refl

call-Held_example :
    Held sample_json toy toy_keys toy_site approved
      (codes "Bash")
      (codes "deploy")
      (run_call (codes "Bash") (codes "deploy") approved)
call-Held_example =
    call-Held sample_json toy toy_keys toy_site (codes "Bash") (codes "deploy") approved

call-Recorded_example :
    Recorded sample_json toy toy_keys toy_site
      (codes "Bash")
      (codes "deploy")
      approved
      (run_call (codes "Bash") (codes "deploy") approved)
call-Recorded_example =
    call-Recorded sample_json toy toy_keys toy_site (codes "Bash") (codes "deploy") approved

abbrev deploy_decision : Decision Tree
deploy_decision = record {
  verdict = hold;
  capability = some (codes "deploy");
  rule = codes "r-deploy";
  rung = some assisted;
  effect = none;
  gate = none;
  obligation = none;
  request = nothing;
  identity = nothing;
  message = none;
}

abbrev pending : Pending sample_json toy toy_keys toy_site
pending = record {
  tool = codes "Bash";
  target = codes "deploy";
  request_id = codes "run-7-req-2";
  hash = deploy_hash;
  history = approved.core.ledger;
  decision = deploy_decision;
}

abbrev released : ToyRun
released = (release sample_json toy toy_keys toy_site pending (some grant) approved).0

-- The use of the first grant, and then an approval with another id.
abbrev use_event : Tree
use_event =
    event_of (codes "approval.use")
      (use_subject sample_json toy toy_keys toy_site pending approved.identity grant)

abbrev second_grant : Tree
second_grant = keys (
    (codes "grant_id", text (codes "g2"))
    ∷ (codes "call_hash", text deploy_hash)
    ∷ (codes "rule", text (codes "r-deploy"))
    ∷ (codes "verdict", text (codes "approve"))
    ∷ (codes "approver", text (codes "ana"))
    ∷ [])

abbrev approved_again : List Tree
approved_again = event_of (codes "approval") second_grant ∷ []

abbrev narrow_run : ToyRun
narrow_run = record ready { grant = some (codes "notes.read" ∷ []) }

abbrev or_denial : Result (Decision Tree) → Decision Tree
or_denial (err fault) = deploy_decision
or_denial (ok decision) = decision

abbrev read_decision : Decision Tree
unfolding decide_call
read_decision =
    or_denial
      (decide_call sample_json toy toy_keys toy_site narrow_run [] (codes "Read") (codes "notes/a"))

decides_read :
    decide_call sample_json toy toy_keys toy_site narrow_run [] (codes "Read") (codes "notes/a")
    ≡ ok read_decision
unfolding decide_call register_builtins
decides_read = refl

decide_call-contains_example :
    (cap : Text) × (read_decision.capability ≡ some cap)
    × (contains (codes "notes.read" ∷ []) cap ≡ true)
unfolding decide_call register_builtins
decide_call-contains_example =
    decide_call-contains sample_json toy toy_keys toy_site narrow_run [] (codes "Read")
      (codes "notes/a") (codes "notes.read" ∷ []) read_decision refl decides_read (λ e. cc)

register-AllClosed_example :
    AllClosed sample_json sample_json-IsLawful toy toy_keys toy_site
      (register sample_json toy toy_keys toy_site read_tool opened).0
register-AllClosed_example =
    register-AllClosed sample_json sample_json-IsLawful toy toy_keys toy_site read_tool opened tt
