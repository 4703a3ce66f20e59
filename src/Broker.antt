-- ===== src/Broker.antt =====
-- src/broker.rs: the run of the tool broker (`BrokerRun`), what it puts on the ledger, and its seal. The
-- ledger is the interface of the runs; the file system, the sandbox and the clock are the site's.
pub mod Registry
pub mod Grant
pub mod Call
pub mod Steps
pub mod Open
use trunnion.Prelude.{
  ℕ, zero, suc, ltb, Bool, true, false, ◌&&◌, Text, codes, str_eq, map, Option, none, some, List,
  [], ◌∷◌, if◌then◌else◌,
}
use trunnion.Fault.{Fault, Result, ok, err}
use trunnion.Trial.{Trial, ◌>>=◌, ◌>>◌, update}
use trunnion.Json.{Json, Digest}
use trunnion.Keys.{Keys}
use trunnion.Event.{subject_hash, text_or_null}
use trunnion.Ledger.{SignedHead}
use trunnion.Policy.Rules.{Policy}
use trunnion.Runlog.{Book, Core, append, seal}

pub record Output (V : Type 0) : Type 0 where
  pub stdout : Text
  pub stderr : Text
  pub exit_code : V

-- What a broker stands on: a ledger, a clock, the upper case of Unicode, the text of a fault, and a machine
-- whose files it reads and in whose sandbox it runs commands.
pub record Site (j : Json) : Type 1 where
  pub book : Book j
  pub clock : ℕ → Text
  pub upper : Text → Text
  pub fault_text : Fault → Text
  pub World : Type 0
  pub sandbox_kind : Text
  pub read_to_string : Text → Trial World Text
  pub sandboxed : Text → List (Text × Text) → Trial World (Output j.Value)
  pub elapsed_ms : World → World → ℕ

-- `registered` holds the schema hash of each tool; of two for one tool the first counts. `credentials` holds
-- the values of the handles, and `cost_total_usd` is a number as JSON has it.
pub record BrokerRun (Core V World : Type 0) : Type 0 where
  pub core : Core
  pub policy : Policy V
  pub registered : List (Text × Text)
  pub identity : V
  pub outstanding_reviews : ℕ
  pub credentials : List (Text × Text)
  pub cost_total_usd : V
  pub grant : Option (List Text)
  pub world : World

-- The outcome that `BrokerRun::seal` writes.
unfoldable pub seal_outcome : ℕ → Text → Text
unfolding str_eq
seal_outcome outstanding outcome =
    if ltb 0 outstanding && str_eq outcome (codes "complete")
    then codes "complete-with-outstanding-review"
    else outcome

module _ (j : Json) (d : Digest) (keys : Keys) (site : Site j) where
  abbrev pub Run : Type 0
  Run = BrokerRun (Core j d keys site.book site.clock) j.Value site.World

  abbrev pub with_core :
      {A : Type 0} → Run → Core j d keys site.book site.clock × Result A → Run × Result A
  with_core run (core, result) = (record run { core = core }, result)

  unfoldable pub record_event : Text → j.Value → Trial Run Text
  unfolding append
  record_event kind subject run =
      with_core run (append j d keys site.book site.clock kind subject run.core)

  abbrev pub result_subject : Text → Text → Option Text → Bool → ℕ → Option Text → j.Value
  result_subject request_id outcome result_hash taint duration_ms message = j.object (
      (codes "request_id", j.str request_id)
      ∷ (codes "outcome", j.str outcome)
      ∷ (codes "result_hash", text_or_null j d result_hash)
      ∷ (codes "taint", j.bool taint)
      ∷ (codes "duration_ms", j.number duration_ms)
      ∷ (codes "message", text_or_null j d message)
      ∷ [])

  unfoldable pub emit_result : Text → Text → Option Text → Bool → ℕ → Option Text → Trial Run Text
  unfolding record_event
  emit_result request_id outcome result_hash taint duration_ms message =
      record_event (codes "tool.result")
        (result_subject request_id outcome result_hash taint duration_ms message)

  unfoldable pub finding : j.Value → Trial Run Text
  unfolding record_event
  finding subject = record_event (codes "audit.finding") subject

  -- `BrokerRun::delegate_scope`.
  unfoldable pub delegate_scope : Text → Text → List Text → Trial Run (Unit {0})
  unfolding record_event
  delegate_scope skill_id skill_version granted = do
    _ ← record_event (codes "subagent.spawn") (
        j.object (
          (codes "skill", j.str skill_id)
          ∷ (codes "version", j.str skill_version)
          ∷ (codes "granted", j.array (map j.str granted))
          ∷ []))
    update (λ (run : Run). record run { grant = some granted })

  unfoldable pub call_hash : Text → j.Value → Result Text
  unfolding subject_hash
  call_hash tool args =
      subject_hash j d (j.object ((codes "tool", j.str tool) ∷ (codes "args", args) ∷ []))

  unfoldable pub seal_run : Text → Trial Run SignedHead
  unfolding seal seal_outcome
  seal_run outcome run = with_core run (
      seal j d keys site.book site.clock
        (j.object (
          (codes "outstanding_reviews", j.number run.outstanding_reviews)
          ∷ (codes "cost_total_usd", run.cost_total_usd)
          ∷ []))
        (seal_outcome run.outstanding_reviews outcome) run.core)
