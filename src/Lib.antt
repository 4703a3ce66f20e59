-- ===== src/Lib.antt =====
-- Trunnion runs an agent's tool calls under a policy and keeps a signed record of what they did. The
-- parts modelled here:
--
-- * The policy engine, src/policy.rs, in Policy and its children. Policy/Ladder has the effects, the
--   rungs, and the table `gate` that says for each pair whether a call is gated; Policy/Glob has
--   `glob_matches`, `parse_tool_pattern` and `tool_pattern_matches`, over the bytes of UTF-8 texts as
--   in the source; Policy/Rules has the document and the load-time checks `validate` and `covers`;
--   Policy/Document has `version` and `load`, whose file and parser are parameters;
--   Policy/Decide has `decide_with_earned`, the one decision on each call; Policy/HostParity has
--   `host_parity`, which replays the host's deny list; Policy/Availability has
--   `availability_check`, with the backend property of src/sandbox.rs that it uses.
-- * The Merkle tree, src/merkle.rs, in Merkle and its children: `root`, `inclusion_proof`,
--   `consistency_proof` and the two verifiers, which an auditor runs with no trust in the ledger.
-- * The ledger, src/ledger.rs: in Ledger and Ledger/Offline the signed heads, the bundles and their
--   check by a party that has a bundle and the public key alone (`verify_bundle`,
--   `verify_consistency_hex`); in Ledger/Producer `append`, `prove`, `head_at`, `consistency` and
--   `events_with_subjects`,
--   and in Ledger/Producer/Expiry `expire`. An append is a sequence of changes that stops where one
--   fails, as in the source. Ledger/Verify has the check of a whole directory,
--   `verify_with_actor_keys_and_published`: the reads of its files, and what serde makes of their
--   lines, come in with the directory; Ledger/Actors has the keys of the actors, with `key_id_for`
--   and `parse_vk` of src/skills.rs, and Ledger/Gaps `seq_gaps`. The panic of `size - 1` at a head of
--   size 0 is the fault `no_suspect`.
-- * The runs, src/runlog.rs, in Runlog: `RunCore` with its `append` and `seal`, over the interface
--   `Book` of a ledger, and `ActorSigner::declared`, the key that a profile declares. The book of
--   the program's own ledger is `ledger_book` (Runlog/Recorded), whose history is
--   `events_with_subjects`. A payload that has expired shows as null in every event that names it, and
--   an append of the same payload shows it there again, so what is said of a history supposes that
--   its payloads are there, or that the event in question shows. Runlog/Traces has the appends
--   of a run one after another, which say what was written with no word on the history.
-- * The tool broker, src/broker.rs, in Broker and its children: Broker/Registry has
--   `validate_tool_def` and `register`, Broker/Grant `usable_grant`, and Broker/Call `call`, the one
--   way of a tool call: the request, the policy's decision at the rungs that the history earned, the
--   delegated grant, the demotion on a denial, the approval of a held call, the credentials, the
--   execution and the result. Broker/Open has `open` and `model_call`. `Site` holds what it stands
--   on: a ledger, the clock, the file system and the sandbox, whose world is a state that each
--   execution may change.
-- * The durable tasks, src/durable.rs, in Durable: `checkpoint_step`, `last_checkpoint` and `resume`.
--   The authority of a run comes in as the outcome of `Pinning::authority`.
-- * The gateway, src/gateway.rs, in Gateway: `Pinning::authority`, `GatewayRun::open`, and `call_on`,
--   the one way of a model call, over the parameter `Net` for the network and the environment. Costs
--   are numbers as JSON has them, and their arithmetic in floating point is a parameter.
-- * The trust ladder, src/trust.rs, in Trust and its children: `TrustBudget::from_policy`,
--   `TrustState::replay`, which derives a capability's rung from the record, and
--   `Orchestrator::step`, which runs a sensor and promotes or demotes (Trust/Orchestrator). The run
--   and the ledger beneath it are the interface Trust/Log: an append and the history. Reading the
--   artifact and evaluating the sensor come in as their outcome. A step that fails keeps what it has
--   written, as in the source.
-- * The scorer, src/scorer.rs, in Scorer and its children: `Scoring::score` and `pred_matches`, over
--   the events with their payloads and over rules that are data.
-- * The credential broker, src/secrets.rs, in Secrets: `substitute` and `handles_in`, with
--   `to_uppercase` as a parameter. The loops recur on fuel, one more than the length of the command;
--   fuel that runs out is the fault `out_of_fuel`, which is none of the source's, and Secrets/Fuel is
--   about that.
-- * The drift walk, src/drift.rs, in Drift: `report`, `walk` and `tally`, with `file_hash` of
--   src/gateway.rs. A cause and its fix are one constructor of `Reason`.
-- * The corpus index, src/graph.rs, in Graph: `symbols_in`, `build`, `query`, `stale_nodes` and
--   `flat_query`. A set of texts is a list in the order of its bytes.
-- * The envelope, its canonical bytes and the hash of a payload, src/event.rs, in Event.
--
-- Prelude has the shared names and lemmas; Fault has the one error type of src/lib.rs, a constructor
-- for each message with the values that it quotes; Trial has the steps that change an object and may
-- fail. Code that is not in the repository is a parameter: Json.Json for serde_json and serde_jcs,
-- Json.Digest for SHA-256 and hexadecimal, Keys.Keys for ed25519, and the outcomes of file operations.
-- No theorem assumes that SHA-256 has no collisions: where one matters, it is an outcome.
--
-- Numbers are natural numbers. `split_point` doubles a usize, which holds every product for sizes up
-- to 2 ^ 63: `split_point_u64` is the same loop with the wrap of 64 bits, and Merkle/Split compares the
-- two. The sum of a reply's token counts wraps at 2 ^ 64, as in a release build. The loop of `split_point`, `root`, `inclusion_proof` and `subproof` recur on fuel, the size or the number
-- of leaves, which every round lowers. The verifiers read a proof from its end, so they recur on the
-- reversed proof.
--
-- The counters of a run, its next number and the outstanding reviews, stay far below 2 ^ 64 and are
-- natural numbers; `decimal` writes a number on fuel, the number itself.
--
-- Not modelled: of the ledger, its opening and its anchors; `Orchestrator::open`, `seal` and
-- `narrate`; `seam` of src/durable.rs, which prints what a ledger shows; the sensors and the other
-- modules; the command line, the console and the sandbox, which are mostly calls of the operating
-- system.
pub mod Prelude
pub mod Fault
pub mod Trial
pub mod Json
pub mod Keys
pub mod Event
pub mod Policy
pub mod Merkle
pub mod Ledger
pub mod Trust
pub mod Scorer
pub mod Secrets
pub mod Runlog
pub mod Broker
pub mod Durable
pub mod Drift
pub mod Gateway
pub mod Graph
pub mod Tests
