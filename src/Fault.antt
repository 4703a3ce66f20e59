-- ===== src/Fault.antt =====
-- src/lib.rs: `Fault`, the one error type of the program, and results that carry it. The source's
-- two texts, the cause and the fix, are fixed but for the values that they quote, so a fault is one
-- constructor for each message with the values quoted in it.
use trunnion.Prelude.{ℕ, Text, Option, List, ◌≡◌, refl, ◌⊎◌, inl, inr}

pub data Fault : Type 0 where
  -- event.rs
  not_canonical : Fault
  -- policy.rs
  policy_unreadable policy_malformed : Fault
  version_mismatch : (written computed : Text) → Fault
  post_without_rollback : (capability : Text) → Fault
  undeclared_capability : (rule capability : Text) → Fault
  mute_rule : (rule : Text) → Fault
  unreachable_rule : (later earlier : Text) → Fault
  unknown_stance : (stance : Text) → Fault
  requirements_unavailable : (profile : Text) (fields : List Text) → Fault
  settings_not_json : Fault
  host_entry_allowed : (entry target rule : Text) → Fault
  -- secrets.rs
  -- no fault of the source: what a loop on fuel gives where the fuel runs out
  out_of_fuel : Fault
  handle_unterminated : (command : Text) → Fault
  handle_not_granted handle_without_value : (name : Text) → Fault
  -- runlog.rs
  attestation_algorithm : (declared : Text) → Fault
  seed_source_missing : (variable : Option Text) → Fault
  seed_unreadable : (file : Text) → Fault
  seed_malformed : Fault
  key_id_differs : (claimed produced : Text) → Fault
  seed_published : (profile key_id : Text) → Fault
  -- gateway.rs
  credential_in_url : (provider : Text) → Fault
  key_unset : (provider variable : Text) → Fault
  model_call_failed : (provider cause fix : Text) → Fault
  -- graph.rs
  file_unreadable : (path : Text) → Fault
  -- durable.rs
  no_checkpoint : (task : Text) → Fault
  -- broker.rs
  policy_unversioned : Fault
  tool_undescribed tool_not_object tool_without_properties tool_open tool_undeclared :
      (tool : Text) → Fault
  property_untyped : (tool property : Text) → Fault
  registry_rejected : (tool : Text) → Fault → Fault
  tool_not_registered : (tool : Text) → Fault
  call_denied : (tool target rule : Text) (message : Option Text) → Fault
  call_held : (tool target rule request_id : Text) (message : Option Text) → Fault
  credential_refused : (tool : Text) → Fault → Fault
  call_failed : (tool target : Text) → Fault → Fault
  no_executor : (tool : Text) → Fault
  -- trust.rs
  capability_not_declared : (capability : Text) → Fault
  approver_missing : (capability : Text) → Fault
  approver_not_permitted : (approver : Text) → Fault
  -- not a fault but the panic of `expect`, in `Orchestrator::step`
  no_higher_rung : Fault
  -- ledger.rs
  bad_hash : (text : Text) → Fault
  bad_public_key : Fault
  head_signature_malformed : Fault
  head_signature_invalid : (size : ℕ) → Fault
  inclusion_fails : (index : ℕ) (id : Text) (size : ℕ) → Fault
  consistency_fails : (size new_size : ℕ) → Fault
  not_a_subject_hash : (text : Text) → Fault
  no_entry : (index size : ℕ) → Fault
  entry_not_canonical : (index : ℕ) (id : Text) → Fault
  entry_unparsed : (index : ℕ) → Fault
  chain_diverges : (index : ℕ) → Fault
  head_unparsed : (index : ℕ) → Fault
  log_truncated : (index size entries : ℕ) → Fault
  root_diverges : (size : ℕ) (recomputed signed : Text) (id : Option Text) → Fault
  -- not a fault but the panic of `size - 1` at 0, in the check of the heads
  no_suspect : Fault
  tail_uncovered : (first last : ℕ) → Fault
  attestation_forged : (index : ℕ) (id key_id : Text) → Fault
  payload_differs : (index : ℕ) (id actual written : Text) → Fault
  payload_missing : (index : ℕ) (id written : Text) → Fault
  not_an_expiry : (kind : Text) → Fault
  not_referenced : (target : Text) → Fault
  no_head : Fault
  no_head_at : (size entries : ℕ) → Fault
  no_tree : (size entries : ℕ) → Fault
  -- what the ledger's file system, or another collaborator, reports
  external : (code : ℕ) → Fault

-- `Result<A, Fault>`.
pub data Result {ℓ} (A : Type ℓ) : Type ℓ where
  err : Fault → Result A
  ok : A → Result A

-- `Ok(())`.
abbrev pub done : Result (Unit {0})
done = ok tt

-- The operator `?`: the rest of the block runs on the value of a step that ends well.
infixl 5 ◌>>=◌
abbrev pub ◌>>=◌ {ℓ κ} :
    {A : Type ℓ} {B : Type κ} (step : Result A) (rest : A → Result B) → Result B
err fault >>= rest = err fault
ok value >>= rest = rest value

infixl 5 ◌>>◌
abbrev pub ◌>>◌ {ℓ κ} : {A : Type ℓ} {B : Type κ} (step : Result A) (rest : Result B) → Result B
step >> rest = step >>= λ _. rest

-- The parts of a chain that ends well.
pub >>-eq-ok : (m n : Result (Unit {0})) → (m >> n) ≡ ok tt → (m ≡ ok tt) × (n ≡ ok tt)
>>-eq-ok (err fault) n h = cc
>>-eq-ok (ok tt) n h = (refl, h)

-- What the first step of a chain gave, where the chain ends with `b`.
abbrev pub Steps {ℓ κ} : {A : Type ℓ} {B : Type κ} → Result A → (A → Result B) → B → Type (ℓ ⊔ κ)
Steps {A = A} step rest b = (a : A) × (step ≡ ok a) × (rest a ≡ ok b)

pub >>=-eq-ok {ℓ κ} :
    {A : Type ℓ} {B : Type κ} {b : B} (step : Result A) (rest : A → Result B)
    → (step >>= rest) ≡ ok b
    → Steps step rest b
>>=-eq-ok (err fault) rest h = cc
>>=-eq-ok (ok a) rest h = (a, refl, h)

-- The step of a chain that fails: the first, or one of the rest.
pub >>=-eq-err {ℓ κ} :
    {A : Type ℓ} {B : Type κ} {fault : Fault} (step : Result A) (rest : A → Result B)
    → (step >>= rest) ≡ err fault
    → (step ≡ err fault) ⊎ ((a : A) × (step ≡ ok a) × (rest a ≡ err fault))
>>=-eq-err (err fault) rest h = inl cc
>>=-eq-err (ok a) rest h = inr (a, refl, h)
