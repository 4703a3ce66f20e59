-- ===== src/Gateway.antt =====
-- src/gateway.rs: what pins the authority of a run (`Pinning`), the gateway's run, and the model call
-- (`call_on`), whose transport is a parameter. Files are the outcomes of reading them.
pub mod Recorded
pub mod Open
use trunnion.Prelude.{
  ℕ, ◌+◌, ◌%◌, ◌^◌, Bool, true, false, ◌&&◌, ◌||◌, not, any, ◌==◌, length, reverse, map, Text,
  codes, str_eq, is_blank, trim, Option, none, some, List, [], ◌∷◌, ◌++◌, if◌then◌else◌,
}
use trunnion.Fault.{
  Fault, Result, ok, err, done, ◌>>=◌, key_unset, credential_in_url, model_call_failed,
}
use trunnion.Json.{Json, Digest}
use trunnion.Keys.{Keys}
use trunnion.Event.{text_or_null, subject_hash}
use trunnion.Ledger.{SignedHead}
use trunnion.Policy.Availability.{Shortfall, for_this_build, availability_check}
use trunnion.Drift.{file_hash}
use trunnion.Runlog.{Book, Core, Surroundings, open_core, declared, append, seal}

-- `key_env` is the name of a variable; the rates are numbers as JSON has them.
pub record Provider (V : Type 0) : Type 0 where
  pub name : Text
  pub base_url : Text
  pub model : Text
  pub key_env : Option Text
  pub window_budget : ℕ
  pub cost_in_per_mtok : V
  pub cost_out_per_mtok : V

-- The settings file is read for its hash and for its text; one outcome stands for both reads.
pub record Pinning : Type 0 where
  pub policy : Result (List ℕ)
  pub instructions : Result (List ℕ)
  pub settings : Option (Result (List ℕ))
  pub diverged : List Text
  pub permission_mode : Option Text

pub record ChatMessage : Type 0 where
  pub role : Text
  pub content : Text

pub record CallResult : Type 0 where
  pub content : Text
  pub prompt_tokens : ℕ
  pub completion_tokens : ℕ
  pub latency_ms : ℕ
  pub event_id : Text

-- The check of `load_providers`.
unfoldable pub check_providers : {V : Type 0} → List (Provider V) → Result (Unit {0})
check_providers [] = done
check_providers (p ∷ providers) = elim (any (λ c. c == b'@') p.base_url) [
  | true ↦ err (credential_in_url p.name)
  | false ↦ check_providers providers
]

abbrev or_default : Option Text → Text
or_default none = codes "default"
or_default (some mode) = mode

abbrev parsed : (j : Json) → Option (Result (List ℕ)) → j.Value
parsed j none = j.null
parsed j (some (err fault)) = j.null
parsed j (some (ok text)) = elim (j.from_str text) [ none ↦ j.null | some v ↦ v ]

unfoldable pub permission_mode_check :
    (j : Json) → Option Text → Option (Result (List ℕ)) → Text × Bool
unfolding is_blank trim str_eq
permission_mode_check j none settings = (codes "unobserved", false)
permission_mode_check j (some mode) settings =
    let stated = or_default (
      j.as_str
        (j.field (j.field (parsed j settings) (codes "permissions")) (codes "defaultMode"))) in
    if is_blank mode
    then (codes "unobserved", false)
    else (trim mode, not (str_eq (trim mode) stated))

module _ (j : Json) (d : Digest) where
  settings_hash : Option (Result (List ℕ)) → Result j.Value
  unfolding file_hash
  settings_hash none = ok j.null
  settings_hash (some bytes) = do hash ← file_hash d bytes; ok (j.str hash)

  noted : List Text → Bool → List Text
  noted diverged true = diverged ++ codes "host_permissions.permission_mode" ∷ []
  noted diverged false = diverged

  -- `Pinning::authority`.
  unfoldable pub authority : Pinning → Text → Text → Result j.Value
  unfolding settings_hash permission_mode_check noted file_hash
  authority pin profile policy_version = do
    settings ← settings_hash pin.settings
    instruction_version ← file_hash d pin.instructions
    let (mode, diverged) = permission_mode_check j pin.permission_mode pin.settings in
        ok (
          j.object (
            (codes "profile", j.str profile)
            ∷ (codes "policy_version", j.str policy_version)
            ∷ (codes "instruction_version", j.str instruction_version)
            ∷ (codes "settings_hash", settings)
            ∷ (codes "permission_mode", j.str mode)
            ∷ (codes "diverged", j.array (map j.str (noted pin.diverged diverged)))
            ∷ []))

  abbrev pub shortfall_value : Shortfall → j.Value
  shortfall_value s = j.object (
      (codes "field", j.str s.field)
      ∷ (codes "declared", j.str s.declared)
      ∷ (codes "providable", j.array (map j.str s.providable))
      ∷ [])

abbrev or_laptop : Option Text → Text
or_laptop none = codes "laptop"
or_laptop (some profile) = profile

-- How a request ends, by what ureq tells: a JSON body, a body that is none, a status with its raw body, or no
-- connection, with the texts of the errors and the decimal status.
pub data Answer (V : Type 0) : Type 0 where
  replied : V → Answer V
  not_json : (error : Text) → Answer V
  refused : (code : Text) (raw : Text) → Answer V
  unreached : (error : Text) → Answer V

-- The network, the environment, the clock's milliseconds and the arithmetic of costs.
pub record Net (V : Type 0) : Type 1 where
  pub World : Type 0
  pub variable : Text → Option Text
  pub post : (url : Text) (key : Option Text) (body : V) → World → World × Answer V
  pub elapsed_ms : World → World → ℕ
  pub cost : Provider V → ℕ → ℕ → V
  pub add_cost : V → V → V
  pub excerpt : Text → Text
  pub replace : (pattern replacement text : Text) → Text

pub record CallError : Type 0 where
  pub ledger_cause : Text
  pub human_cause : Text
  pub body_hash : Option Text
  pub fix : Text

-- A run, with the network that it calls.
pub record GatewayRun (Core V World : Type 0) : Type 0 where
  pub core : Core
  pub cost_total_usd : V
  pub world : World

-- `s.trim_end_matches('/')`.
trim_slashes : Text → Text
trim_slashes [] = []
trim_slashes (c ∷ s) = elim (c == b'/' && is_blank_end (trim_slashes s)) [
  | true ↦ []
  | false ↦ c ∷ trim_slashes s
]
  where
    is_blank_end : Text → Bool
    is_blank_end [] = true
    is_blank_end (_ ∷ _) = false

abbrev or_zero : Option ℕ → ℕ
or_zero none = 0
or_zero (some n) = n

-- `Option::zip`.
abbrev zip_tokens : Option ℕ → Option ℕ → Option (ℕ × ℕ)
zip_tokens none _ = none
zip_tokens (some p) none = none
zip_tokens (some p) (some c) = some (p, c)

module _ (j : Json) (d : Digest) (net : Net j.Value) where
  unfoldable pub scrub : Option Text → Text → Text
  scrub none text = text
  scrub (some []) text = text
  scrub (some (c ∷ k)) text = net.replace (c ∷ k) (codes "[redacted:key]") text

  plain_error : Text → Text → CallError
  plain_error cause fix = record {
    ledger_cause = cause;
    human_cause = cause;
    body_hash = none;
    fix = fix;
  }

  -- The errors of `http_post_json`.
  unfoldable pub call_error : Text → Option Text → Answer j.Value → Option CallError
  unfolding scrub plain_error
  call_error url key (replied body) = none
  call_error url key (not_json error) = some (
      plain_error (codes "provider returned a non-JSON body: " ++ error)
        (codes "check base_url points at an OpenAI-compatible /v1 endpoint"))
  call_error url key (refused code raw) = some (record {
    ledger_cause = codes "provider returned HTTP " ++ code;
    human_cause =
        scrub key (codes "provider returned HTTP " ++ (code ++ (codes ": " ++ net.excerpt raw)));
    body_hash = some (codes "sha256:" ++ d.hex (d.sha256 raw));
    fix = codes "check the model name, the key, and the provider status page";
  })
  call_error url key (unreached error) = some (
      plain_error (scrub key (codes "cannot reach " ++ (url ++ (codes ": " ++ error))))
        (codes "check the base_url, the network route, and that the endpoint is up"))

  abbrev number_or_null : Option ℕ → j.Value
  number_or_null none = j.null
  number_or_null (some n) = j.number n

  abbrev sum_or_null : Option (ℕ × ℕ) → j.Value
  sum_or_null none = j.null
  sum_or_null (some (p, c)) = j.number ((p + c) % 2 ^ 64)

  abbrev cost_or_null : Provider j.Value → Option (ℕ × ℕ) → j.Value
  cost_or_null provider none = j.null
  cost_or_null provider (some (p, c)) = net.cost provider p c

  unfoldable pub add_tokens : Provider j.Value → Option (ℕ × ℕ) → j.Value → j.Value
  add_tokens provider none total = total
  add_tokens provider (some (p, c)) total = net.add_cost total (net.cost provider p c)

  prompt_seen : j.Value → Option ℕ
  prompt_seen body = j.as_u64 (j.field (j.field body (codes "usage")) (codes "prompt_tokens"))

  completion_seen : j.Value → Option ℕ
  completion_seen body =
      j.as_u64 (j.field (j.field body (codes "usage")) (codes "completion_tokens"))

  -- The keys that both events of a call have.
  call_fields :
      Provider j.Value
      → Text
      → j.Value
      → j.Value
      → j.Value
      → ℕ
      → Text
      → j.Value
      → List (Text × j.Value)
  call_fields provider prompt_hash actual tokens cost latency_ms outcome error =
      (codes "provider", j.str provider.name)
      ∷ (codes "model", j.str provider.model)
      ∷ (codes "base_url", j.str provider.base_url)
      ∷ (codes "key_env", text_or_null j d provider.key_env)
      ∷ (
        codes "declared_inputs",
        j.array (
            j.object
              ((codes "name", j.str (codes "messages")) ∷ (codes "arrived", j.bool true) ∷ [])
            ∷ []),
      )
      ∷ (codes "prompt_hash", j.str prompt_hash)
      ∷ (
        codes "window",
        j.object
            ((codes "budget", j.number provider.window_budget) ∷ (codes "actual", actual) ∷ []),
      )
      ∷ (codes "tokens", tokens)
      ∷ (codes "cost_usd", cost)
      ∷ (codes "latency_ms", j.number latency_ms)
      ∷ (codes "outcome", j.str outcome)
      ∷ (codes "error", error)
      ∷ []

  unfoldable pub ok_subject : Provider j.Value → Text → ℕ → j.Value → j.Value
  unfolding call_fields prompt_seen completion_seen
  ok_subject provider prompt_hash latency_ms body =
      let seen = zip_tokens (prompt_seen body) (completion_seen body) in
      j.object (
        call_fields provider prompt_hash (sum_or_null seen)
          (j.object (
            (codes "prompt", number_or_null (prompt_seen body))
            ∷ (codes "completion", number_or_null (completion_seen body))
            ∷ []))
          (cost_or_null provider seen) latency_ms (codes "ok") j.null)

  unfoldable pub error_subject : Provider j.Value → Text → ℕ → CallError → j.Value
  unfolding call_fields
  error_subject provider prompt_hash latency_ms error = j.object (
      call_fields provider prompt_hash j.null j.null j.null latency_ms (codes "error") (
        j.object (
          (codes "cause", j.str error.ledger_cause)
          ∷ (codes "fix", j.str error.fix)
          ∷ (codes "body_hash", text_or_null j d error.body_hash)
          ∷ [])))

  unfoldable pub key_of : Provider j.Value → Option Text → Result (Option Text)
  key_of provider none = ok none
  key_of provider (some variable) = elim (net.variable variable) [
    | none ↦ err (key_unset provider.name variable)
    | some [] ↦ err (key_unset provider.name variable)
    | some (c ∷ k) ↦ ok (some (c ∷ k))
  ]

  unfoldable pub messages_value : List ChatMessage → j.Value
  messages_value messages = j.array (
      map
        (λ (m : ChatMessage).
          j.object ((codes "role", j.str m.role) ∷ (codes "content", j.str m.content) ∷ []))
        messages)

  unfoldable pub content_of : j.Value → Text
  content_of body = or_no_text (
      j.as_str (
        j.field (j.field (first_of (j.as_array (j.field body (codes "choices")))) (codes "message"))
          (codes "content")))
    where
      first_of : Option (List j.Value) → j.Value
      first_of none = j.null
      first_of (some []) = j.null
      first_of (some (v ∷ _)) = v

      or_no_text : Option Text → Text
      or_no_text none = []
      or_no_text (some t) = t

  module _ (keys : Keys) (book : Book j) (clock : ℕ → Text) where
    abbrev pub Calling : Type 0
    Calling = GatewayRun (Core j d keys book clock) j.Value net.World

    abbrev with_call : Calling → Core j d keys book clock × Result Text → Calling × Result Text
    with_call run (core, result) = (record run { core = core }, result)

    unfoldable pub record_call : j.Value → Calling → Calling × Result Text
    unfolding append
    record_call subject run =
        with_call run (append j d keys book clock (codes "model.call") subject run.core)

    unfoldable pub answered : j.Value → ℕ → Calling × Result Text → Calling × Result CallResult
    unfolding content_of prompt_seen completion_seen
    answered body latency_ms (run, err fault) = (run, err fault)
    answered body latency_ms (run, ok event_id) = (
      run,
      ok (record {
        content = content_of body;
        prompt_tokens = or_zero (prompt_seen body);
        completion_tokens = or_zero (completion_seen body);
        latency_ms = latency_ms;
        event_id = event_id;
      }),
    )

    unfoldable pub failed :
        Provider j.Value → CallError → Calling × Result Text → Calling × Result CallResult
    failed provider error (run, err fault) = (run, err fault)
    failed provider error (run, ok id) =
        (run, err (model_call_failed provider.name error.human_cause error.fix))

    unfoldable pub settle_call :
        Provider j.Value
        → Text
        → ℕ
        → j.Value
        → Option CallError
        → Calling
        → Calling × Result CallResult
    unfolding answered failed record_call ok_subject error_subject add_tokens prompt_seen
        completion_seen
    settle_call provider prompt_hash latency_ms body none run = answered body latency_ms (
        record_call (ok_subject provider prompt_hash latency_ms body) (record run {
          cost_total_usd =
              add_tokens provider (zip_tokens (prompt_seen body) (completion_seen body))
                run.cost_total_usd;
        }))
    settle_call provider prompt_hash latency_ms body (some error) run =
        failed provider error
          (record_call (error_subject provider prompt_hash latency_ms error) run)

    abbrev body_of : Answer j.Value → j.Value
    body_of (replied body) = body
    body_of _ = j.null

    unfoldable pub after_post :
        Provider j.Value
        → Text
        → Option Text
        → Text
        → Calling
        → net.World × Answer j.Value
        → Calling × Result CallResult
    unfolding settle_call call_error
    after_post provider url key prompt_hash run (world, answer) =
        settle_call provider prompt_hash (net.elapsed_ms run.world world) (body_of answer)
          (call_error url key answer) (record run { world = world })

    unfoldable pub url_of : Provider j.Value → Text
    unfolding trim_slashes
    url_of provider = trim_slashes provider.base_url ++ codes "/chat/completions"

    unfoldable pub call_with :
        Provider j.Value
        → List ChatMessage
        → Result (Option Text)
        → Result Text
        → Calling
        → Calling × Result CallResult
    unfolding after_post url_of messages_value
    call_with provider messages (err fault) _ run = (run, err fault)
    call_with provider messages (ok key) (err fault) run = (run, err fault)
    call_with provider messages (ok key) (ok prompt_hash) run =
        after_post provider (url_of provider) key prompt_hash run (
          net.post (url_of provider) key
            (j.object (
              (codes "model", j.str provider.model)
              ∷ (codes "messages", messages_value messages)
              ∷ []))
            run.world)

    -- `call_on`, and `GatewayRun::call`.
    unfoldable pub call_on :
        Provider j.Value → List ChatMessage → Calling → Calling × Result CallResult
    unfolding key_of call_with subject_hash messages_value
    call_on provider messages run =
        call_with provider messages (key_of provider provider.key_env)
          (subject_hash j d (messages_value messages)) run

    -- `GatewayRun::seal`.
    unfoldable pub seal_gateway : Text → Calling → Core j d keys book clock × Result SignedHead
    unfolding seal
    seal_gateway outcome run =
        seal j d keys book clock (j.object ((codes "cost_total_usd", run.cost_total_usd) ∷ []))
          outcome run.core
