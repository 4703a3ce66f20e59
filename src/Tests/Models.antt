-- ===== src/Tests/Models.antt =====
-- Model calls through src/gateway.rs, on a network that keeps the list of what it is asked.
use trunnion.Prelude.{
  ◌+◌, if◌then◌else◌, Bool, true, false, Text, codes, str_eq, none, some, List, [], ◌∷◌, ◌++◌, ◌≡◌,
  refl,
}
use trunnion.Fault.{Result, ok, err, key_unset, credential_in_url}
use trunnion.Gateway.{
  Provider, Pinning, CallResult, Answer, replied, refused, Net, Calling, check_providers,
  permission_mode_check, call_on,
}
use trunnion.Gateway.Open.{open_gateway}
use trunnion.Gateway.Recorded.{Accounted, call_on-Accounted}
use trunnion.Tests.Sample.{Tree, text, keys, number, array, toy, sample_json, sample_json-IsLawful}
use trunnion.Tests.Bundles.{toy_keys}
use trunnion.Tests.Runs.{list_book, still_clock, fresh_core, around}

abbrev pub reply : Tree
reply = keys (
    (
      codes "choices",
      array
          (keys ((codes "message", keys ((codes "content", text (codes "hello")) ∷ [])) ∷ []) ∷ []),
    )
    ∷ (
      codes "usage",
      keys ((codes "prompt_tokens", number 3) ∷ (codes "completion_tokens", number 2) ∷ []),
    )
    ∷ [])

abbrev pub net_with : Answer Tree → Net Tree
net_with answer = record {
  World = List Text;
  variable = λ name. if str_eq name (codes "KEY") then some (codes "k1") else none;
  post = λ url key body urls. (urls ++ url ∷ [], answer);
  elapsed_ms = λ _ _. 7;
  cost = λ provider p c. number (p + c);
  add_cost = λ total cost. cost;
  excerpt = λ t. t;
  replace = λ pattern replacement t. if str_eq pattern t then replacement else t;
}

abbrev pub provider : Provider Tree
provider = record {
  name = codes "local";
  base_url = codes "http://h/v1/";
  model = codes "m";
  key_env = some (codes "KEY");
  window_budget = 8;
  cost_in_per_mtok = number 1;
  cost_out_per_mtok = number 1;
}

abbrev calling :
    (answer : Answer Tree)
    → Calling sample_json toy (net_with answer) toy_keys list_book still_clock
calling answer = record { core = fresh_core; cost_total_usd = number 0; world = [] }

abbrev ask :
    (answer : Answer Tree)
    → Provider Tree
    → Calling sample_json toy (net_with answer) toy_keys list_book still_clock × Result CallResult
ask answer p =
    call_on sample_json toy (net_with answer) toy_keys list_book still_clock p [] (calling answer)

abbrev brief :
    (answer : Answer Tree)
    → Calling sample_json toy (net_with answer) toy_keys list_book still_clock × Result CallResult
    → List Text × Tree × Result CallResult
brief answer (run, result) = (run.world, run.cost_total_usd, result)

abbrev is_failure : {A : Type 0} → Result A → Bool
is_failure (err fault) = true
is_failure (ok a) = false

-- Tests.
answers : brief (replied reply) (ask (replied reply) provider) ≡ (
  codes "http://h/v1/chat/completions" ∷ [],
  number 5,
  ok (record {
    content = codes "hello";
    prompt_tokens = 3;
    completion_tokens = 2;
    latency_ms = 7;
    event_id = codes "run-7-0";
  }),
)
unfolding call_on str_eq
answers = refl

no_key :
    brief (replied reply) (ask (replied reply) (record provider { key_env = some (codes "OTHER") }))
    ≡ ([], number 0, err (key_unset (codes "local") (codes "OTHER")))
unfolding call_on str_eq
no_key = refl

refusal : is_failure (ask (refused (codes "401") (codes "no")) provider).1 ≡ true
unfolding call_on str_eq
refusal = refl

rejects_credential :
    check_providers (record provider { base_url = codes "http://a:b@h" } ∷ [])
    ≡ err (credential_in_url (codes "local"))
unfolding check_providers
rejects_credential = refl

mode_unobserved : permission_mode_check sample_json none none ≡ (codes "unobserved", false)
unfolding permission_mode_check
mode_unobserved = refl

mode_differs :
    permission_mode_check sample_json (some (codes "plan")) (some (ok [])) ≡ (codes "plan", true)
unfolding permission_mode_check str_eq
mode_differs = refl

abbrev pub pinning : Pinning
pinning = record {
  policy = ok [];
  instructions = ok [];
  settings = none;
  diverged = [];
  permission_mode = none;
}

opens_gateway :
    is_failure (
      open_gateway sample_json toy
        (net_with (replied reply))
        toy_keys
        list_book
        still_clock
        around
        (codes "run-7")
        pinning
        (codes "seatbelt")
        []
        []
        (number 0)
        (codes "work"))
    ≡ false
unfolding open_gateway str_eq
opens_gateway = refl

call_on-Accounted_example :
    Accounted sample_json sample_json-IsLawful toy
      (net_with (replied reply))
      toy_keys
      list_book
      still_clock
      provider
      []
      (calling (replied reply))
      (ask (replied reply) provider)
call_on-Accounted_example =
    call_on-Accounted sample_json sample_json-IsLawful toy (net_with (replied reply)) toy_keys
      list_book still_clock provider [] (calling (replied reply))
