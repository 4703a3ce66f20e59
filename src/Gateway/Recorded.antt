-- ===== src/Gateway/Recorded.antt =====
-- src/gateway.rs: a model call and the event of it on the ledger.
use trunnion.Prelude.{
  ℕ, Bool, true, false, Text, codes, str_eq, Option, none, some, List, ◌≡◌, refl, ◌⊎◌, inl, inr,
}
use trunnion.Fault.{Fault, Result, ok, err}
use trunnion.Json.{Json, Digest, IsLawful}
use trunnion.Keys.{Keys}
use trunnion.Event.{subject_hash}
use trunnion.Runlog.{Book, Core, append}
use trunnion.Gateway.{
  Provider, ChatMessage, CallResult, CallError, Answer, Net, Calling, key_of, call_error,
  ok_subject, error_subject, add_tokens, messages_value, record_call, with_call, answered, failed,
  settle_call, body_of, after_post, url_of, call_with, call_on,
}

abbrev is_ok_call : Result CallResult → Bool
is_ok_call (err fault) = false
is_ok_call (ok r) = true

module _ (j : Json) (lawful : IsLawful j) (d : Digest) (net : Net j.Value) (keys : Keys)
    (book : Book j) (clock : ℕ → Text) where
  -- A fault before the network was asked: the run is as it was.
  pub record IsUntouched (run after : Calling j d net keys book clock) (result : Result CallResult)
      : Type 0 where
    pub same : after ≡ run
    pub fault : Fault
    pub failed_so : result ≡ err fault

  -- The event of the call: the append's fault is the call's, and where the event is written it names the
  -- provider and the hash of the messages, with an outcome that is "ok" exactly where the call ends well.
  pub record IsWritten (provider : Provider j.Value) (prompt_hash : Text)
      (core : Core j d keys book clock) (after : Calling j d net keys book clock)
      (result : Result CallResult) : Type 0 where
    pub subject : j.Value
    pub outcome : Text
    pub provider_eq : j.field subject (codes "provider") ≡ j.str provider.name
    pub prompt_eq : j.field subject (codes "prompt_hash") ≡ j.str prompt_hash
    pub outcome_eq : j.field subject (codes "outcome") ≡ j.str outcome
    pub written :
        ((fault : Fault) × (append j d keys book clock (codes "model.call") subject core
            ≡ (after.core, err fault))
          × (result ≡ err fault))
        ⊎ ((id : Text) × (append j d keys book clock (codes "model.call") subject core
              ≡ (after.core, ok id))
            × (is_ok_call result ≡ str_eq outcome (codes "ok")))

  abbrev pub Accounted :
      Provider j.Value
      → List ChatMessage
      → Calling j d net keys book clock
      → Calling j d net keys book clock × Result CallResult
      → Type 0
  Accounted provider messages run (after, result) =
      IsUntouched run after result
      ⊎ ((prompt_hash : Text) × (subject_hash j d (messages_value j d net messages)
            ≡ ok prompt_hash)
          × IsWritten provider prompt_hash run.core after result)

  record IsSubject (provider : Provider j.Value) (prompt_hash outcome : Text) (subject : j.Value)
      : Type 0 where
    pub provider_eq : j.field subject (codes "provider") ≡ j.str provider.name
    pub prompt_eq : j.field subject (codes "prompt_hash") ≡ j.str prompt_hash
    pub outcome_eq : j.field subject (codes "outcome") ≡ j.str outcome

  ok_subject-IsSubject :
      (provider : Provider j.Value) (prompt_hash : Text) (latency_ms : ℕ) (body : j.Value)
      → IsSubject provider prompt_hash
          (codes "ok")
          (ok_subject j d net provider prompt_hash latency_ms body)
  unfolding ok_subject str_eq
  ok_subject-IsSubject provider prompt_hash latency_ms body = record {
    provider_eq = lawful.field-object (codes "provider") _;
    prompt_eq = lawful.field-object (codes "prompt_hash") _;
    outcome_eq = lawful.field-object (codes "outcome") _;
  }

  error_subject-IsSubject :
      (provider : Provider j.Value) (prompt_hash : Text) (latency_ms : ℕ) (error : CallError)
      → IsSubject provider prompt_hash
          (codes "error")
          (error_subject j d net provider prompt_hash latency_ms error)
  unfolding error_subject str_eq
  error_subject-IsSubject provider prompt_hash latency_ms error = record {
    provider_eq = lawful.field-object (codes "provider") _;
    prompt_eq = lawful.field-object (codes "prompt_hash") _;
    outcome_eq = lawful.field-object (codes "outcome") _;
  }

  abbrev Written :
      Provider j.Value
      → Text
      → Core j d keys book clock
      → Calling j d net keys book clock × Result CallResult
      → Type 0
  Written provider prompt_hash core (after, result) =
      IsWritten provider prompt_hash core after result

  answered-Written :
      (provider : Provider j.Value) (prompt_hash : Text) (latency_ms : ℕ) (body subject : j.Value)
      (now : Calling j d net keys book clock) (r : Core j d keys book clock × Result Text)
      → IsSubject provider prompt_hash (codes "ok") subject
      → append j d keys book clock (codes "model.call") subject now.core ≡ r
      → Written provider prompt_hash now.core (
          answered j d net keys book clock body latency_ms
            (with_call j d net keys book clock now r))
  unfolding answered str_eq
  answered-Written provider prompt_hash latency_ms body subject now (core, err fault) s e = record {
    subject = subject;
    outcome = codes "ok";
    provider_eq = s.provider_eq;
    prompt_eq = s.prompt_eq;
    outcome_eq = s.outcome_eq;
    written = inl (fault, e, refl);
  }
  answered-Written provider prompt_hash latency_ms body subject now (core, ok id) s e = record {
    subject = subject;
    outcome = codes "ok";
    provider_eq = s.provider_eq;
    prompt_eq = s.prompt_eq;
    outcome_eq = s.outcome_eq;
    written = inr (id, e, refl);
  }

  failed-Written :
      (provider : Provider j.Value) (prompt_hash : Text) (error : CallError) (subject : j.Value)
      (now : Calling j d net keys book clock) (r : Core j d keys book clock × Result Text)
      → IsSubject provider prompt_hash (codes "error") subject
      → append j d keys book clock (codes "model.call") subject now.core ≡ r
      → Written provider prompt_hash now.core
          (failed j d net keys book clock provider error (with_call j d net keys book clock now r))
  unfolding failed str_eq
  failed-Written provider prompt_hash error subject now (core, err fault) s e = record {
    subject = subject;
    outcome = codes "error";
    provider_eq = s.provider_eq;
    prompt_eq = s.prompt_eq;
    outcome_eq = s.outcome_eq;
    written = inl (fault, e, refl);
  }
  failed-Written provider prompt_hash error subject now (core, ok id) s e = record {
    subject = subject;
    outcome = codes "error";
    provider_eq = s.provider_eq;
    prompt_eq = s.prompt_eq;
    outcome_eq = s.outcome_eq;
    written = inr (id, e, refl);
  }

  settle_call-Written :
      (provider : Provider j.Value) (prompt_hash : Text) (latency_ms : ℕ) (body : j.Value)
      (error : Option CallError) (now : Calling j d net keys book clock)
      → Written provider prompt_hash now.core
          (settle_call j d net keys book clock provider prompt_hash latency_ms body error now)
  unfolding settle_call record_call
  settle_call-Written provider prompt_hash latency_ms body none now =
      answered-Written provider prompt_hash latency_ms body
        (ok_subject j d net provider prompt_hash latency_ms body)
        (record now { cost_total_usd = add_tokens j d net provider _ now.cost_total_usd })
        (append j d keys book clock (codes "model.call")
          (ok_subject j d net provider prompt_hash latency_ms body) now.core)
        (ok_subject-IsSubject provider prompt_hash latency_ms body) refl
  settle_call-Written provider prompt_hash latency_ms body (some error) now =
      failed-Written provider prompt_hash error
        (error_subject j d net provider prompt_hash latency_ms error) now
        (append j d keys book clock (codes "model.call")
          (error_subject j d net provider prompt_hash latency_ms error) now.core)
        (error_subject-IsSubject provider prompt_hash latency_ms error) refl

  after_post-Written :
      (provider : Provider j.Value) (url : Text) (key : Option Text) (prompt_hash : Text)
      (run : Calling j d net keys book clock) (out : net.World × Answer j.Value)
      → Written provider prompt_hash run.core
          (after_post j d net keys book clock provider url key prompt_hash run out)
  unfolding after_post
  after_post-Written provider url key prompt_hash run (world, answer) =
      settle_call-Written provider prompt_hash (net.elapsed_ms run.world world)
        (body_of j d net keys book clock answer) (call_error j d net url key answer)
        (record run { world = world })

  call_with-Accounted :
      (provider : Provider j.Value) (messages : List ChatMessage) (key : Result (Option Text))
      (prompt_hash : Result Text) (run : Calling j d net keys book clock)
      → subject_hash j d (messages_value j d net messages) ≡ prompt_hash
      → Accounted provider messages run
          (call_with j d net keys book clock provider messages key prompt_hash run)
  unfolding call_with
  call_with-Accounted provider messages (err fault) h run e =
      inl (record { same = refl; fault = fault; failed_so = refl })
  call_with-Accounted provider messages (ok key) (err fault) run e =
      inl (record { same = refl; fault = fault; failed_so = refl })
  call_with-Accounted provider messages (ok key) (ok prompt_hash) run e = inr (
    prompt_hash,
    e,
    after_post-Written provider (url_of j d net keys book clock provider) key prompt_hash run _,
  )

  -- Every model call is accounted for: it ends with a fault before the network is asked, and the run is as it
  -- was, or its event was appended, which names the provider and the hash of the messages and has an outcome
  -- that is "ok" exactly where the call ends well, or the fault of that append is the call's.
  pub call_on-Accounted :
      (provider : Provider j.Value) (messages : List ChatMessage)
      (run : Calling j d net keys book clock)
      → Accounted provider messages run (call_on j d net keys book clock provider messages run)
  unfolding call_on
  call_on-Accounted provider messages run =
      call_with-Accounted provider messages (key_of j d net provider provider.key_env)
        (subject_hash j d (messages_value j d net messages)) run refl
