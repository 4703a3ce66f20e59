-- ===== src/Broker/Open.antt =====
-- src/broker.rs: `open`, which refuses a run before its first event, and `model_call`, which goes through the
-- gateway. The making of the sandbox and the reading of the handles' values come in as their outcomes.
use trunnion.Prelude.{map, Text, codes, none, List, [], ◌∷◌, ◌++◌}
use trunnion.Fault.{Result, done, ok, err, ◌>>=◌, policy_unversioned}
use trunnion.Json.{Json, Digest}
use trunnion.Keys.{Keys}
use trunnion.Ledger.{or_fault}
use trunnion.Policy.Availability.{Shortfall, for_this_build, availability_check}
use trunnion.Policy.Rules.{Capability, Policy}
use trunnion.Trust.{named_approvers}
use trunnion.Runlog.{Surroundings, or_none, open_core, declared}
use trunnion.Gateway.{
  Provider, Pinning, ChatMessage, CallResult, Net, Calling, authority, shortfall_value, call_on,
}
use trunnion.Broker.{Site, Run, record_event}

-- What the machine gives a run: its id, the backend, the sandbox's directory, and the values of handles.
pub record Ground (V : Type 0) : Type 0 where
  pub around : Surroundings
  pub run_id : Text
  pub backend : Text
  pub workdir : Result Text
  pub values_of : List Text → List (Text × Text)
  pub zero_cost : V

-- The handles that some capability declares.
unfoldable pub declared_handles : List Capability → List Text
declared_handles [] = []
declared_handles (c ∷ capabilities) = c.credentials ++ declared_handles capabilities

module _ (j : Json) (d : Digest) (keys : Keys) (site : Site j) where
  -- `a.iter().filter_map(|v| v.as_str().map(String::from)).collect()`, of the egress list.
  egress_of : Policy j.Value → List Text
  unfolding named_approvers
  egress_of policy =
      named_approvers j (
        j.as_array (j.field (j.field policy.profile_requirements (codes "egress")) (codes "allow")))

  broker_actor : j.Value
  broker_actor = j.object (
      (codes "type", j.str (codes "agent"))
      ∷ (codes "id", j.str (codes "agent:trunnion-broker"))
      ∷ (codes "identity_source", j.str (codes "local"))
      ∷ (codes "rung", j.str (codes "assisted"))
      ∷ [])

  open_subject : Policy j.Value → Text → j.Value → Text → List Shortfall → j.Value
  unfolding egress_of
  open_subject policy workload auth workdir unavailable = j.object (
      (codes "profile", j.str policy.profile)
      ∷ (codes "workload", j.str workload)
      ∷ (codes "instruction_pack", j.field auth (codes "instruction_version"))
      ∷ (codes "settings_hash", j.field auth (codes "settings_hash"))
      ∷ (codes "restored_checkpoint", j.null)
      ∷ (
        codes "isolation",
        j.object (
            (
              codes "declared",
              j.str (
                  or_none (
                    j.as_str (
                      j.field (j.field policy.profile_requirements (codes "isolation"))
                        (codes "declared")))),
            )
            ∷ (codes "active_backend", j.str site.sandbox_kind)
            ∷ (codes "workdir", j.str workdir)
            ∷ (codes "egress_allow", j.array (map j.str (egress_of policy)))
            ∷ []),
      )
      ∷ (codes "unavailable", j.array (map (shortfall_value j d) unavailable))
      ∷ [])

  -- Each check refuses the run before anything is appended; a run comes with the payload of its first event.
  unfoldable pub unopened :
      Ground j.Value
      → Pinning
      → site.book.Store
      → site.World
      → Policy j.Value
      → Text
      → Result (Run j d keys site × j.Value)
  unfolding authority availability_check for_this_build declared broker_actor open_subject
      declared_handles
  unopened g pin store world policy workload = do
    policy_version ← or_fault policy.policy_version policy_unversioned
    auth ← authority j d pin policy.profile policy_version
    unavailable ←
        availability_check j policy.profile policy.profile_requirements (for_this_build g.backend)
    signer ← declared j d keys g.around policy.profile policy.profile_requirements
    workdir ← g.workdir
    ok (
      record {
        core = record (open_core j d keys site.book site.clock g.run_id store broker_actor auth) {
          signer = signer;
        };
        policy = policy;
        registered = [];
        identity = j.object (
            (codes "id", j.str (codes "user:mariano@local"))
            ∷ (codes "source", j.str (codes "local"))
            ∷ []);
        outstanding_reviews = 0;
        credentials = g.values_of (declared_handles policy.capabilities);
        cost_total_usd = g.zero_cost;
        grant = none;
        world = world;
      },
      open_subject policy workload auth workdir unavailable,
    )

  first_event : Result (Run j d keys site × j.Value) → Result (Run j d keys site × Result Text)
  unfolding record_event
  first_event (err fault) = err fault
  first_event (ok (run, subject)) = ok (record_event j d keys site (codes "run.open") subject run)

  -- `BrokerRun::open`: a refusal, or the run and what its first append ended with.
  unfoldable pub open_run :
      Ground j.Value
      → Pinning
      → site.book.Store
      → site.World
      → Policy j.Value
      → Text
      → Result (Run j d keys site × Result Text)
  unfolding unopened first_event
  open_run g pin store world policy workload =
      first_event (unopened g pin store world policy workload)

  module _ (net : Net j.Value) where
    note_subject : List Text → j.Value
    note_subject tainted = j.object (
        (codes "reason", j.str (codes "untrusted tool output is entering a model prompt"))
        ∷ (codes "request_ids", j.array (map j.str tainted))
        ∷ [])

    unit_of : {A : Type 0} → Run j d keys site × Result A → Run j d keys site × Result (Unit {0})
    unit_of (run, err fault) = (run, err fault)
    unit_of (run, ok _) = (run, done)

    note_taint : List Text → Run j d keys site → Run j d keys site × Result (Unit {0})
    unfolding note_subject unit_of record_event
    note_taint [] run = (run, done)
    note_taint (t ∷ ts) run =
        unit_of (record_event j d keys site (codes "taint.note") (note_subject (t ∷ ts)) run)

    with_calling :
        Run j d keys site
        → Calling j d net keys site.book site.clock × Result CallResult
        → (Run j d keys site × net.World) × Result CallResult
    with_calling run (calling, result) = (
      (record run { core = calling.core; cost_total_usd = calling.cost_total_usd }, calling.world),
      result,
    )

    after_note :
        Provider j.Value
        → List ChatMessage
        → net.World
        → Run j d keys site × Result (Unit {0})
        → (Run j d keys site × net.World) × Result CallResult
    unfolding with_calling call_on
    after_note provider messages world (run, err fault) = ((run, world), err fault)
    after_note provider messages world (run, ok _) = with_calling run (
        call_on j d net keys site.book site.clock provider messages
          (record { core = run.core; cost_total_usd = run.cost_total_usd; world = world }))

    -- `BrokerRun::model_call`.
    unfoldable pub model_call :
        Provider j.Value
        → List ChatMessage
        → List Text
        → Run j d keys site × net.World
        → (Run j d keys site × net.World) × Result CallResult
    unfolding note_taint after_note
    model_call provider messages tainted (run, world) =
        after_note provider messages world (note_taint tainted run)
