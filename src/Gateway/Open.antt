-- ===== src/Gateway/Open.antt =====
-- src/gateway.rs: `GatewayRun::open`, whose checks refuse a run before its first event.
use trunnion.Prelude.{ℕ, map, Text, codes, some, List, [], ◌∷◌}
use trunnion.Fault.{Result, ok, err, ◌>>=◌}
use trunnion.Json.{Json, Digest}
use trunnion.Keys.{Keys}
use trunnion.Policy.Availability.{Shortfall, for_this_build, availability_check}
use trunnion.Drift.{file_hash}
use trunnion.Runlog.{Book, Surroundings, open_core, declared, append}
use trunnion.Gateway.{
  Pinning, Net, Calling, parsed, or_laptop, authority, shortfall_value, with_call,
}

module _ (j : Json) (d : Digest) (net : Net j.Value) (keys : Keys) (book : Book j)
    (clock : ℕ → Text) where
  abbrev pub Opening : Type 0
  Opening = Calling j d net keys book clock

  gateway_actor : j.Value
  gateway_actor = j.object (
      (codes "type", j.str (codes "agent"))
      ∷ (codes "id", j.str (codes "agent:trunnion-run"))
      ∷ (codes "identity_source", j.str (codes "local"))
      ∷ (codes "rung", j.str (codes "assisted"))
      ∷ [])

  open_gateway_subject : Text → Text → j.Value → List Shortfall → j.Value
  open_gateway_subject profile workload auth unavailable = j.object (
      (codes "profile", j.str profile)
      ∷ (codes "workload", j.str workload)
      ∷ (codes "instruction_pack", j.field auth (codes "instruction_version"))
      ∷ (codes "settings_hash", j.field auth (codes "settings_hash"))
      ∷ (codes "restored_checkpoint", j.null)
      ∷ (codes "unavailable", j.array (map (shortfall_value j d) unavailable))
      ∷ [])

  open_pinned :
      Surroundings
      → Text
      → Pinning
      → Text
      → book.Store
      → net.World
      → j.Value
      → j.Value
      → Text
      → Result (Text × Opening × List Shortfall)
  unfolding authority availability_check declared gateway_actor for_this_build
  open_pinned around run_id pin backend store world zero_cost pinned policy_version =
      let profile = or_laptop (j.as_str (j.field pinned (codes "profile"))) in
      let requirements = j.field pinned (codes "profile_requirements") in
      do
        auth ← authority j d pin profile policy_version
        unavailable ← availability_check j profile requirements (for_this_build backend)
        signer ← declared j d keys around profile requirements
        ok (
          profile,
          record {
            core = record (open_core j d keys book clock run_id store gateway_actor auth) {
              signer = signer;
            };
            cost_total_usd = zero_cost;
            world = world;
          },
          unavailable,
        )

  -- The run before its first event; each check refuses it.
  unfoldable pub open_gateway_run :
      Surroundings
      → Text
      → Pinning
      → Text
      → book.Store
      → net.World
      → j.Value
      → Result (Text × Opening × List Shortfall)
  unfolding open_pinned file_hash
  open_gateway_run around run_id pin backend store world zero_cost = do
    policy_version ← file_hash d pin.policy
    open_pinned around run_id pin backend store world zero_cost (parsed j (some pin.policy))
        policy_version

  opened_gateway : Text → Result (Text × Opening × List Shortfall) → Result (Opening × Result Text)
  unfolding open_gateway_subject append
  opened_gateway workload (err fault) = err fault
  opened_gateway workload (ok (profile, run, unavailable)) = ok (
      with_call j d net keys book clock run (
        append j d keys book clock (codes "run.open")
          (open_gateway_subject profile workload run.core.authority unavailable) run.core))

  -- `GatewayRun::open`: a refusal, or the run and what its first append ended with.
  unfoldable pub open_gateway :
      Surroundings
      → Text
      → Pinning
      → Text
      → book.Store
      → net.World
      → j.Value
      → Text
      → Result (Opening × Result Text)
  unfolding open_gateway_run opened_gateway
  open_gateway around run_id pin backend store world zero_cost workload =
      opened_gateway workload (open_gateway_run around run_id pin backend store world zero_cost)
