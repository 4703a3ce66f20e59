-- ===== src/Broker/Call/Demotion.antt =====
-- src/broker.rs: how `demote_on_denial` ends, by what it appends.
use trunnion.Prelude.{Text, codes, Option, none, some, List, ◌≡◌}
use trunnion.Fault.{Fault, Result, done, ok, err}
use trunnion.Trial.{give}
use trunnion.Json.{Json, Digest}
use trunnion.Keys.{Keys}
use trunnion.Policy.Ladder.{Rung, down}
use trunnion.Policy.Rules.{Capability}
use trunnion.Runlog.{Core, append}
use trunnion.Trust.{from_policy}
use trunnion.Broker.{Site, Run}
use trunnion.Broker.Steps.{if-step, record-step}
use trunnion.Broker.Call.{
  has_trigger, demote_on_denial, demote_named, demote_capability, demote_from, capability_of,
}

module _ {ℓ} (j : Json) (d : Digest) (keys : Keys) (site : Site j) (run : Run j d keys site)
    (P : Run j d keys site × Result (Unit {0}) → Type ℓ) (unchanged : P (run, ok tt))
    (failed : (subject : j.Value) (core : Core j d keys site.book site.clock) (fault : Fault)
      → append j d keys site.book site.clock (codes "rung.change") subject run.core
        ≡ (core, err fault)
      → P (record run { core = core }, err fault))
    (written : (subject : j.Value) (core : Core j d keys site.book site.clock) (id : Text)
      → append j d keys site.book site.clock (codes "rung.change") subject run.core ≡ (core, ok id)
      → P (record run { core = core }, ok tt)) where
  demote_from-step :
      (cap_id rule : Text) (from : Rung) (to : Option Rung)
      → P (demote_from j d keys site cap_id rule from to run)
  unfolding demote_from
  demote_from-step cap_id rule from none = unchanged
  demote_from-step cap_id rule from (some to) =
      record-step j d keys site P (codes "rung.change") _ (λ _. give done) run
        (λ core fault e. failed _ core fault e) (λ core id e. written _ core id e)

  demote_capability-step :
      (history : List j.Value) (cap_id rule : Text) (c : Option Capability)
      → P (demote_capability j d keys site history cap_id rule c run)
  unfolding demote_capability
  demote_capability-step history cap_id rule none = unchanged
  demote_capability-step history cap_id rule (some c) = demote_from-step cap_id rule _ (down _)

  demote_named-step :
      (history : List j.Value) (capability : Option Text) (rule : Text)
      → P (demote_named j d keys site history capability rule run)
  unfolding demote_named
  demote_named-step history none rule = unchanged
  demote_named-step history (some cap_id) rule =
      demote_capability-step history cap_id rule
        (capability_of run.policy.capabilities (some cap_id))

  pub demote-step :
      (history : List j.Value) (capability : Option Text) (rule : Text)
      → P (demote_on_denial j d keys site history capability rule run)
  unfolding demote_on_denial
  demote-step history capability rule =
      if-step P
        (has_trigger j d keys site (from_policy j run.policy.trust_budget).demotion_triggers)
        (demote_named-step history capability rule) unchanged
