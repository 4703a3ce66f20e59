-- ===== src/Broker/Call/Once.antt =====
-- src/broker.rs: the approval that a released call uses up.
use trunnion.Prelude.{Text, codes, ◌≡◌}
use trunnion.Fault.{Fault, Result, err, ok}
use trunnion.Json.{Json, Digest, IsLawful}
use trunnion.Keys.{Keys}
use trunnion.Policy.Rules.{Policy}
use trunnion.Runlog.{append}
use trunnion.Broker.{Site, Run}
use trunnion.Broker.Call.{BrokerResult, Pending, use_subject}
use trunnion.Broker.Call.Told.{SiteCore}

module _ (j : Json) (lawful : IsLawful j) (d : Digest) (keys : Keys) (site : Site j) where
  -- The use of the grant could not be appended, and the world is as it was.
  abbrev pub Unused :
      Pending j d keys site
      → j.Value
      → Run j d keys site
      → Run j d keys site
      → Result BrokerResult
      → Type 0
  Unused p g run after result =
      (fault : Fault) × (result ≡ err fault)
      × (append j d keys site.book site.clock (codes "approval.use")
            (use_subject j d keys site p run.identity g) run.core
          ≡ (after.core, err fault))
      × (after.world ≡ run.world)

  -- The use of the grant was appended before anything else.
  abbrev pub UsedFirst : Pending j d keys site → j.Value → Run j d keys site → Type 0
  UsedFirst p g run =
      (core : SiteCore j d keys site) × (id : Text) × (append j d keys site.book site.clock
          (codes "approval.use") (use_subject j d keys site p run.identity g) run.core
        ≡ (core, ok id))
