-- ===== src/Policy/Ladder.antt =====
-- src/policy.rs: effects, rungs, actions, gates, and the trust-budget table that joins them.
use trunnion.Prelude.{Text, codes, str_eq, Option, none, some, if◌then◌else◌}

pub data Effect : Type 0 where
  read write_local write_shared irreversible : Effect

pub data Rung : Type 0 where
  led assisted autonomous : Rung

pub data Action : Type 0 where
  allow deny hold : Action

-- `Gate::None` is `open_gate`: `none` is an option's.
pub data Gate : Type 0 where
  pre post open_gate : Gate

unfoldable pub up : Rung → Option Rung
up led = some assisted
up assisted = some autonomous
up autonomous = none

unfoldable pub down : Rung → Option Rung
down led = none
down assisted = some led
down autonomous = some assisted

unfoldable pub rung_name : Rung → Text
rung_name led = codes "led"
rung_name assisted = codes "assisted"
rung_name autonomous = codes "autonomous"

unfoldable pub effect_name : Effect → Text
effect_name read = codes "read"
effect_name write_local = codes "write.local"
effect_name write_shared = codes "write.shared"
effect_name irreversible = codes "irreversible"

unfoldable pub parse_rung : Text → Option Rung
unfolding str_eq
parse_rung s =
    if str_eq s (codes "led")
    then some led
    else if str_eq s (codes "assisted")
    then some assisted
    else if str_eq s (codes "autonomous")
    then some autonomous
    else none

unfoldable pub gate : Rung → Effect → Gate
gate led _ = pre
gate assisted irreversible = pre
gate autonomous irreversible = pre
gate assisted write_shared = pre
gate assisted _ = open_gate
gate autonomous read = open_gate
gate autonomous _ = post
