-- ===== src/Takeover/Sound.antt =====
-- What holds of every reachable world: the record agrees with itself and with the journal.
pub mod Rules
pub mod Saves
pub mod Operations
pub mod Calls
pub mod Moves
pub mod Begin
pub mod End
pub mod Actions
pub mod Finish
pub mod Answers
pub mod Reached
use opensurge_fnos.Base.{
  Bool, List, Option, [], false, if◌then◌else◌, none, not, some, true, ◌&&◌, ◌||◌, ◌∷◌, ◌≡◌,
}
use opensurge_fnos.Takeover.Begin.{same_wifi_dhcp}
use opensurge_fnos.Takeover.Stage.{
  Stage, is_open, is_stage, is_takeover_active, recovery_router_dhcp_disabled_confirmed,
  recovery_router_dhcp_restored,
}
use opensurge_fnos.Takeover.Store.{readable, recovery}
use opensurge_fnos.Takeover.Types.{RecoveryState}
use opensurge_fnos.Takeover.World.{
  Action, Event, Pending, World, finish_manually, launched, probed, received, reload_gateway,
  set_dhcp, start_gateway,
}
use opensurge_fnos.Text.{text_eq}

-- Whether the latest word on the router's DHCP is that it answers: a probe that named a server, or
-- the user's confirmation.
unfoldable pub router_answers : List Event → Bool
router_answers [] = false
router_answers (probed [] ∷ j) = false
router_answers (probed (s ∷ servers) ∷ j) = true
router_answers (received (finish_manually (some true)) ∷ j) = true
router_answers (_ ∷ j) = router_answers j

-- Whether some probe has named no server.
unfoldable pub router_was_silent : List Event → Bool
router_was_silent [] = false
router_was_silent (probed [] ∷ j) = true
router_was_silent (_ ∷ j) = router_was_silent j

-- What a call rests on.
unfoldable pub is_warranted : Event → List Event → Bool
unfolding router_answers router_was_silent text_eq
is_warranted (set_dhcp service) j = router_answers j
is_warranted (launched start_gateway topology) j =
    not (text_eq topology same_wifi_dhcp) || router_was_silent j
is_warranted _ j = true

-- Every call rests on what the journal had before it.
unfoldable pub all_warranted : List Event → Bool
unfolding is_warranted
all_warranted [] = true
all_warranted (e ∷ j) = is_warranted e j && all_warranted j

-- A record says that a takeover needs recovery just if its stage is an open one.
unfoldable pub agrees : RecoveryState → Bool
unfolding is_open
agrees s = if is_open s.stage then s.required else not s.required

-- What the stage says of the journal.
unfoldable pub stage_warranted : Stage → List Event → Bool
unfolding router_answers router_was_silent is_stage is_takeover_active
stage_warranted s j =
    (not (is_stage recovery_router_dhcp_restored s) || router_answers j)
    && (not (is_takeover_active s || is_stage recovery_router_dhcp_disabled_confirmed s)
        || router_was_silent j)

unfoldable pub may_open : Action → List Event → Bool
unfolding router_was_silent
may_open start_gateway j = router_was_silent j
may_open reload_gateway j = router_was_silent j
may_open _ j = true

-- A lifecycle operation that may write a stage of the takeover.
unfoldable pub pending_warranted : Option Pending → List Event → Bool
unfolding may_open text_eq agrees
pending_warranted none j = true
pending_warranted (some p) j =
    agrees p.before && (not (text_eq p.topology same_wifi_dhcp) || may_open p.action j)

pub record IsSound (w : World) : Type 0 where
  pub readable_file : readable w.file ≡ true
  pub agreement : agrees (recovery w.file) ≡ true
  pub calls : all_warranted w.journal ≡ true
  pub stage_said : stage_warranted (recovery w.file).stage w.journal ≡ true
  pub operation_said : pending_warranted w.pending w.journal ≡ true
