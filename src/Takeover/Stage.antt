-- ===== src/Takeover/Stage.antt =====
-- The stages of a takeover, the constants Recovery… of internal/controlapi/models.go. The record
-- keeps a string: any other string is `other_stage`.
use opensurge_fnos.Base.{Bool, [], not, ℕ, ◌&&◌, ◌==◌, ◌||◌}
use opensurge_fnos.Text.{Text, text, text_eq}

pub data Stage : Type 0 where
  recovery_idle recovery_prepared recovery_mac_static recovery_router_dhcp_disabled_confirmed
        recovery_gateway_active recovery_client_validated recovery_client_validation_skipped
        recovery_gateway_stopped recovery_router_dhcp_restored recovery_complete
        recovery_complete_static :
      Stage
  other_stage : Text → Stage

unfoldable pub stage_text : Stage → Text
stage_text recovery_idle = text "idle"
stage_text recovery_prepared = text "prepared"
stage_text recovery_mac_static = text "mac_static"
stage_text recovery_router_dhcp_disabled_confirmed = text "router_dhcp_disabled_confirmed"
stage_text recovery_gateway_active = text "gateway_active"
stage_text recovery_client_validated = text "client_validated"
stage_text recovery_client_validation_skipped = text "client_validation_skipped"
stage_text recovery_gateway_stopped = text "gateway_stopped_waiting_router_dhcp"
stage_text recovery_router_dhcp_restored = text "router_dhcp_restored"
stage_text recovery_complete = text "complete"
stage_text recovery_complete_static = text "complete_static"
stage_text (other_stage s) = s

-- The place of a constant in the list, to compare stages by.
unfoldable pub stage_number : Stage → ℕ
stage_number recovery_idle = 0
stage_number recovery_prepared = 1
stage_number recovery_mac_static = 2
stage_number recovery_router_dhcp_disabled_confirmed = 3
stage_number recovery_gateway_active = 4
stage_number recovery_client_validated = 5
stage_number recovery_client_validation_skipped = 6
stage_number recovery_gateway_stopped = 7
stage_number recovery_router_dhcp_restored = 8
stage_number recovery_complete = 9
stage_number recovery_complete_static = 10
stage_number (other_stage s) = 11

-- The comparison of a stage with one of the constants.
unfoldable pub is_stage : Stage → Stage → Bool
unfolding stage_number
is_stage constant s = stage_number constant == stage_number s

-- A reload or a restart keeps to these, besides mihomoRecoveryStageAllowed.
unfoldable pub is_takeover_active : Stage → Bool
unfolding is_stage
is_takeover_active s =
    is_stage recovery_gateway_active s
    || is_stage recovery_client_validated s
    || is_stage recovery_client_validation_skipped s

-- The map `allowed`.
unfoldable allowed : Stage → Text
unfolding stage_text
allowed recovery_prepared = stage_text recovery_mac_static
allowed recovery_mac_static = stage_text recovery_router_dhcp_disabled_confirmed
allowed recovery_router_dhcp_disabled_confirmed = stage_text recovery_gateway_active
allowed recovery_gateway_stopped = stage_text recovery_router_dhcp_restored
allowed recovery_router_dhcp_restored = stage_text recovery_complete
allowed _ = []

-- allowedRecoveryTransition, whose map has five entries and "" for every other stage.
unfoldable pub allowed_recovery_transition : Stage → Stage → Bool
unfolding is_stage allowed stage_text text_eq
allowed_recovery_transition from to =
    (is_stage recovery_prepared to
      && (is_stage recovery_idle from
          || is_stage recovery_complete from
          || is_stage recovery_complete_static from))
    || (is_stage recovery_gateway_active from
        && (is_stage recovery_client_validated to
            || is_stage recovery_client_validation_skipped to))
    || ((is_stage recovery_client_validated from
          || is_stage recovery_client_validation_skipped from)
        && is_stage recovery_gateway_stopped to)
    || ((is_stage recovery_gateway_stopped from || is_stage recovery_router_dhcp_restored from)
        && is_stage recovery_complete_static to)
    || text_eq (allowed from) (stage_text to)

-- A takeover is open from its preparation to its end.
unfoldable pub is_open : Stage → Bool
unfolding is_stage
is_open s = not (
    is_stage recovery_idle s || is_stage recovery_complete s || is_stage recovery_complete_static s)
