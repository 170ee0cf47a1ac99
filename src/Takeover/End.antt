-- ===== src/Takeover/End.antt =====
-- The requests from the takeover to its end: the evidence of a client, the router's DHCP restored,
-- the ways back to automatic DHCP, and abandonment, after internal/controlapi/server.go.
use opensurge_fnos.Base.{
  Bool, List, Option, [], false, is_some, none, not, some, true, ◌&&◌, ◌++◌, ◌||◌, ◌∷◌,
}
use opensurge_fnos.Exec.{◌>>=◌, ◌>>◌}
use opensurge_fnos.Takeover.Begin.{
  begin_request_operation, check_operation, probe, same_wifi_dhcp, save_and_finish, some_answer,
}
use opensurge_fnos.Takeover.Manual.{validate_client_acceptance}
use opensurge_fnos.Takeover.Stage.{
  Stage, is_stage, recovery_client_validated, recovery_client_validation_skipped, recovery_complete,
  recovery_complete_static, recovery_gateway_active, recovery_gateway_stopped, recovery_mac_static,
  recovery_router_dhcp_disabled_confirmed, recovery_router_dhcp_restored,
}
use opensurge_fnos.Takeover.Store.{load_recovery, read_recovery, save_recovery}
use opensurge_fnos.Takeover.Types.{
  RecoveryState, Snapshot, append_recovery_note, competing_ipv6_default,
}
use opensurge_fnos.Takeover.World.{ClientAcceptance, M, Outside, check, do_event, need, set_dhcp}
use opensurge_fnos.Text.{Text, text, text_eq}

abbrev skip_note : Text
skip_note =
    text "client DHCP, DNS and TUN acceptance explicitly skipped by operator; "
    ++ text "no client-path validation evidence was collected"

abbrev pub manual_note : Text
manual_note =
    text "router DHCP manually confirmed; OFFER evidence skipped; Mac restored to automatic DHCP"

abbrev static_note : Text
static_note =
    text "post-stop router DHCP verification and Mac automatic DHCP restore "
    ++ text "explicitly skipped by operator; Mac kept static IPv4"

abbrev abandoned_note : Text
abandoned_note =
    text
      "DHCP takeover abandoned; a DHCP server answered and the Mac was restored to automatic DHCP"

abbrev unverified_note : Text
unverified_note =
    text "DHCP takeover abandoned while no DHCP server answered; the Mac remains on fixed IPv4 "
    ++ text "and router DHCP availability was not verified"

abbrev client_note : Text → Text
client_note ip =
    text "client "
    ++ ip
    ++ text ": DHCP ACK, DNS and TUN source observed; "
    ++ text "gateway/DNS and no explicit proxy confirmed"

unfoldable warned : Option Snapshot → Bool
unfolding competing_ipv6_default
warned none = false
warned (some s) = competing_ipv6_default s

-- SetDHCP on a network service.
unfoldable pub restore_automatic : Outside → Text → M (Unit {0})
unfolding check do_event
restore_automatic o service = do
  do_event (set_dhcp service)
  check o.dhcp_is_set 502 "restore_dhcp_failed"

-- The record of an end.
unfoldable pub ended : Stage → RecoveryState → RecoveryState
ended s state = record state { stage = s; required = false }

unfoldable pub handle_client_validated : Outside → Option ClientAcceptance → M RecoveryState
unfolding need load_recovery check save_recovery validate_client_acceptance warned is_stage
handle_client_validated o body = do
  state ← load_recovery
  check (is_stage recovery_gateway_active state.stage) 409 "recovery_precondition"
  request ← need body 400 "invalid_request"
  check (request.gateway_dns_confirmed && request.no_explicit_proxy_confirmed) 422
      "client_confirmation_required"
  check (not (warned state.network_snapshot) || request.ipv6_bypass_warning_confirmed) 422
      "ipv6_warning_unacknowledged"
  c ← need o.config 400 "config_invalid"
  check (validate_client_acceptance o request.client_ipv4) 422 "client_acceptance_failed"
  save_recovery o (record state {
    stage = recovery_client_validated;
    client_validation_skipped = false;
    recovery_notes = client_note request.client_ipv4;
    required = true;
  })

unfoldable pub handle_client_validation_skip : Outside → Option Bool → M RecoveryState
unfolding need load_recovery check save_recovery append_recovery_note is_stage
handle_client_validation_skip o body = do
  confirmed ← need body 400 "invalid_request"
  check confirmed 422 "skip_confirmation_required"
  state ← load_recovery
  check (is_stage recovery_gateway_active state.stage) 409 "recovery_precondition"
  save_recovery o (
      append_recovery_note skip_note (record state {
        stage = recovery_client_validation_skipped;
        client_validation_skipped = true;
        required = true;
      }))

unfoldable pub handle_router_restored : Outside → Text → M RecoveryState
unfolding load_recovery check need begin_request_operation probe check_operation some_answer
    save_and_finish is_stage
handle_router_restored o id = do
  state ← load_recovery
  check (is_stage recovery_gateway_stopped state.stage) 409 "recovery_precondition"
  snapshot ← need state.network_snapshot 409 "recovery_precondition"
  op ← begin_request_operation o id "router-dhcp-restored"
  servers ← probe o
  check_operation (is_some servers) o op 502 "dhcp_probe_failed"
  check_operation (some_answer servers) o op 409 "router_dhcp_missing"
  save_and_finish o op (record state { stage = recovery_router_dhcp_restored; required = true })

unfoldable pub handle_manual_recovery_finish : Outside → Option Bool → M RecoveryState
unfolding need check load_recovery restore_automatic save_recovery append_recovery_note ended
    is_stage
handle_manual_recovery_finish o body = do
  confirmed ← need body 400 "invalid_request"
  check confirmed 422 "manual_confirmation_required"
  state ← load_recovery
  check (is_stage recovery_gateway_stopped state.stage) 409 "recovery_precondition"
  snapshot ← need state.network_snapshot 409 "recovery_precondition"
  restore_automatic o snapshot.network_service
  save_recovery o (ended recovery_complete (append_recovery_note manual_note state))

unfoldable pub handle_keep_static_finish : Outside → Option Bool → M RecoveryState
unfolding need check load_recovery save_recovery append_recovery_note ended is_stage
handle_keep_static_finish o body = do
  confirmed ← need body 400 "invalid_request"
  check confirmed 422 "keep_static_confirmation_required"
  state ← load_recovery
  check
      (is_stage recovery_gateway_stopped state.stage
        || is_stage recovery_router_dhcp_restored state.stage)
      409 "recovery_precondition"
  snapshot ← need state.network_snapshot 409 "recovery_precondition"
  save_recovery o (ended recovery_complete_static (append_recovery_note static_note state))

unfoldable pub handle_restore_dhcp : Outside → M RecoveryState
unfolding load_recovery check need restore_automatic save_recovery ended is_stage
handle_restore_dhcp o = do
  state ← load_recovery
  check (is_stage recovery_router_dhcp_restored state.stage) 409 "recovery_precondition"
  snapshot ← need state.network_snapshot 409 "recovery_precondition"
  restore_automatic o snapshot.network_service
  save_recovery o (ended recovery_complete state)

-- What an abandonment writes, after the probe has named `servers`: the Mac goes back to automatic
-- DHCP just if one answers.
unfoldable pub leave_takeover : Outside → Snapshot → RecoveryState → List Text → M RecoveryState
unfolding append_recovery_note ended restore_automatic save_recovery
leave_takeover o snapshot state [] =
    save_recovery o (ended recovery_complete_static (append_recovery_note unverified_note state))
leave_takeover o snapshot state (s ∷ servers) = do
  restore_automatic o snapshot.network_service
  save_recovery o (ended recovery_complete (append_recovery_note abandoned_note state))

unfoldable pub handle_abandon_takeover : Outside → M RecoveryState
unfolding read_recovery check need probe leave_takeover is_stage
handle_abandon_takeover o = do
  state ← read_recovery
  check
      (is_stage recovery_mac_static state.stage
        || is_stage recovery_router_dhcp_disabled_confirmed state.stage)
      409 "recovery_precondition"
  snapshot ← need state.network_snapshot 409 "recovery_snapshot_missing"
  c ← need o.config 400 "config_invalid"
  check (text_eq c.mode same_wifi_dhcp) 409 "same_wifi_config_required"
  existing ← need o.runtime 500 "runtime_state_invalid"
  check (not (is_some existing)) 409 "gateway_still_active"
  answer ← probe o
  servers ← need answer 502 "dhcp_probe_failed"
  leave_takeover o snapshot state servers
