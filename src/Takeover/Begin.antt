-- ===== src/Takeover/Begin.antt =====
-- The requests up to the takeover: notes, preparation, discarding, the fixed IPv4 of the Mac and
-- the probe for the router's DHCP, after the handlers of internal/controlapi/server.go.
use opensurge_fnos.Base.{
  Bool, List, Option, String, [], false, if◌then◌else◌, is_some, none, some, true, ℕ, ◌∷◌,
}
use opensurge_fnos.Exec.{Result, ok, pure, when◌run◌otherwise◌, ◌>>=◌, ◌>>◌}
use opensurge_fnos.Takeover.Manual.{manual_config_for_snapshot, validate_manual, verify_manual}
use opensurge_fnos.Takeover.Stage.{
  is_stage, recovery_idle, recovery_mac_static, recovery_prepared,
  recovery_router_dhcp_disabled_confirmed,
}
use opensurge_fnos.Takeover.Store.{
  CreateErr, create_operation, discard_prepared, load_recovery, operation_exists, put_recovery,
  read_recovery, save_card, save_operation, save_recovery, try_save,
}
use opensurge_fnos.Takeover.Types.{
  ManualConfig, Operation, RecoveryState, Snapshot, finished, new_operation, recovery_at,
  valid_operation_id,
}
use opensurge_fnos.Takeover.World.{
  Config, M, Outside, Refusal, World, check, do_event, need, probed, refuse, set_manual,
}
use opensurge_fnos.Text.{Text, is_empty, text, text_eq}

abbrev pub same_wifi_dhcp : Text
same_wifi_dhcp = text "same_wifi_dhcp"

-- handleRecovery, on a PUT.
unfoldable pub handle_recovery : Outside → Option Text → M RecoveryState
unfolding load_recovery save_recovery need
handle_recovery o body = do
  notes ← need body 400 "invalid_request"
  current ← load_recovery
  save_recovery o (record current { recovery_notes = notes })

unfoldable pub prepared_record : Config → Snapshot → RecoveryState
prepared_record c s = record {
  schema_version = 1;
  stage = recovery_prepared;
  topology = c.mode;
  network_service = s.network_service;
  original_ipv4 = s.ipv4;
  original_router = s.router;
  recovery_notes = [];
  network_snapshot = some s;
  client_validation_skipped = false;
  required = true;
  updated_at = 0;
}

unfoldable pub card_answer :
    Outside → Config → RecoveryState → Bool × World → Result Refusal RecoveryState × World
unfolding put_recovery recovery_at refuse
card_answer o c s (true, w) = (ok s, w)
card_answer o c s (false, w) =
    refuse 500 "recovery_card_failed"
      (put_recovery o.saves_recovery_again o.now (recovery_at recovery_idle c.mode) w)

-- SaveRecoveryCard; if it fails, the record goes back to idle, as far as that write succeeds.
unfoldable pub write_card : Outside → Config → RecoveryState → M RecoveryState
unfolding save_card card_answer
write_card o c s w = card_answer o c s (save_card o s.network_snapshot w)

unfoldable pub handle_recovery_prepare : Outside → Option Text → M RecoveryState
unfolding need check save_recovery write_card validate_manual manual_config_for_snapshot
    prepared_record
handle_recovery_prepare o body = do
  c ← need o.config 400 "config_invalid"
  check (text_eq c.mode same_wifi_dhcp) 409 "same_wifi_config_required"
  service ← need body 400 "invalid_request"
  snapshot ← need o.discovered 422 "network_discovery_failed"
  check (validate_manual o (manual_config_for_snapshot c snapshot)) 422 "static_config_invalid"
  s ← save_recovery o (prepared_record c snapshot)
  write_card o c s

unfoldable pub discard_answer : Bool × World → Result Refusal RecoveryState × World
unfolding load_recovery refuse
discard_answer (true, w) = load_recovery w
discard_answer (false, w) = refuse 500 "recovery_discard_failed" w

-- DiscardPreparedRecovery, and the record that is read again for the answer.
unfoldable pub discard : Outside → Text → M RecoveryState
unfolding discard_prepared discard_answer
discard o topology w = discard_answer (discard_prepared o topology w)

unfoldable pub handle_recovery_discard : Outside → M RecoveryState
unfolding read_recovery check discard is_stage
handle_recovery_discard o = do
  state ← read_recovery
  check (is_stage recovery_prepared state.stage) 409 "recovery_precondition"
  discard o state.topology

-- Whether the Mac now has the fixed address, after discoverNetwork and VerifyManual.
unfoldable applied : Option Snapshot → ManualConfig → Bool
unfolding verify_manual
applied none manual = false
applied (some current) manual = verify_manual current manual

unfoldable pub handle_apply_static : Outside → M RecoveryState
unfolding need load_recovery check do_event save_recovery applied manual_config_for_snapshot
    is_stage
handle_apply_static o = do
  c ← need o.config 400 "config_invalid"
  state ← load_recovery
  check (is_stage recovery_prepared state.stage) 409 "recovery_precondition"
  snapshot ← need state.network_snapshot 409 "recovery_precondition"
  do_event (set_manual (manual_config_for_snapshot c snapshot))
  check o.manual_is_set 502 "set_static_failed"
  check (applied o.discovered (manual_config_for_snapshot c snapshot)) 502 "static_ipv4_not_applied"
  check o.pings_router 502 "upstream_unreachable"
  save_recovery o (record state { stage = recovery_mac_static; required = true })

unfoldable pub create_status : CreateErr → ℕ
create_status operation_exists = 409
create_status _ = 500

unfoldable pub operation_id : Outside → Text → Text
operation_id o id = if is_empty id then o.token else id

-- beginRequestOperation.
unfoldable pub begin_request_operation : Outside → Text → String → M Operation
unfolding check create_operation new_operation valid_operation_id operation_id create_status
begin_request_operation o id kind = do
  check (valid_operation_id (operation_id o id)) 400 "invalid_operation_id"
  create_operation create_status o (new_operation o.now (operation_id o id) (text kind))
  pure (new_operation o.now (operation_id o id) (text kind))

-- An error answer of a handler that has begun an operation, which ends with the same error.
unfoldable pub check_operation : Bool → Outside → Operation → ℕ → String → M (Unit {0})
unfolding refuse save_operation finished
check_operation b o op status code =
    when b
    run pure tt
    otherwise (save_operation o (finished o.now (some (text code)) op) >> refuse status code)

unfoldable pub observed : Option (List Text) → M (Option (List Text))
unfolding do_event
observed none = pure none
observed (some servers) = do_event (probed servers) >> pure (some servers)

-- ProbeDHCP, whose answer is recorded.
unfoldable pub probe : Outside → M (Option (List Text))
unfolding observed
probe o = observed o.dhcp_servers

unfoldable pub none_answers : Option (List Text) → Bool
none_answers (some []) = true
none_answers _ = false

unfoldable pub some_answer : Option (List Text) → Bool
some_answer (some (s ∷ servers)) = true
some_answer _ = false

-- The record's write, and the end of the operation after it.
unfoldable pub save_and_finish : Outside → Operation → RecoveryState → M RecoveryState
unfolding try_save check_operation save_operation finished
save_and_finish o op s = do
  try_save o.saves_recovery o.now s
  check_operation o.saves_recovery o op 500 "recovery_write_failed"
  save_operation o (finished o.now none op)
  pure s

unfoldable pub handle_dhcp_probe : Outside → Text → M RecoveryState
unfolding need load_recovery check begin_request_operation probe check_operation none_answers
    save_and_finish is_stage
handle_dhcp_probe o id = do
  c ← need o.config 400 "config_invalid"
  state ← load_recovery
  check (is_stage recovery_mac_static state.stage) 409 "recovery_precondition"
  op ← begin_request_operation o id "dhcp-probe"
  servers ← probe o
  check_operation (is_some servers) o op 502 "dhcp_probe_failed"
  check_operation (none_answers servers) o op 409 "competing_dhcp"
  save_and_finish o op
      (record state { stage = recovery_router_dhcp_disabled_confirmed; required = true })
