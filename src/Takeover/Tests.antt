-- ===== src/Takeover/Tests.antt =====
-- A takeover from its preparation to its end, and what is refused on the way.
use opensurge_fnos.Base.{
  Option, [], arith, false, if◌then◌else◌, is_some, none, refl, some, true, ℕ, ◌<◌, ◌∷◌, ◌≡◌,
}
use opensurge_fnos.Exec.{ok, ◌>>=◌}
use opensurge_fnos.Takeover.Actions.{
  create_failed_status, guards, handle_gateway_action, kind_text, known_or, launch,
  launch_operation, start_guards,
}
use opensurge_fnos.Takeover.Again.{action_again}
use opensurge_fnos.Takeover.Begin.{
  begin_request_operation, card_answer, check_operation, create_status, handle_apply_static,
  handle_dhcp_probe, handle_recovery_prepare, none_answers, observed, operation_id, prepared_record,
  probe, save_and_finish, some_answer, write_card,
}
use opensurge_fnos.Takeover.End.{
  ended, handle_restore_dhcp, handle_router_restored, restore_automatic,
}
use opensurge_fnos.Takeover.Ends.{takeover_ends}
use opensurge_fnos.Takeover.Finish.{
  finish_run, finished_watch, recovery_after, save_after, started_record, stopped_record,
  succeeded_recovery,
}
use opensurge_fnos.Takeover.Manual.{
  manual_config_for_snapshot, mask_size, same_subnet, validate_manual, verify_manual,
}
use opensurge_fnos.Takeover.Sound.{all_warranted}
use opensurge_fnos.Takeover.Sound.Reached.{flag_of_stage, warranted_calls}
use opensurge_fnos.Takeover.Stage.{is_open, is_stage, recovery_complete, stage_number}
use opensurge_fnos.Takeover.Steps.{
  Reachable, answer_request, ask, empty_store, end_operation, first_world, respond, then_step,
}
use opensurge_fnos.Takeover.Store.{
  create_error, create_operation, create_refused, find_operation, load_recovery, operation,
  put_operation, put_recovery, readable, recovery, save_card, save_operation, save_recovery,
  stamped, try_save,
}
use opensurge_fnos.Takeover.Types.{
  Snapshot, finished, new_operation, recovery_at, valid_operation_id,
}
use opensurge_fnos.Takeover.Ways.{Steps}
use opensurge_fnos.Takeover.World.{
  Outside, Pending, World, apply_static, check, do_event, launched, need, prepare_recovery,
  probe_dhcp, probed, received, refuse, restore_dhcp, run_action, set_dhcp, start_gateway,
  stop_gateway, stored, verify_router_restored,
}
use opensurge_fnos.Text.{Text, text, text_eq, trim_space}

abbrev home : Snapshot
home = record {
  network_service = text "Wi-Fi";
  interface = text "en0";
  ipv4_mode = text "manual";
  ipv4 = text "192.168.1.2";
  subnet_mask = text "255.255.255.0";
  router = text "192.168.1.1";
  dns = [];
  ipv6_default = false;
  ipv6_default_self_only = false;
}

abbrev home_address : Text → Option ℕ
home_address s =
    if text_eq s (text "192.168.1.2")
    then some 3232235778
    else if text_eq s (text "192.168.1.1")
    then some 3232235777
    else if text_eq s (text "255.255.255.0")
    then some 4294967040
    else none

-- All goes well, and no DHCP server answers.
abbrev well : Outside
well = record {
  now = 7;
  token = text "op";
  to4 = home_address;
  parses_ip = λ s. is_some (home_address s);
  config = some (record {
    mode = text "same_wifi_dhcp";
    interface = text "en0";
    lan_ip = text "192.168.1.2";
  });
  discovered = some home;
  pings_router = true;
  dhcp_servers = some [];
  dhcp_is_set = true;
  manual_is_set = true;
  runtime = some none;
  boot = none;
  status = none;
  workspace = some (text "stopped");
  leases = none;
  dns_log = [];
  mihomo_log = [];
  saves_recovery = true;
  saves_recovery_again = true;
  saves_card = true;
  removes_card = true;
  reads_operation = true;
  stats_operation = true;
  saves_operation = true;
  saves_desired = true;
}

abbrev router_back : Outside
router_back = record well { dhcp_servers = some (text "192.168.1.1" ∷ []) }

abbrev prepared_world : World
prepared_world = answer_request (prepare_recovery (some [])) well first_world

abbrev fixed : World
fixed = answer_request apply_static well prepared_world

abbrev checked : World
checked = answer_request (probe_dhcp (text "p")) well fixed

abbrev pending_start : Pending
pending_start = record {
  operation = new_operation 7 (text "a") (text "start");
  action = start_gateway;
  topology = text "same_wifi_dhcp";
  before = recovery checked.file;
}

abbrev launched_world : World
launched_world = answer_request (run_action start_gateway (text "a")) well checked

abbrev active : World
active = (finish_run well pending_start none launched_world).1

checked_run : Reachable checked
checked_run =
    then_step
      (then_step (then_step empty_store (ask first_world (prepare_recovery (some [])) well))
        (ask prepared_world apply_static well))
      (ask fixed (probe_dhcp (text "p")) well)

-- Opens the requests.
run_takeover : Unit {0}
unfolding stage_number is_stage recovery_at valid_operation_id new_operation finished refuse check
    need do_event recovery readable load_recovery stamped put_recovery try_save save_recovery
    save_card find_operation put_operation save_operation create_error create_refused
    create_operation operation manual_config_for_snapshot mask_size same_subnet validate_manual
    verify_manual prepared_record card_answer write_card handle_recovery_prepare handle_apply_static
    create_status operation_id begin_request_operation check_operation observed probe none_answers
    some_answer save_and_finish handle_dhcp_probe restore_automatic ended handle_router_restored
    handle_restore_dhcp kind_text known_or start_guards guards launch_operation create_failed_status
    launch handle_gateway_action started_record stopped_record save_after succeeded_recovery
    recovery_after finished_watch finish_run respond answer_request first_world text_eq trim_space
    ◌>>=◌ is_open
run_takeover = tt

launched_pending : launched_world.pending ≡ some pending_start
unfolding run_takeover
launched_pending = refl

abbrev stopping : World
stopping = answer_request (run_action stop_gateway (text "z")) well active

abbrev pending_stop : Pending
pending_stop = record {
  operation = new_operation 7 (text "z") (text "stop");
  action = stop_gateway;
  topology = text "same_wifi_dhcp";
  before = recovery active.file;
}

stopping_pending : stopping.pending ≡ some pending_stop
unfolding run_takeover
stopping_pending = refl

abbrev stopped : World
stopped = (finish_run well pending_stop none stopping).1

abbrev verified : World
verified = answer_request (verify_router_restored (text "v")) router_back stopped

abbrev restored : World
restored = answer_request restore_dhcp well verified

verified_run : Reachable verified
verified_run =
    then_step
      (then_step
        (then_step
          (then_step
            (then_step checked_run (ask checked (run_action start_gateway (text "a")) well))
            (end_operation launched_world pending_start well none launched_pending))
          (ask active (run_action stop_gateway (text "z")) well))
        (end_operation stopping pending_stop well none stopping_pending))
      (ask stopped (verify_router_restored (text "v")) router_back)

restored_journal :
    (restored.journal
      ≡ set_dhcp (text "Wi-Fi")
        ∷ received restore_dhcp
        ∷ probed (text "192.168.1.1" ∷ [])
        ∷ received (verify_router_restored (text "v"))
        ∷ launched stop_gateway (text "same_wifi_dhcp")
        ∷ received (run_action stop_gateway (text "z"))
        ∷ active.journal)
    × ((recovery restored.file).stage ≡ recovery_complete)
unfolding run_takeover
restored_journal = (refl, refl)

flag_of_stage_example :
    (readable verified.file ≡ true)
    × ((recovery verified.file).required ≡ is_open (recovery verified.file).stage)
flag_of_stage_example = flag_of_stage verified verified_run

warranted_calls_example : all_warranted restored.journal ≡ true
warranted_calls_example =
    warranted_calls restored (then_step verified_run (ask verified restore_dhcp well))

-- The active takeover, as it is recorded.
active_record :
    (active.file ≡ stored (recovery active.file))
    × ((recovery active.file).network_snapshot ≡ some home)
    × (is_open (recovery active.file).stage ≡ true)
    × (active.pending ≡ none)
    × (find_operation (text "end") active.operations ≡ none)
unfolding run_takeover
active_record = (refl, refl, refl, refl, refl)

active_number : stage_number (recovery active.file).stage < 11
unfolding run_takeover
active_number = omega arith

takeover_ends_example : (w : World) × Steps active w × ((recovery w.file).required ≡ false)
takeover_ends_example =
    takeover_ends active (recovery active.file) home active_record.0 active_record.1 active_record.2
      active_number active_record.3 active_record.4

started :
    (handle_gateway_action well start_gateway (text "a") checked).0 ≡ ok pending_start.operation
unfolding run_takeover
started = refl

action_again_example :
    (let w = (handle_gateway_action well start_gateway (text "a") checked).1 in
      handle_gateway_action router_back start_gateway (text "a") w
      ≡ (ok pending_start.operation, w))
action_again_example =
    action_again well router_back start_gateway (text "a") pending_start.operation checked refl refl
      started
