-- ===== src/Takeover/Ways.antt =====
-- The requests that lead out of each stage of a takeover, where the calls that they make succeed.
use opensurge_fnos.Base.{Bool, Option, [], false, none, refl, some, true, ◌≡◌}
use opensurge_fnos.Exec.{◌>>=◌}
use opensurge_fnos.Takeover.Actions.{
  create_failed_status, guards, handle_gateway_action, kind_text, known_or, launch,
  launch_operation, reload_guards, restart_guards, start_guards,
}
use opensurge_fnos.Takeover.Begin.{
  begin_request_operation, card_answer, check_operation, create_status, discard, discard_answer,
  handle_apply_static, handle_dhcp_probe, handle_recovery, handle_recovery_discard,
  handle_recovery_prepare, none_answers, observed, operation_id, prepared_record, probe,
  same_wifi_dhcp, save_and_finish, some_answer, write_card,
}
use opensurge_fnos.Takeover.End.{
  ended, handle_abandon_takeover, handle_client_validated, handle_client_validation_skip,
  handle_keep_static_finish, handle_manual_recovery_finish, handle_restore_dhcp,
  handle_router_restored, leave_takeover, restore_automatic,
}
use opensurge_fnos.Takeover.Finish.{
  failed_recovery, finish_run, finished_watch, observe_operation, progressed, recovery_after,
  reload_failed_record, reload_is_undone, save_after, start_failed_record, start_is_undone,
  started_record, stopped_record, succeeded_recovery,
}
use opensurge_fnos.Takeover.Stage.{
  Stage, allowed_recovery_transition, is_open, is_stage, is_takeover_active,
  recovery_gateway_stopped, recovery_mac_static, recovery_prepared,
  recovery_router_dhcp_disabled_confirmed, recovery_router_dhcp_restored, stage_number, stage_text,
}
use opensurge_fnos.Takeover.Steps.{answer_request, first_world, respond}
use opensurge_fnos.Takeover.Store.{
  create_error, create_operation, create_refused, discard_prepared, find_operation, load_recovery,
  operation, put_operation, put_recovery, read_recovery, readable, recovery, save_card,
  save_operation, save_recovery, stamped, try_save,
}
use opensurge_fnos.Takeover.Types.{
  RecoveryState, Snapshot, append_recovery_note, competing_ipv6_default, finished, new_operation,
  recovery_at, valid_operation_id,
}
use opensurge_fnos.Takeover.World.{
  Outside, Pending, Request, World, abandon_takeover, check, discard_recovery, do_event,
  finish_static, need, prepare_recovery, refuse, stored,
}
use opensurge_fnos.Text.{Text, text_eq}

-- A preparation gives up the record of the takeover, with its snapshot.
unfoldable pub starts_over : Request → Bool
starts_over (prepare_recovery body) = true
starts_over _ = false

-- Requests other than a preparation, and ends of the lifecycle operation.
pub data Steps : World → World → Type 0 where
  no_step : (w : World) → Steps w w
  by_request :
      (v w : World) (r : Request) (o : Outside)
      → starts_over r ≡ false
      → Steps (answer_request r o v) w
      → Steps v w
  by_end :
      (v w : World) (p : Pending) (o : Outside) (result : Option Text)
      → v.pending ≡ some p
      → Steps (finish_run o p result v).1 w
      → Steps v w

-- Every call succeeds, and no DHCP server answers.
abbrev pub cooperative : Outside
cooperative = record {
  now = 0;
  token = [];
  to4 = λ s. none;
  parses_ip = λ s. false;
  config = some (record { mode = same_wifi_dhcp; interface = []; lan_ip = [] });
  discovered = none;
  pings_router = true;
  dhcp_servers = some [];
  dhcp_is_set = true;
  manual_is_set = true;
  runtime = some none;
  boot = none;
  status = none;
  workspace = none;
  leases = none;
  dns_log = [];
  mihomo_log = [];
  saves_recovery = true;
  saves_recovery_again = true;
  saves_card = true;
  removes_card = true;
  reads_operation = false;
  stats_operation = true;
  saves_operation = true;
  saves_desired = true;
}

-- The takeover can be ended from here.
unfoldable pub CanEnd : World → Type 0
CanEnd v = (w : World) × Steps v w × ((recovery w.file).required ≡ false)

-- A world that holds a record at the stage, with a snapshot, and no operation.
abbrev pub holding : World → RecoveryState → Snapshot → Stage → World
holding w s snapshot c = record w {
  file = stored (record s { stage = c; network_snapshot = some snapshot });
  pending = none;
}

pub one_request :
    (w : World) (r : Request)
    → starts_over r ≡ false
    → (recovery (answer_request r cooperative w).file).required ≡ false
    → CanEnd w
unfolding CanEnd
one_request w r k h =
    let after : World = answer_request r cooperative w in
    (after, by_request w after r cooperative k (no_step after), h)

-- Opens the requests.
unfoldable pub run_ends : Unit {0}
unfolding stage_text stage_number is_stage is_takeover_active allowed_recovery_transition is_open
    competing_ipv6_default recovery_at append_recovery_note valid_operation_id new_operation
    finished refuse check need do_event recovery readable load_recovery read_recovery stamped
    put_recovery try_save save_recovery save_card discard_prepared find_operation put_operation
    save_operation create_error create_refused create_operation operation handle_recovery
    prepared_record card_answer write_card handle_recovery_prepare discard_answer discard
    handle_recovery_discard handle_apply_static create_status operation_id begin_request_operation
    check_operation observed probe none_answers some_answer save_and_finish handle_dhcp_probe
    restore_automatic ended handle_client_validated handle_client_validation_skip
    handle_router_restored handle_manual_recovery_finish handle_keep_static_finish
    handle_restore_dhcp leave_takeover handle_abandon_takeover kind_text known_or start_guards
    reload_guards restart_guards guards launch_operation create_failed_status launch
    handle_gateway_action start_failed_record start_is_undone reload_failed_record reload_is_undone
    failed_recovery started_record stopped_record save_after succeeded_recovery recovery_after
    finished_watch finish_run progressed observe_operation respond answer_request first_world
    text_eq ◌>>=◌ CanEnd starts_over
run_ends = tt

pub prepared_ends :
    (w : World) (s : RecoveryState) (snapshot : Snapshot)
    → CanEnd (holding w s snapshot recovery_prepared)
unfolding run_ends
prepared_ends w s snapshot =
    one_request (holding w s snapshot recovery_prepared) discard_recovery refl refl

pub static_ends :
    (w : World) (s : RecoveryState) (snapshot : Snapshot)
    → CanEnd (holding w s snapshot recovery_mac_static)
unfolding run_ends
static_ends w s snapshot =
    one_request (holding w s snapshot recovery_mac_static) abandon_takeover refl refl

pub confirmed_ends :
    (w : World) (s : RecoveryState) (snapshot : Snapshot)
    → CanEnd (holding w s snapshot recovery_router_dhcp_disabled_confirmed)
unfolding run_ends
confirmed_ends w s snapshot =
    one_request (holding w s snapshot recovery_router_dhcp_disabled_confirmed) abandon_takeover refl
      refl

pub stopped_ends :
    (w : World) (s : RecoveryState) (snapshot : Snapshot)
    → CanEnd (holding w s snapshot recovery_gateway_stopped)
unfolding run_ends
stopped_ends w s snapshot =
    one_request (holding w s snapshot recovery_gateway_stopped) (finish_static (some true)) refl
      refl

pub restored_ends :
    (w : World) (s : RecoveryState) (snapshot : Snapshot)
    → CanEnd (holding w s snapshot recovery_router_dhcp_restored)
unfolding run_ends
restored_ends w s snapshot =
    one_request (holding w s snapshot recovery_router_dhcp_restored) (finish_static (some true))
      refl refl
