-- ===== src/Takeover/Finish.antt =====
-- The end of a lifecycle operation, and what it reports before: runOperation, its failure records
-- and observeOperation of internal/controlapi.
use opensurge_fnos.Base.{
  Bool, List, Option, [], false, if◌then◌else◌, is_some, none, not, some, true, ℕ, ◌&&◌, ◌++◌, ◌||◌,
  ◌∷◌,
}
use opensurge_fnos.Exec.{ok, pure, when◌run◌otherwise◌, ◌>>=◌, ◌>>◌}
use opensurge_fnos.Gateway.Types.{State}
use opensurge_fnos.Recovery.Controller.{Controller, finish_manual}
use opensurge_fnos.Takeover.Begin.{same_wifi_dhcp}
use opensurge_fnos.Takeover.Stage.{
  is_stage, recovery_gateway_active, recovery_gateway_stopped,
  recovery_router_dhcp_disabled_confirmed,
}
use opensurge_fnos.Takeover.Store.{load_recovery, save_operation, try_save}
use opensurge_fnos.Takeover.Types.{Operation, RecoveryState, append_recovery_note, finished}
use opensurge_fnos.Takeover.World.{
  Action, M, Outside, Pending, reload_gateway, restart_mihomo, start_gateway, stop_gateway,
}
use opensurge_fnos.Text.{Text, contains, is_empty, text, text_eq}

abbrev rolled_back_note : Text
rolled_back_note =
    text
      "gateway start failed and runtime changes were rolled back; router DHCP may remain disabled; "
    ++ text "resolve the error and retry, or abandon takeover and recover the LAN: "

abbrev reload_note : Text
reload_note =
    text "gateway reload failed after services stopped; router DHCP remains disabled; "
    ++ text "retry start or recover the LAN"

-- LoadState succeeds and there is no state file.
unfoldable runtime_is_gone : Option (Option State) → Bool
runtime_is_gone (some none) = true
runtime_is_gone _ = false

-- The record of recordStartRecoveryFailure, and when it is written.
unfoldable pub start_failed_record : Pending → Text → RecoveryState
unfolding append_recovery_note
start_failed_record p e =
    append_recovery_note (rolled_back_note ++ e) (record (p.before) { required = true })

unfoldable pub start_is_undone : Outside → Pending → Bool
unfolding text_eq is_stage runtime_is_gone
start_is_undone o p =
    text_eq p.topology same_wifi_dhcp
    && is_stage recovery_router_dhcp_disabled_confirmed p.before.stage
    && is_some o.config
    && runtime_is_gone o.runtime

-- The record of recordReloadRecoveryFailure, and when it is written.
unfoldable pub reload_failed_record : Pending → RecoveryState
unfolding append_recovery_note
reload_failed_record p = append_recovery_note reload_note (record (p.before) {
  topology = p.topology;
  stage = recovery_router_dhcp_disabled_confirmed;
  required = true;
})

unfoldable pub reload_is_undone : Outside → Pending → Text → Bool
unfolding text_eq contains runtime_is_gone
reload_is_undone o p e =
    text_eq p.topology same_wifi_dhcp
    && not (contains e (text "reload stop failed"))
    && is_some o.config
    && is_some o.runtime
    && (contains e (text "reload start failed after gateway stop") || runtime_is_gone o.runtime)

unfoldable pub failed_recovery : Outside → Pending → Text → Action → M (Unit {0})
unfolding try_save start_is_undone start_failed_record reload_is_undone reload_failed_record
failed_recovery o p e start_gateway =
    when start_is_undone o p
    run try_save o.saves_recovery o.now (start_failed_record p e)
    otherwise pure tt
failed_recovery o p e reload_gateway =
    when reload_is_undone o p e
    run try_save o.saves_recovery o.now (reload_failed_record p)
    otherwise pure tt
failed_recovery o p e _ = pure tt

unfoldable pub started_record : Text → RecoveryState → RecoveryState
started_record topology s = record s {
  topology = topology;
  stage = recovery_gateway_active;
  client_validation_skipped = false;
  required = true;
}

unfoldable pub stopped_record : Text → RecoveryState → RecoveryState
stopped_record topology s = record s {
  topology = topology;
  stage = recovery_gateway_stopped;
  required = true;
}

-- The write after a start or a stop that has succeeded.
unfoldable pub save_after : Outside → Action → Text → RecoveryState → M (Unit {0})
unfolding try_save started_record stopped_record
save_after o start_gateway topology s = try_save o.saves_recovery o.now (started_record topology s)
save_after o stop_gateway topology s = try_save o.saves_recovery o.now (stopped_record topology s)
save_after o _ topology s = pure tt

unfoldable pub succeeded_recovery : Outside → Pending → M (Unit {0})
unfolding load_recovery save_after text_eq
succeeded_recovery o p =
    when text_eq p.topology same_wifi_dhcp
    run load_recovery >>= (λ state. save_after o p.action p.topology state)
    otherwise pure tt

unfoldable pub recovery_after : Outside → Pending → Option Text → M (Unit {0})
unfolding failed_recovery succeeded_recovery
recovery_after o p (some e) = failed_recovery o p e p.action
recovery_after o p none = succeeded_recovery o p

unfoldable pub finished_watch : Action → Option Text → Controller → Controller
unfolding finish_manual
finished_watch restart_mihomo result c = finish_manual result c
finished_watch _ result c = c

-- runOperation from the runner's result on, which is `none` for no error; the lock is free then.
unfoldable pub finish_run : Outside → Pending → Option Text → M (Unit {0})
unfolding recovery_after save_operation finished finished_watch
finish_run o p result = do
  recovery_after o p result
  save_operation o (finished o.now result p.operation)
  λ w. (ok tt, record w { watch = finished_watch p.action result w.watch; pending = none })

unfoldable next_phase : Text → Text → Text
unfolding text_eq
next_phase reported phase = if is_empty reported || text_eq reported phase then phase else reported

unfoldable contains_text : Text → List Text → Bool
unfolding text_eq
contains_text s [] = false
contains_text s (t ∷ ts) = text_eq s t || contains_text s ts

-- The operation with a report of progress, and whether that changes it.
unfoldable pub progressed : ℕ → Text → Text → Operation → Operation × Bool
unfolding next_phase contains_text text_eq
progressed now phase notice op =
    let phase_is_new = not (is_empty phase) && not (text_eq phase op.phase) in
    let notice_is_new = not (is_empty notice) && not (contains_text notice op.notices) in
    (
      record op {
        phase = next_phase phase op.phase;
        notices = if notice_is_new then op.notices ++ notice ∷ [] else op.notices;
        updated_at = if phase_is_new || notice_is_new then now else op.updated_at;
      },
      phase_is_new || notice_is_new,
    )

-- The observer of observeOperation, on the operation that runs.
unfoldable pub observe_operation : Outside → Text → Text → Pending → M (Unit {0})
unfolding progressed save_operation
observe_operation o phase notice p =
    let (op, changed) = progressed o.now phase notice p.operation in
    when changed
    run (λ w. (ok tt, record w { pending = some (record p { operation = op }) }))
      >> save_operation o op
    otherwise pure tt
