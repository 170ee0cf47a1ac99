-- ===== src/Takeover/Leaving.antt =====
-- The way out of an active takeover, over a stop of the gateway, and that of each stage.
use opensurge_fnos.Base.{
  ap, arith, false, if◌then◌else◌, is_some, none, refl, some, subst, sym, true, ◌<◌, ◌∷◌, ◌≡◌,
}
use opensurge_fnos.Exec.{◌>>◌}
use opensurge_fnos.Takeover.Actions.{create_failed_status, launch_operation}
use opensurge_fnos.Takeover.Begin.{same_wifi_dhcp}
use opensurge_fnos.Takeover.End.{ended}
use opensurge_fnos.Takeover.Finish.{finish_run}
use opensurge_fnos.Takeover.Stage.{
  Stage, is_open, is_stage, other_stage, recovery_client_validated,
  recovery_client_validation_skipped, recovery_complete, recovery_complete_static,
  recovery_gateway_active, recovery_gateway_stopped, recovery_idle, recovery_mac_static,
  recovery_prepared, recovery_router_dhcp_disabled_confirmed, recovery_router_dhcp_restored,
  stage_number,
}
use opensurge_fnos.Takeover.Steps.{answer_request}
use opensurge_fnos.Takeover.Store.{
  create_refused, find_operation, operation_exists, put_operation, save_operation,
}
use opensurge_fnos.Takeover.Types.{Operation, RecoveryState, Snapshot, new_operation}
use opensurge_fnos.Takeover.Ways.{
  CanEnd, by_end, by_request, confirmed_ends, cooperative, holding, one_request, prepared_ends,
  restored_ends, run_ends, starts_over, static_ends, stopped_ends,
}
use opensurge_fnos.Takeover.World.{
  Pending, World, finish_static, launched, received, run_action, stop_gateway, stored,
}
use opensurge_fnos.Text.{text}

abbrev pending_end : RecoveryState → Snapshot → Stage → Pending
pending_end s snapshot c = record {
  operation = new_operation 0 (text "end") (text "stop");
  action = stop_gateway;
  topology = same_wifi_dhcp;
  before = record s { stage = c; network_snapshot = some snapshot };
}

-- The world after a stop that is launched.
abbrev stopping_world : World → RecoveryState → Snapshot → Stage → World
stopping_world w s snapshot c = record w {
  file = stored (record s { stage = c; network_snapshot = some snapshot });
  desired = some false;
  operations = put_operation (new_operation 0 (text "end") (text "stop")) w.operations;
  pending = some (pending_end s snapshot c);
  journal =
      launched stop_gateway same_wifi_dhcp
      ∷ received (run_action stop_gateway (text "end"))
      ∷ w.journal;
}

stop_launched :
    (w : World) (s : RecoveryState) (snapshot : Snapshot) (c : Stage)
    → find_operation (text "end") w.operations ≡ none
    → answer_request (run_action stop_gateway (text "end")) cooperative (holding w s snapshot c)
      ≡ stopping_world w s snapshot c
unfolding run_ends
stop_launched w s snapshot c fresh =
    let op : Operation = new_operation 0 (text "end") (text "stop") in
    let asked : World = record (holding w s snapshot c) {
      journal = received (run_action stop_gateway (text "end")) ∷ w.journal;
    } in
    ap
      (λ x.
        (((create_refused create_failed_status (if is_some x then some operation_exists else none)
              >> save_operation cooperative op)
            >> launch_operation cooperative stop_gateway same_wifi_dhcp
                (record s { stage = c; network_snapshot = some snapshot }) op)
          asked).1)
      fresh

stopping_ends :
    (w : World) (s : RecoveryState) (snapshot : Snapshot) (c : Stage)
    → CanEnd (stopping_world w s snapshot c)
unfolding run_ends
stopping_ends w s snapshot c =
    let w' : World = stopping_world w s snapshot c in
    let v : World = (finish_run cooperative (pending_end s snapshot c) none w').1 in
    let (u, steps, ended) = one_request v (finish_static (some true)) refl refl in
    (u, by_end w' u (pending_end s snapshot c) cooperative none refl steps, ended)

active_ends :
    (w : World) (s : RecoveryState) (snapshot : Snapshot) (c : Stage)
    → find_operation (text "end") w.operations ≡ none
    → CanEnd (holding w s snapshot c)
unfolding CanEnd starts_over
active_ends w s snapshot c fresh =
    let (u, steps, ended) =
      subst CanEnd (sym (stop_launched w s snapshot c fresh)) (stopping_ends w s snapshot c) in
    (
      u,
      by_request (holding w s snapshot c) u (run_action stop_gateway (text "end")) cooperative refl
          steps,
      ended,
    )

pub open_ends :
    (w : World) (s : RecoveryState) (snapshot : Snapshot) (c : Stage)
    → is_open c ≡ true
    → stage_number c < 11
    → find_operation (text "end") w.operations ≡ none
    → CanEnd (holding w s snapshot c)
unfolding is_open is_stage stage_number
open_ends w s snapshot recovery_idle h b fresh = absurd cc
open_ends w s snapshot recovery_prepared h b fresh = prepared_ends w s snapshot
open_ends w s snapshot recovery_mac_static h b fresh = static_ends w s snapshot
open_ends w s snapshot recovery_router_dhcp_disabled_confirmed h b fresh =
    confirmed_ends w s snapshot
open_ends w s snapshot recovery_gateway_active h b fresh =
    active_ends w s snapshot recovery_gateway_active fresh
open_ends w s snapshot recovery_client_validated h b fresh =
    active_ends w s snapshot recovery_client_validated fresh
open_ends w s snapshot recovery_client_validation_skipped h b fresh =
    active_ends w s snapshot recovery_client_validation_skipped fresh
open_ends w s snapshot recovery_gateway_stopped h b fresh = stopped_ends w s snapshot
open_ends w s snapshot recovery_router_dhcp_restored h b fresh = restored_ends w s snapshot
open_ends w s snapshot recovery_complete h b fresh = absurd cc
open_ends w s snapshot recovery_complete_static h b fresh = absurd cc
open_ends w s snapshot (other_stage x) h b fresh = absurd (omega (arith, b))
