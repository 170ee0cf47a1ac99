-- ===== src/Takeover/Steps.antt =====
-- The control server as a step relation, for clients that wait for an answer before they ask
-- again: no request overlaps another. The lifecycle operation reports and ends between any two
-- requests, and not during one. The handlers hold no lock from their reading of the record to
-- their writing, so nothing here is about requests that do overlap with each other or with the
-- end of an operation.
use opensurge_fnos.Base.{Option, [], none, some, ◌∷◌, ◌≡◌}
use opensurge_fnos.Recovery.Controller.{new_controller}
use opensurge_fnos.Takeover.Actions.{handle_gateway_action}
use opensurge_fnos.Takeover.Begin.{
  handle_apply_static, handle_dhcp_probe, handle_recovery, handle_recovery_discard,
  handle_recovery_prepare,
}
use opensurge_fnos.Takeover.End.{
  handle_abandon_takeover, handle_client_validated, handle_client_validation_skip,
  handle_keep_static_finish, handle_manual_recovery_finish, handle_restore_dhcp,
  handle_router_restored,
}
use opensurge_fnos.Takeover.Finish.{finish_run, observe_operation}
use opensurge_fnos.Takeover.World.{
  Outside, Pending, Request, World, abandon_takeover, absent, accept_client, apply_static,
  discard_recovery, finish_manually, finish_static, prepare_recovery, probe_dhcp, received,
  restore_dhcp, run_action, skip_validation, update_notes, verify_router_restored,
}
use opensurge_fnos.Text.{Text}

unfoldable pub respond : Request → Outside → World → World
unfolding handle_recovery handle_recovery_prepare handle_recovery_discard handle_abandon_takeover
    handle_apply_static handle_restore_dhcp handle_dhcp_probe handle_router_restored
    handle_client_validated handle_client_validation_skip handle_manual_recovery_finish
    handle_keep_static_finish handle_gateway_action
respond (update_notes body) o w = (handle_recovery o body w).1
respond (prepare_recovery body) o w = (handle_recovery_prepare o body w).1
respond discard_recovery o w = (handle_recovery_discard o w).1
respond abandon_takeover o w = (handle_abandon_takeover o w).1
respond apply_static o w = (handle_apply_static o w).1
respond restore_dhcp o w = (handle_restore_dhcp o w).1
respond (probe_dhcp id) o w = (handle_dhcp_probe o id w).1
respond (verify_router_restored id) o w = (handle_router_restored o id w).1
respond (accept_client body) o w = (handle_client_validated o body w).1
respond (skip_validation body) o w = (handle_client_validation_skip o body w).1
respond (finish_manually body) o w = (handle_manual_recovery_finish o body w).1
respond (finish_static body) o w = (handle_keep_static_finish o body w).1
respond (run_action a id) o w = (handle_gateway_action o a id w).1

-- A request is entered in the journal, and answered.
unfoldable pub answer_request : Request → Outside → World → World
unfolding respond
answer_request r o w = respond r o (record w { journal = received r ∷ w.journal })

pub data Step : World → World → Type 0 where
  -- A request from its arrival to its answer, with nothing else in between.
  ask : (w : World) (r : Request) (o : Outside) → Step w (answer_request r o w)
  report_progress :
      (w : World) (p : Pending) (o : Outside) (phase notice : Text)
      → w.pending ≡ some p
      → Step w (observe_operation o phase notice p w).1
  end_operation :
      (w : World) (p : Pending) (o : Outside) (result : Option Text)
      → w.pending ≡ some p
      → Step w (finish_run o p result w).1

unfoldable pub first_world : World
unfolding new_controller
first_world = record {
  file = absent;
  card = none;
  operations = [];
  desired = none;
  watch = new_controller;
  pending = none;
  journal = [];
}

-- The worlds that a server with an empty store can come to while no request overlaps another,
-- nor the end of a lifecycle operation.
pub data Reachable : World → Type 0 where
  empty_store : Reachable first_world
  then_step : {v w : World} → Reachable v → Step v w → Reachable w
