-- ===== src/Takeover/Actions.antt =====
-- The lifecycle actions and their operations, which a takeover waits for: handleGatewayAction and
-- runOperation of internal/controlapi/server.go. The runner's work lies between the two.
use opensurge_fnos.Base.{Bool, Option, false, is_some, none, not, some, true, ℕ, ◌||◌, ◌∷◌}
use opensurge_fnos.Exec.{gets, ok, pure, ◌>>=◌, ◌>>◌}
use opensurge_fnos.Gateway.Types.{belongs_to_boot}
use opensurge_fnos.Recovery.Controller.{Controller, begin_manual}
use opensurge_fnos.Recovery.Samples.{stage_allowed}
use opensurge_fnos.Takeover.Begin.{operation_id, same_wifi_dhcp}
use opensurge_fnos.Takeover.Stage.{
  is_stage, is_takeover_active, recovery_router_dhcp_disabled_confirmed, stage_text,
}
use opensurge_fnos.Takeover.Store.{CreateErr, create_operation, load_recovery, operation}
use opensurge_fnos.Takeover.Types.{Operation, RecoveryState, new_operation, valid_operation_id}
use opensurge_fnos.Takeover.World.{
  Action, Config, GatewayStatus, M, Outside, check, launched, need, reload_gateway, restart_mihomo,
  start_gateway, stop_gateway,
}
use opensurge_fnos.Text.{Text, is_empty, text, text_eq}

unfoldable pub kind_text : Action → Text
kind_text start_gateway = text "start"
kind_text stop_gateway = text "stop"
kind_text reload_gateway = text "reload"
kind_text restart_mihomo = text "restart-mihomo"

-- With the rest of the handler for an operation that exists already, or does not.
unfoldable pub known_or : Action → Option Operation → M Operation → M Operation
unfolding check kind_text text_eq
known_or a none launch = launch
known_or a (some op) launch = do
  check (text_eq op.kind (kind_text a)) 409 "operation_id_conflict"
  pure op

unfoldable pub start_guards : Outside → Config → RecoveryState → M (Unit {0})
unfolding check need text_eq is_stage
start_guards o c state = do
  check
      (not (text_eq c.mode same_wifi_dhcp)
        || is_stage recovery_router_dhcp_disabled_confirmed state.stage)
      409 "recovery_precondition"
  gateway ← need o.workspace 422 "policy_workspace_invalid"
  check (text_eq gateway (text "stopped")) 409 "gateway_already_running"

unfoldable interrupted : Option GatewayStatus → Bool
unfolding text_eq
interrupted none = false
interrupted (some s) = text_eq s.runtime_state (text "interrupted")

unfoldable runs : Option GatewayStatus → Bool
unfolding text_eq
runs none = false
runs (some s) = text_eq s.gateway (text "running")

unfoldable pub reload_guards : Outside → Config → RecoveryState → M (Unit {0})
unfolding check interrupted runs is_takeover_active
reload_guards o c state = do
  check (not (interrupted o.status)) 409 "runtime_interrupted"
  check (runs o.status) 409 "gateway_not_running"
  check (not (text_eq c.mode same_wifi_dhcp) || is_takeover_active state.stage) 409
      "recovery_precondition"

unfoldable pub restart_guards : Outside → Config → RecoveryState → M (Unit {0})
unfolding check need belongs_to_boot stage_allowed stage_text
restart_guards o c state = do
  existing ← need o.runtime 500 "runtime_state_invalid"
  current ← need existing 409 "gateway_not_running"
  session ← need o.boot 500 "runtime_state_invalid"
  check (belongs_to_boot current session) 409 "runtime_interrupted"
  check (stage_allowed c.mode (stage_text state.stage)) 409 "recovery_precondition"

unfoldable pub guards : Action → Outside → Config → RecoveryState → M (Unit {0})
unfolding start_guards reload_guards restart_guards
guards start_gateway o c state = start_guards o c state
guards stop_gateway o c state = pure tt
guards reload_gateway o c state = reload_guards o c state
guards restart_mihomo o c state = restart_guards o c state

-- SaveGatewayDesired, whose error is only logged.
unfoldable next_desired : Action → Bool → Option Bool → Option Bool
next_desired start_gateway true desired = some true
next_desired stop_gateway true desired = some false
next_desired _ _ desired = desired

unfoldable next_watch : Action → Controller → Controller
unfolding begin_manual
next_watch restart_mihomo c = begin_manual c
next_watch _ c = c

-- The operation takes the lock over, and runs.
unfoldable pub launch_operation : Outside → Action → Text → RecoveryState → Operation → M Operation
unfolding next_desired next_watch
launch_operation o a topology before op w = (
  ok op,
  record w {
    desired = next_desired a o.saves_desired w.desired;
    watch = next_watch a w.watch;
    pending = some (record { operation = op; action = a; topology = topology; before = before });
    journal = launched a topology ∷ w.journal;
  },
)

unfoldable pub create_failed_status : CreateErr → ℕ
create_failed_status _ = 500

-- The handler from TryLock on.
unfoldable pub launch : Outside → Action → Text → M Operation
unfolding check need load_recovery guards create_operation new_operation kind_text launch_operation
    operation_id create_failed_status
launch o a id = do
  held ← gets λ w. is_some w.pending
  check (not held) 409 "operation_in_progress"
  c ← need o.config 400 "config_invalid"
  state ← load_recovery
  guards a o c state
  create_operation create_failed_status o (new_operation o.now (operation_id o id) (kind_text a))
  launch_operation o a c.mode state (new_operation o.now (operation_id o id) (kind_text a))

unfoldable pub handle_gateway_action : Outside → Action → Text → M Operation
unfolding check operation known_or launch valid_operation_id
handle_gateway_action o a id = do
  check (is_empty id || valid_operation_id id) 400 "invalid_operation_id"
  existing ← gets λ w. operation o id w.operations
  known_or a existing (launch o a id)
