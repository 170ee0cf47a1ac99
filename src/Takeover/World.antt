-- ===== src/Takeover/World.antt =====
-- The control server's store and what it has done to the network, and what the rest of the
-- program answers to one request.
use opensurge_fnos.Base.{Bool, List, Option, String, none, some, ℕ, ◌∷◌}
use opensurge_fnos.Exec.{Exec, ok, pure, raise, when◌run◌otherwise◌}
use opensurge_fnos.Gateway.Types.{BootSession, State}
use opensurge_fnos.Recovery.Controller.{Controller}
use opensurge_fnos.Takeover.Types.{ManualConfig, Operation, RecoveryState, Snapshot}
use opensurge_fnos.Text.{Text, text}

-- recovery.json. A file that cannot be read leaves a partly decoded record beside the error.
pub data File : Type 0 where
  absent : File
  unreadable stored : RecoveryState → File

pub data Action : Type 0 where
  start_gateway stop_gateway reload_gateway restart_mihomo : Action

pub record ClientAcceptance : Type 0 where
  pub client_ipv4 : Text
  pub gateway_dns_confirmed : Bool
  pub no_explicit_proxy_confirmed : Bool
  pub ipv6_bypass_warning_confirmed : Bool

-- The requests, with their decoded bodies: `none` is a body that does not decode.
pub data Request : Type 0 where
  update_notes prepare_recovery : Option Text → Request
  discard_recovery abandon_takeover apply_static restore_dhcp : Request
  probe_dhcp verify_router_restored : Text → Request
  accept_client : Option ClientAcceptance → Request
  skip_validation finish_manually finish_static : Option Bool → Request
  run_action : Action → Text → Request

-- The requests that the server has received, and the calls that it has made since.
pub data Event : Type 0 where
  received : Request → Event
  probed : List Text → Event  -- the DHCP servers that answered
  set_dhcp : Text → Event
  set_manual : ManualConfig → Event
  launched : Action → Text → Event  -- with the topology

-- A lifecycle operation that holds the lock.
pub record Pending : Type 0 where
  pub operation : Operation
  pub action : Action
  pub topology : Text
  pub before : RecoveryState

-- The recovery card, by what it is written from.
pub record Card : Type 0 where
  pub of_snapshot : Snapshot
  pub written_at : ℕ

pub record World : Type 0 where
  pub file : File
  pub card : Option Card
  pub operations : List Operation  -- one for each ID
  pub desired : Option Bool
  pub watch : Controller
  pub pending : Option Pending
  pub journal : List Event  -- the latest first

pub record Config : Type 0 where
  pub mode : Text
  pub interface : Text
  pub lan_ip : Text

pub record Lease : Type 0 where
  pub ip : Text
  pub online : Bool

pub record GatewayStatus : Type 0 where
  pub runtime_state : Text
  pub gateway : Text

-- What the code outside of the handlers answers: a reading that returns an error is `none`, and a
-- write that returns one is false. A handler that makes no such call does not look.
pub record Outside : Type 0 where
  pub now : ℕ
  pub token : Text
  pub to4 : Text → Option ℕ  -- net.ParseIP(…).To4()
  pub parses_ip : Text → Bool
  pub config : Option Config  -- config.Load or config.LoadRuntime
  pub discovered : Option Snapshot
  pub pings_router : Bool
  pub dhcp_servers : Option (List Text)
  pub dhcp_is_set : Bool
  pub manual_is_set : Bool
  pub runtime : Option (Option State)
  pub boot : Option BootSession
  pub status : Option GatewayStatus
  pub workspace : Option Text  -- ExpectedGatewayState of the policy workspace
  pub leases : Option (List Lease)
  pub dns_log : Text
  pub mihomo_log : Text
  pub saves_recovery : Bool
  pub saves_recovery_again : Bool
  pub saves_card : Bool
  pub removes_card : Bool
  pub reads_operation : Bool
  pub stats_operation : Bool
  pub saves_operation : Bool
  pub saves_desired : Bool

-- An error answer: its status and its code.
pub record Refusal : Type 0 where
  pub status : ℕ
  pub code : Text

abbrev pub M : Type 0 → Type 0
M A = Exec World Refusal A

unfoldable pub refuse : {A : Type 0} → ℕ → String → M A
refuse status code = raise (record { status = status; code = text code })

-- `if !b { writeError(…); return }`
unfoldable pub check : Bool → ℕ → String → M (Unit {0})
unfolding refuse
check b status code = when b run pure tt otherwise refuse status code

-- `value, err := …; if err != nil { writeError(…); return }`
unfoldable pub need : {A : Type 0} → Option A → ℕ → String → M A
unfolding refuse
need none status code = refuse status code
need (some a) status code = pure a

unfoldable pub do_event : Event → M (Unit {0})
do_event e w = (ok tt, record w { journal = e ∷ w.journal })
