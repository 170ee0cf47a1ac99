-- ===== src/Takeover/Types.antt =====
-- What a takeover keeps: the recovery record and the network snapshot in it
-- (internal/controlapi/models.go, internal/macosnetwork/types.go), and the operations.
use opensurge_fnos.Base.{
  Bool, List, Option, [], all, false, if◌then◌else◌, leb, none, not, some, ℕ, ◌&&◌, ◌++◌, ◌==◌,
  ◌||◌,
}
use opensurge_fnos.Lists.{length}
use opensurge_fnos.Takeover.Stage.{Stage}
use opensurge_fnos.Text.{Text, is_empty, text}

-- The fields of macosnetwork.Snapshot but the hardware address.
pub record Snapshot : Type 0 where
  pub network_service : Text
  pub interface : Text
  pub ipv4_mode : Text
  pub ipv4 : Text
  pub subnet_mask : Text
  pub router : Text
  pub dns : List Text
  pub ipv6_default : Bool
  pub ipv6_default_self_only : Bool

unfoldable pub competing_ipv6_default : Snapshot → Bool
competing_ipv6_default s = s.ipv6_default && not s.ipv6_default_self_only

pub record ManualConfig : Type 0 where
  pub network_service : Text
  pub interface : Text
  pub ipv4 : Text
  pub subnet_mask : Text
  pub router : Text
  pub dns : List Text

pub record RecoveryState : Type 0 where
  pub schema_version : ℕ
  pub stage : Stage
  pub topology : Text
  pub network_service : Text
  pub original_ipv4 : Text
  pub original_router : Text
  pub recovery_notes : Text
  pub network_snapshot : Option Snapshot
  pub client_validation_skipped : Bool
  pub required : Bool
  pub updated_at : ℕ  -- 0 is the zero time

-- A record of a stage and a topology, all else zero.
unfoldable pub recovery_at : Stage → Text → RecoveryState
recovery_at s topology = record {
  schema_version = 1;
  stage = s;
  topology = topology;
  network_service = [];
  original_ipv4 = [];
  original_router = [];
  recovery_notes = [];
  network_snapshot = none;
  client_validation_skipped = false;
  required = false;
  updated_at = 0;
}

unfoldable pub append_recovery_note : Text → RecoveryState → RecoveryState
append_recovery_note note s = record s {
  recovery_notes =
      if is_empty s.recovery_notes then note else s.recovery_notes ++ text "; " ++ note;
}

pub data OperationState : Type 0 where
  running succeeded failed_with : OperationState

pub record Operation : Type 0 where
  pub id : Text
  pub kind : Text
  pub state : OperationState
  pub error : Text
  pub phase : Text
  pub notices : List Text
  pub created_at : ℕ
  pub updated_at : ℕ

is_id_byte : ℕ → Bool
is_id_byte c =
    (leb 97 c && leb c 122)
    || (leb 65 c && leb c 90)
    || (leb 48 c && leb c 57)
    || c == 45
    || c == 95

unfoldable pub valid_operation_id : Text → Bool
unfolding is_id_byte
valid_operation_id id = not (is_empty id) && leb (length id) 128 && all is_id_byte id

unfoldable pub new_operation : ℕ → Text → Text → Operation
new_operation now id kind = record {
  id = id;
  kind = kind;
  state = running;
  error = [];
  phase = text "waiting_helper";
  notices = [];
  created_at = now;
  updated_at = now;
}

-- finishOperation, up to its writes: `none` is no error.
unfoldable pub finished : ℕ → Option Text → Operation → Operation
finished now none op = record op { state = succeeded; updated_at = now }
finished now (some e) op = record op { state = failed_with; error = e; updated_at = now }
