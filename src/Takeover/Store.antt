-- ===== src/Takeover/Store.antt =====
-- The store's operations on the recovery record and on the operations, after
-- internal/controlapi/store.go. A file is replaced whole or left as it is.
use opensurge_fnos.Base.{
  Bool, List, Option, [], false, if◌then◌else◌, is_some, none, not, some, true, ℕ, ◌&&◌, ◌||◌, ◌∷◌,
}
use opensurge_fnos.Exec.{gets, ok, pure, ◌>>=◌, ◌>>◌}
use opensurge_fnos.Takeover.Stage.{is_stage, recovery_idle, recovery_prepared}
use opensurge_fnos.Takeover.Types.{
  Operation, RecoveryState, Snapshot, recovery_at, valid_operation_id,
}
use opensurge_fnos.Takeover.World.{
  File, M, Outside, World, absent, check, refuse, stored, unreadable,
}
use opensurge_fnos.Text.{Text, text_eq}

-- What Recovery returns, whatever error comes beside it.
unfoldable pub recovery : File → RecoveryState
unfolding recovery_at
recovery absent = recovery_at recovery_idle []
recovery (unreadable s) = s
recovery (stored s) = s

unfoldable pub readable : File → Bool
readable absent = true
readable (unreadable s) = false
readable (stored s) = true

-- `state, _ := s.store.Recovery()`
unfoldable pub load_recovery : M RecoveryState
unfolding recovery
load_recovery = gets λ w. recovery w.file

-- `state, err := s.store.Recovery()`, with the error answer of the handlers.
unfoldable pub read_recovery : M RecoveryState
unfolding refuse recovery readable
read_recovery w =
    (if readable w.file then pure (recovery w.file) else refuse 500 "recovery_read_failed") w

unfoldable pub stamped : ℕ → RecoveryState → RecoveryState
stamped now s = record s { schema_version = 1; updated_at = now }

-- SaveRecovery, with whether the write succeeds.
unfoldable pub put_recovery : Bool → ℕ → RecoveryState → World → World
unfolding stamped
put_recovery saves now s w = record w { file = if saves then stored (stamped now s) else w.file }

-- SaveRecovery, its error ignored.
unfoldable pub try_save : Bool → ℕ → RecoveryState → M (Unit {0})
unfolding put_recovery
try_save saves now s w = (ok tt, put_recovery saves now s w)

-- SaveRecovery, with the error answer of the handlers.
unfoldable pub save_recovery : Outside → RecoveryState → M RecoveryState
unfolding try_save check
save_recovery o s = do
  try_save o.saves_recovery o.now s
  check o.saves_recovery 500 "recovery_write_failed"
  pure s

-- SaveRecoveryCard: whether it has succeeded.
unfoldable pub save_card : Outside → Option Snapshot → World → Bool × World
save_card o none w = (false, w)
save_card o (some s) w = (
  o.saves_card,
  record w {
    card = if o.saves_card then some (record { of_snapshot = s; written_at = o.now }) else w.card;
  },
)

unfoldable is_absent : File → Bool
is_absent absent = true
is_absent _ = false

-- DiscardPreparedRecovery: whether it has succeeded. A card that cannot be removed brings the
-- record back; that write may fail too.
unfoldable pub discard_prepared : Outside → Text → World → Bool × World
unfolding put_recovery recovery readable is_absent is_stage recovery_at
discard_prepared o topology w =
    let current = recovery w.file in
    if is_absent w.file || not (readable w.file) || not (is_stage recovery_prepared current.stage)
    then (false, w)
    else if not o.saves_recovery
    then (false, w)
    else let idle : World = put_recovery true o.now (recovery_at recovery_idle topology) w in
      if o.removes_card
      then (true, record idle { card = none })
      else (false, put_recovery o.saves_recovery_again o.now current idle)

unfoldable pub find_operation : Text → List Operation → Option Operation
unfolding text_eq
find_operation id [] = none
find_operation id (op ∷ ops) = if text_eq id op.id then some op else find_operation id ops

-- The file of an operation, replaced or new.
unfoldable pub put_operation : Operation → List Operation → List Operation
unfolding text_eq
put_operation op [] = op ∷ []
put_operation op (x ∷ ops) =
    let rest = put_operation op ops in if text_eq op.id x.id then op ∷ ops else x ∷ rest

-- SaveOperation, its error ignored.
unfoldable pub save_operation : Outside → Operation → M (Unit {0})
unfolding put_operation valid_operation_id
save_operation o op w = (
  ok tt,
  record w {
    operations =
        if valid_operation_id op.id && o.saves_operation
        then put_operation op w.operations
        else w.operations;
  },
)

pub data CreateErr : Type 0 where
  invalid_id operation_exists create_failed : CreateErr

-- What CreateOperation returns before it writes.
unfoldable pub create_error : Outside → Operation → List Operation → Option CreateErr
unfolding valid_operation_id find_operation
create_error o op ops =
    if not (valid_operation_id op.id)
    then some invalid_id
    else if not o.stats_operation
    then some create_failed
    else if is_some (find_operation op.id ops)
    then some operation_exists
    else if not o.saves_operation
    then some create_failed
    else none

-- The answer to an error of CreateOperation.
unfoldable pub create_refused : (CreateErr → ℕ) → Option CreateErr → M (Unit {0})
unfolding refuse
create_refused status none = pure tt
create_refused status (some e) = refuse (status e) "operation_failed"

-- CreateOperation, with the error answer of the handlers.
unfoldable pub create_operation : (CreateErr → ℕ) → Outside → Operation → M (Unit {0})
unfolding create_error create_refused save_operation
create_operation status o op = do
  error ← gets λ w. create_error o op w.operations
  create_refused status error
  save_operation o op

-- Operation: the file of a valid ID, where it can be read.
unfoldable pub operation : Outside → Text → List Operation → Option Operation
unfolding valid_operation_id find_operation
operation o id ops =
    if valid_operation_id id && o.reads_operation then find_operation id ops else none
