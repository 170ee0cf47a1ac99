-- ===== src/Takeover/Sound/Answers.antt =====
-- How each request ends: the world is sound, and the record as it was or moved as it may.
use opensurge_fnos.Base.{
  Bool, List, arith, false, inl, inr, none, refl, some, subst, sym, true, ◌&&◌, ◌||◌, ◌∷◌, ◌≡◌, ◌⊎◌,
}
use opensurge_fnos.Exec.{Result, err, ok}
use opensurge_fnos.Exec.Rules.{After}
use opensurge_fnos.Takeover.Actions.{handle_gateway_action}
use opensurge_fnos.Takeover.Begin.{
  handle_apply_static, handle_dhcp_probe, handle_recovery, handle_recovery_discard,
  handle_recovery_prepare,
}
use opensurge_fnos.Takeover.End.{
  handle_abandon_takeover, handle_client_validated, handle_client_validation_skip,
  handle_keep_static_finish, handle_manual_recovery_finish, handle_restore_dhcp,
  handle_router_restored,
}
use opensurge_fnos.Takeover.Sound.{
  IsSound, all_warranted, is_warranted, router_answers, router_was_silent, stage_warranted,
}
use opensurge_fnos.Takeover.Sound.Actions.{handle_gateway_action-Kept}
use opensurge_fnos.Takeover.Sound.Begin.{
  handle_apply_static-Moves, handle_dhcp_probe-Moves, handle_recovery-Moves,
  handle_recovery_discard-Moves, handle_recovery_prepare-Moves,
}
use opensurge_fnos.Takeover.Sound.End.{
  fact_of, handle_abandon_takeover-Moves, handle_client_validated-Moves,
  handle_client_validation_skip-Moves, handle_keep_static_finish-Moves,
  handle_manual_recovery_finish-Moves, handle_restore_dhcp-Moves, handle_router_restored-Moves,
}
use opensurge_fnos.Takeover.Sound.Moves.{may_move}
use opensurge_fnos.Takeover.Sound.Operations.{pending_warranted_kept}
use opensurge_fnos.Takeover.Sound.Rules.{At, Moved, Refused, nothing, says}
use opensurge_fnos.Takeover.Sound.Saves.{is_before}
use opensurge_fnos.Takeover.Stage.{Stage, is_stage}
use opensurge_fnos.Takeover.Steps.{respond}
use opensurge_fnos.Takeover.Store.{recovery}
use opensurge_fnos.Takeover.Types.{Operation, RecoveryState}
use opensurge_fnos.Takeover.World.{
  Event, File, Outside, Refusal, Request, World, abandon_takeover, accept_client, apply_static,
  discard_recovery, finish_manually, finish_static, prepare_recovery, probe_dhcp, received,
  restore_dhcp, run_action, skip_validation, update_notes, verify_router_restored,
}

-- The requests whose second write may fail.
unfoldable pub may_leave : Request → Bool
may_leave (prepare_recovery body) = true
may_leave discard_recovery = true
may_leave _ = false

-- What an answer leaves of a world: the record as it is, or moved as the request may, or where the
-- second write has failed, before a takeover.
unfoldable pub is_outcome : Request → Stage → Stage → Bool
unfolding may_move may_leave is_stage
is_outcome r from to = may_move r from to || (may_leave r && is_before to)

-- How a request ends.
pub record Ends (r : Request) (f : File) (w : World) : Type 0 where
  pub sound : IsSound w
  pub outcome : (w.file ≡ f) ⊎ (is_outcome r (recovery f).stage (recovery w.file).stage ≡ true)

end_of :
    (r : Request) (f : File) (x : Result Refusal RecoveryState) (w : World)
    → After (Moved (may_move r) f) (Refused (may_leave r) f) x w
    → Ends r f w
unfolding is_outcome
end_of r f (ok s) w m = record {
  sound = m.sound;
  outcome = inr (
      subst (λ t. may_move r (recovery f).stage t || (may_leave r && is_before t) ≡ true)
        (sym m.saved) (ground (arith, m.move)));
}
end_of r f (err e) w (inl k) = record { sound = k.sound; outcome = inl k.same_file }
end_of r f (err e) w (inr k) = record {
  sound = k.sound;
  outcome = inr (ground (arith, k.may_be_left, k.stage_left));
}

end_of_action :
    (r : Request) (f : File) (x : Result Refusal Operation) (w : World)
    → After (λ op. At f nothing) (Refused false f) x w
    → Ends r f w
end_of_action r f (ok op) w k = record { sound = k.sound; outcome = inl k.same_file }
end_of_action r f (err e) w (inl k) = record { sound = k.sound; outcome = inl k.same_file }
end_of_action r f (err e) w (inr k) = absurd (ground (arith, k.may_be_left))

pub answered :
    (r : Request) (o : Outside) (f : File) (w : World)
    → At f (fact_of r) w
    → Ends r f (respond r o w)
unfolding respond fact_of may_leave
answered (update_notes body) o f w p =
    end_of (update_notes body) f (handle_recovery o body w).0 (handle_recovery o body w).1
      ((handle_recovery-Moves o body).at w p)
answered (prepare_recovery body) o f w p =
    end_of (prepare_recovery body) f (handle_recovery_prepare o body w).0
      (handle_recovery_prepare o body w).1 ((handle_recovery_prepare-Moves o body).at w p)
answered discard_recovery o f w p =
    end_of discard_recovery f (handle_recovery_discard o w).0 (handle_recovery_discard o w).1
      ((handle_recovery_discard-Moves o).at w p)
answered abandon_takeover o f w p =
    end_of abandon_takeover f (handle_abandon_takeover o w).0 (handle_abandon_takeover o w).1
      ((handle_abandon_takeover-Moves o).at w p)
answered apply_static o f w p =
    end_of apply_static f (handle_apply_static o w).0 (handle_apply_static o w).1
      ((handle_apply_static-Moves o).at w p)
answered restore_dhcp o f w p =
    end_of restore_dhcp f (handle_restore_dhcp o w).0 (handle_restore_dhcp o w).1
      ((handle_restore_dhcp-Moves o).at w p)
answered (probe_dhcp id) o f w p =
    end_of (probe_dhcp id) f (handle_dhcp_probe o id w).0 (handle_dhcp_probe o id w).1
      ((handle_dhcp_probe-Moves o id).at w p)
answered (verify_router_restored id) o f w p =
    end_of (verify_router_restored id) f (handle_router_restored o id w).0
      (handle_router_restored o id w).1 ((handle_router_restored-Moves o id).at w p)
answered (accept_client body) o f w p =
    end_of (accept_client body) f (handle_client_validated o body w).0
      (handle_client_validated o body w).1 ((handle_client_validated-Moves o body).at w p)
answered (skip_validation body) o f w p =
    end_of (skip_validation body) f (handle_client_validation_skip o body w).0
      (handle_client_validation_skip o body w).1
      ((handle_client_validation_skip-Moves o body).at w p)
answered (finish_manually body) o f w p =
    end_of (finish_manually body) f (handle_manual_recovery_finish o body w).0
      (handle_manual_recovery_finish o body w).1
      ((handle_manual_recovery_finish-Moves o body).at w p)
answered (finish_static body) o f w p =
    end_of (finish_static body) f (handle_keep_static_finish o body w).0
      (handle_keep_static_finish o body w).1 ((handle_keep_static_finish-Moves o body).at w p)
answered (run_action a id) o f w p =
    end_of_action (run_action a id) f (handle_gateway_action o a id w).0
      (handle_gateway_action o a id w).1 ((handle_gateway_action-Kept o a id).at w p)

answers_kept :
    (r : Request) (j : List Event)
    → router_answers j ≡ true
    → router_answers (received r ∷ j) ≡ true
unfolding router_answers
answers_kept (finish_manually (some true)) j h = refl
answers_kept (finish_manually (some false)) j h = h
answers_kept (finish_manually none) j h = h
answers_kept (update_notes body) j h = h
answers_kept (prepare_recovery body) j h = h
answers_kept discard_recovery j h = h
answers_kept abandon_takeover j h = h
answers_kept apply_static j h = h
answers_kept restore_dhcp j h = h
answers_kept (probe_dhcp id) j h = h
answers_kept (verify_router_restored id) j h = h
answers_kept (accept_client body) j h = h
answers_kept (skip_validation body) j h = h
answers_kept (finish_static body) j h = h
answers_kept (run_action a id) j h = h

-- What the request says of the router is in the journal.
fact_entered : (r : Request) (j : List Event) → says (fact_of r) (received r ∷ j) ≡ true
unfolding fact_of says router_answers
fact_entered (finish_manually (some true)) j = refl
fact_entered (finish_manually (some false)) j = refl
fact_entered (finish_manually none) j = refl
fact_entered (update_notes body) j = refl
fact_entered (prepare_recovery body) j = refl
fact_entered discard_recovery j = refl
fact_entered abandon_takeover j = refl
fact_entered apply_static j = refl
fact_entered restore_dhcp j = refl
fact_entered (probe_dhcp id) j = refl
fact_entered (verify_router_restored id) j = refl
fact_entered (accept_client body) j = refl
fact_entered (skip_validation body) j = refl
fact_entered (finish_static body) j = refl
fact_entered (run_action a id) j = refl

-- The journal's entry of a request.
pub entered :
    (r : Request) (w : World)
    → IsSound w
    → At w.file (fact_of r) (record w { journal = received r ∷ w.journal })
unfolding all_warranted is_warranted stage_warranted router_was_silent
entered r w h = record {
  sound = record {
    readable_file = h.readable_file;
    agreement = h.agreement;
    calls = h.calls;
    stage_said = ground (arith, h.stage_said, answers_kept r w.journal);
    operation_said = pending_warranted_kept w.pending (received r) w.journal h.operation_said;
  };
  same_file = refl;
  known = fact_entered r w.journal;
}
