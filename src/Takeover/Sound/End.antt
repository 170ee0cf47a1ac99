-- ===== src/Takeover/Sound/End.antt =====
-- The requests from the takeover to its end keep a world sound, and move its stage as they may.
use opensurge_fnos.Base.{
  Bool, List, Option, [], arith, false, none, refl, some, subst, sym, true, ◌||◌, ◌∷◌, ◌≡◌,
}
use opensurge_fnos.Exec.{◌>>=◌, ◌>>◌}
use opensurge_fnos.Exec.Rules.{Ensures}
use opensurge_fnos.Takeover.End.{
  ended, handle_abandon_takeover, handle_client_validated, handle_client_validation_skip,
  handle_keep_static_finish, handle_manual_recovery_finish, handle_restore_dhcp,
  handle_router_restored, leave_takeover, manual_note, restore_automatic,
}
use opensurge_fnos.Takeover.Sound.{agrees, stage_warranted}
use opensurge_fnos.Takeover.Sound.Calls.{active_said, answer_told, known_restored, then_restore}
use opensurge_fnos.Takeover.Sound.Moves.{at_constant, at_either, may_move}
use opensurge_fnos.Takeover.Sound.Operations.{
  Ensures-save_and_finish, then_begin, then_check_operation, then_probe, told,
}
use opensurge_fnos.Takeover.Sound.Rules.{
  At, Fact, Moved, Refused, answers, forget, nothing, then_check, then_load, then_need, then_read,
}
use opensurge_fnos.Takeover.Sound.Saves.{Ensures-save}
use opensurge_fnos.Takeover.Stage.{
  is_stage, is_takeover_active, recovery_client_validated, recovery_client_validation_skipped,
  recovery_complete, recovery_complete_static, recovery_gateway_active, recovery_gateway_stopped,
  recovery_mac_static, recovery_router_dhcp_disabled_confirmed, recovery_router_dhcp_restored,
}
use opensurge_fnos.Takeover.Store.{load_recovery, recovery, save_recovery}
use opensurge_fnos.Takeover.Types.{Snapshot, append_recovery_note}
use opensurge_fnos.Takeover.World.{
  ClientAcceptance, File, Outside, Request, abandon_takeover, accept_client, check, finish_manually,
  finish_static, need, refuse, restore_dhcp, skip_validation, verify_router_restored,
}
use opensurge_fnos.Text.{Text}

-- What the request itself says of the router's DHCP.
unfoldable pub fact_of : Request → Fact
fact_of (finish_manually (some true)) = answers
fact_of _ = nothing

confirmed_lem :
    (body : Option Bool) (b : Bool)
    → body ≡ some b
    → b ≡ true
    → fact_of (finish_manually body) ≡ answers
unfolding fact_of
confirmed_lem none b e h = absurd cc
confirmed_lem (some true) b e h = refl
confirmed_lem (some false) b e h = absurd cc

-- An abandonment, by what its probe tells.
leave_takeover-Moves :
    {f : File} (o : Outside) (snapshot : Snapshot) (x : Option (List Text))
    → (let s = (recovery f).stage in
        is_stage recovery_mac_static s || is_stage recovery_router_dhcp_disabled_confirmed s)
      ≡ true
    → Ensures
        (At f (told x))
        (need x 502 "dhcp_probe_failed" >>= leave_takeover o snapshot (recovery f))
        (Moved (may_move abandon_takeover) f)
        (Refused false f)
unfolding need refuse ◌>>=◌ leave_takeover told append_recovery_note ended agrees stage_warranted
    may_move
leave_takeover-Moves {f = f} o snapshot none h = record { at = λ w p. forget f nothing w p }
leave_takeover-Moves o snapshot (some []) h =
    Ensures-save o _ (λ w p. refl) (λ w p. refl) (ground (arith, h))
leave_takeover-Moves o snapshot (some (s ∷ servers)) h =
    then_restore o snapshot.network_service _
      (Ensures-save o _ (λ w p. refl) (λ w p. refl) (ground (arith, h)))

module _ {f : File} (o : Outside) where
  pub handle_client_validated-Moves :
      (body : Option ClientAcceptance)
      → Ensures
          (At f nothing)
          (handle_client_validated o body)
          (Moved (may_move (accept_client body)) f)
          (Refused false f)
  unfolding handle_client_validated agrees may_move is_stage
  handle_client_validated-Moves body = then_load _ (
      then_check _ 409 "recovery_precondition" _ λ h. then_need body 400 "invalid_request" _ λ q hq.
        then_check _ 422 "client_confirmation_required" _ λ h1.
          then_check _ 422 "ipv6_warning_unacknowledged" _ λ h2.
            then_need o.config 400 "config_invalid" _ λ c hc.
              then_check _ 422 "client_acceptance_failed" _ λ h3.
                Ensures-save o _ (λ w p. refl) (active_said f recovery_client_validated h refl)
                  (at_constant
                    (λ s. may_move (accept_client body) s recovery_client_validated ≡ true)
                    recovery_gateway_active _ (ground arith) h refl))

  pub handle_client_validation_skip-Moves :
      (body : Option Bool)
      → Ensures
          (At f nothing)
          (handle_client_validation_skip o body)
          (Moved (may_move (skip_validation body)) f)
          (Refused false f)
  unfolding handle_client_validation_skip append_recovery_note agrees may_move is_stage
  handle_client_validation_skip-Moves body = then_need body 400 "invalid_request" _ λ confirmed hb.
      then_check confirmed 422 "skip_confirmation_required" _ λ h1. then_load _ (
        then_check _ 409 "recovery_precondition" _ λ h.
          Ensures-save o _ (λ w p. refl) (active_said f recovery_client_validation_skipped h refl)
            (at_constant
              (λ s. may_move (skip_validation body) s recovery_client_validation_skipped ≡ true)
              recovery_gateway_active _ (ground arith) h refl))

  pub handle_router_restored-Moves :
      (id : Text)
      → Ensures
          (At f nothing)
          (handle_router_restored o id)
          (Moved (may_move (verify_router_restored id)) f)
          (Refused false f)
  unfolding handle_router_restored agrees stage_warranted is_takeover_active may_move
  handle_router_restored-Moves id = then_load _ (
      then_check _ 409 "recovery_precondition" _ λ h.
        then_need _ 409 "recovery_precondition" _ λ snapshot hs.
          then_begin o id "router-dhcp-restored" _ λ op.
            then_probe o _
              (at_constant (λ s. is_stage recovery_router_dhcp_restored s ≡ false)
                recovery_gateway_stopped _ (ground arith) h refl)
              (then_check_operation _ o op 502 "dhcp_probe_failed" _ λ h1.
                then_check_operation _ o op 409 "router_dhcp_missing" _ λ h2.
                  Ensures-save_and_finish o op _ refl
                    (λ w p. ground (arith, answer_told o.dhcp_servers w.journal h2 p.known))
                    (at_constant
                      (λ s.
                        may_move (verify_router_restored id) s recovery_router_dhcp_restored ≡ true)
                      recovery_gateway_stopped _ (ground arith) h refl)))

  -- A confirmation is the latest word on the router's DHCP.
  pub handle_manual_recovery_finish-Moves :
      (body : Option Bool)
      → Ensures
          (At f (fact_of (finish_manually body)))
          (handle_manual_recovery_finish o body)
          (Moved (may_move (finish_manually body)) f)
          (Refused false f)
  unfolding handle_manual_recovery_finish append_recovery_note ended agrees stage_warranted may_move
  handle_manual_recovery_finish-Moves body = then_need body 400 "invalid_request" _ λ confirmed hb.
      then_check confirmed 422 "manual_confirmation_required" _ λ h1.
        subst
          (λ k.
            Ensures (At f k)
              (load_recovery >>= λ state.
                check (is_stage recovery_gateway_stopped state.stage) 409 "recovery_precondition"
                >> (need state.network_snapshot 409 "recovery_precondition" >>= λ snapshot.
                    restore_automatic o snapshot.network_service
                    >> save_recovery o
                        (ended recovery_complete (append_recovery_note manual_note state))))
              (Moved (may_move (finish_manually body)) f) (Refused false f))
          (sym (confirmed_lem body confirmed hb h1))
          (then_load _ (
            then_check _ 409 "recovery_precondition" _ λ h.
              then_need _ 409 "recovery_precondition" _ λ snapshot hs.
                then_restore o snapshot.network_service _ (
                  Ensures-save o _ (λ w p. refl) (λ w p. refl)
                    (at_constant (λ s. may_move (finish_manually body) s recovery_complete ≡ true)
                      recovery_gateway_stopped _ (ground arith) h refl))))

  pub handle_keep_static_finish-Moves :
      (body : Option Bool)
      → Ensures
          (At f nothing)
          (handle_keep_static_finish o body)
          (Moved (may_move (finish_static body)) f)
          (Refused false f)
  unfolding handle_keep_static_finish append_recovery_note ended agrees stage_warranted may_move
  handle_keep_static_finish-Moves body = then_need body 400 "invalid_request" _ λ confirmed hb.
      then_check confirmed 422 "keep_static_confirmation_required" _ λ h1. then_load _ (
        then_check _ 409 "recovery_precondition" _ λ h.
          then_need _ 409 "recovery_precondition" _ λ snapshot hs.
            Ensures-save o _ (λ w p. refl) (λ w p. refl)
              (at_either (λ s. may_move (finish_static body) s recovery_complete_static ≡ true)
                recovery_gateway_stopped recovery_router_dhcp_restored (recovery f).stage
                (ground arith) (ground arith) h refl refl))

  pub handle_restore_dhcp-Moves :
      Ensures
        (At f nothing)
        (handle_restore_dhcp o)
        (Moved (may_move restore_dhcp) f)
        (Refused false f)
  unfolding handle_restore_dhcp ended agrees stage_warranted may_move
  handle_restore_dhcp-Moves = then_load _ (
      then_check _ 409 "recovery_precondition" _ λ h.
        then_need _ 409 "recovery_precondition" _ λ snapshot hs. known_restored _ h (
          then_restore o snapshot.network_service _ (
            Ensures-save o _ (λ w p. refl) (λ w p. refl)
              (at_constant (λ s. may_move restore_dhcp s recovery_complete ≡ true)
                recovery_router_dhcp_restored _ (ground arith) h refl))))

  pub handle_abandon_takeover-Moves :
      Ensures
        (At f nothing)
        (handle_abandon_takeover o)
        (Moved (may_move abandon_takeover) f)
        (Refused false f)
  unfolding handle_abandon_takeover
  handle_abandon_takeover-Moves = then_read _ (
      then_check _ 409 "recovery_precondition" _ λ h.
        then_need _ 409 "recovery_snapshot_missing" _ λ snapshot hs.
          then_need o.config 400 "config_invalid" _ λ c hc.
            then_check _ 409 "same_wifi_config_required" _ λ h1.
              then_need o.runtime 500 "runtime_state_invalid" _ λ existing he.
                then_check _ 409 "gateway_still_active" _ λ h2.
                  then_probe o _
                    (at_either (λ s. is_stage recovery_router_dhcp_restored s ≡ false)
                      recovery_mac_static recovery_router_dhcp_disabled_confirmed _ (ground arith)
                      (ground arith) h refl refl)
                    (leave_takeover-Moves o snapshot o.dhcp_servers h))
