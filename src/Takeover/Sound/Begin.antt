-- ===== src/Takeover/Sound/Begin.antt =====
-- The requests up to the takeover keep a world sound, and move its stage as they may.
use opensurge_fnos.Base.{
  Bool, Option, arith, false, if_holds, if◌then◌else◌, inr, none, not, refl, some, subst, sym, true,
  ℕ, ◌==◌, ◌≡◌,
}
use opensurge_fnos.Exec.{Result}
use opensurge_fnos.Exec.Rules.{After, Ensures, Ensures-bind}
use opensurge_fnos.Takeover.Begin.{
  card_answer, discard, discard_answer, handle_apply_static, handle_dhcp_probe, handle_recovery,
  handle_recovery_discard, handle_recovery_prepare, prepared_record, write_card,
}
use opensurge_fnos.Takeover.Sound.{IsSound, agrees, stage_warranted}
use opensurge_fnos.Takeover.Sound.Calls.{silence_told, stage_said_at, then_set_manual}
use opensurge_fnos.Takeover.Sound.Moves.{at_constant, may_move}
use opensurge_fnos.Takeover.Sound.Operations.{
  Ensures-save_and_finish, then_begin, then_check_operation, then_probe,
}
use opensurge_fnos.Takeover.Sound.Rules.{
  At, IsSound-same, Moved, Refused, forget, nothing, then_check, then_load, then_need, then_read,
}
use opensurge_fnos.Takeover.Sound.Saves.{Ensures-save, HalfDone-put, is_before}
use opensurge_fnos.Takeover.Stage.{
  allowed_recovery_transition, is_stage, is_takeover_active, recovery_idle, recovery_mac_static,
  recovery_prepared, recovery_router_dhcp_disabled_confirmed, recovery_router_dhcp_restored,
  stage_number,
}
use opensurge_fnos.Takeover.Store.{
  discard_prepared, load_recovery, put_recovery, readable, recovery, save_card, stamped,
}
use opensurge_fnos.Takeover.Types.{RecoveryState, Snapshot, recovery_at}
use opensurge_fnos.Takeover.World.{
  Card, Config, File, Outside, Refusal, World, apply_static, discard_recovery, prepare_recovery,
  probe_dhcp, refuse, update_notes,
}
use opensurge_fnos.Text.{Text}

same_number : (n : ℕ) → (n == n) ≡ true
same_number n = ground arith

-- The card's write, after the record's, with whether it succeeds.
card_answer-Moves :
    {f : File} (o : Outside) (c : Config) (body : Option Text) (s : RecoveryState) (b : Bool)
    (card : Option Card) (w : World)
    → Moved (may_move (prepare_recovery body)) f s w
    → (let r : Result Refusal RecoveryState × World =
          card_answer o c s (b, record w { card = card }) in
        After (Moved (may_move (prepare_recovery body)) f) (Refused true f) r.0 r.1)
unfolding card_answer refuse may_move agrees stage_warranted
card_answer-Moves o c body s true card w p = record {
  sound = IsSound-same w (record w { card = card }) refl refl refl p.sound;
  saved = p.saved;
  move = p.move;
}
card_answer-Moves o c body s false card w p = inr (
    HalfDone-put o.saves_recovery_again o.now (recovery_at recovery_idle c.mode)
      (record w { card = card }) (IsSound-same w (record w { card = card }) refl refl refl p.sound)
      (subst (λ x. is_before x ≡ true) (sym p.saved) (ground (arith, p.move))) refl refl refl refl)

write_card-Moves :
    {f : File} (o : Outside) (c : Config) (body : Option Text) (s : RecoveryState)
    → Ensures
        (Moved (may_move (prepare_recovery body)) f s)
        (write_card o c s)
        (Moved (may_move (prepare_recovery body)) f)
        (Refused true f)
unfolding write_card save_card
write_card-Moves {f = f} o c body s = record { at = λ w p. written s.network_snapshot w p }
  where
    written :
        (x : Option Snapshot) (w : World)
        → Moved (may_move (prepare_recovery body)) f s w
        → (let r : Result Refusal RecoveryState × World = card_answer o c s (save_card o x w) in
            After (Moved (may_move (prepare_recovery body)) f) (Refused true f) r.0 r.1)
    written none w p = card_answer-Moves o c body s false w.card w p
    written (some x) w p = card_answer-Moves o c body s o.saves_card _ w p

module _ {f : File} (o : Outside) where
  pub handle_recovery-Moves :
      (body : Option Text)
      → Ensures
          (At f nothing)
          (handle_recovery o body)
          (Moved (may_move (update_notes body)) f)
          (Refused false f)
  unfolding handle_recovery may_move agrees
  handle_recovery-Moves body = then_need body 400 "invalid_request" _ λ notes e. then_load _ (
      Ensures-save o _
        (λ w p. subst (λ g. agrees (recovery g) ≡ true) p.same_file p.sound.agreement)
        (stage_said_at f nothing) (same_number (stage_number (recovery f).stage)))

  pub handle_apply_static-Moves :
      Ensures
        (At f nothing)
        (handle_apply_static o)
        (Moved (may_move apply_static) f)
        (Refused false f)
  unfolding handle_apply_static agrees stage_warranted may_move allowed_recovery_transition is_stage
  handle_apply_static-Moves = then_need o.config 400 "config_invalid" _ λ c hc. then_load _ (
      then_check _ 409 "recovery_precondition" _ λ h.
        then_need _ 409 "recovery_precondition" _ λ snapshot hs. then_set_manual _ _ (
          then_check _ 502 "set_static_failed" _ λ h1.
            then_check _ 502 "static_ipv4_not_applied" _ λ h2.
              then_check _ 502 "upstream_unreachable" _ λ h3.
                Ensures-save o _ (λ w p. refl) (λ w p. refl)
                  (at_constant (λ s. may_move apply_static s recovery_mac_static ≡ true)
                    recovery_prepared _ (ground arith) h refl)))

  pub handle_dhcp_probe-Moves :
      (id : Text)
      → Ensures
          (At f nothing)
          (handle_dhcp_probe o id)
          (Moved (may_move (probe_dhcp id)) f)
          (Refused false f)
  unfolding handle_dhcp_probe agrees stage_warranted may_move allowed_recovery_transition is_stage
  handle_dhcp_probe-Moves id = then_need o.config 400 "config_invalid" _ λ c hc. then_load _ (
      then_check _ 409 "recovery_precondition" _ λ h. then_begin o id "dhcp-probe" _ λ op.
        then_probe o _
          (at_constant (λ s. is_stage recovery_router_dhcp_restored s ≡ false) recovery_mac_static _
            (ground arith) h refl)
          (then_check_operation _ o op 502 "dhcp_probe_failed" _ λ h1.
            then_check_operation _ o op 409 "competing_dhcp" _ λ h2.
              Ensures-save_and_finish o op _ refl
                (λ w p. silence_told o.dhcp_servers w.journal h2 p.known)
                (at_constant
                  (λ s. may_move (probe_dhcp id) s recovery_router_dhcp_disabled_confirmed ≡ true)
                  recovery_mac_static _ (ground arith) h refl)))

  pub handle_recovery_prepare-Moves :
      (body : Option Text)
      → Ensures
          (At f nothing)
          (handle_recovery_prepare o body)
          (Moved (may_move (prepare_recovery body)) f)
          (Refused true f)
  unfolding handle_recovery_prepare agrees stage_warranted may_move is_stage
  handle_recovery_prepare-Moves body = then_need o.config 400 "config_invalid" _ λ c hc.
      then_check _ 409 "same_wifi_config_required" _ λ h1.
        then_need body 400 "invalid_request" _ λ service hb.
          then_need o.discovered 422 "network_discovery_failed" _ λ snapshot hs.
            then_check _ 422 "static_config_invalid" _ λ h2.
              Ensures-bind
                (Ensures-save {R = may_move (prepare_recovery body)} o (prepared_record c snapshot)
                  (λ w p. refl) (λ w p. refl) refl)
                (write_card-Moves o c body)

  -- The card that is removed, or the record that comes back.
  removed_or_back :
      (topology : Text) (w : World)
      → At f nothing w
      → is_stage recovery_prepared (recovery f).stage ≡ true
      → (let idle : World = put_recovery true o.now (recovery_at recovery_idle topology) w in
          let r : Result Refusal RecoveryState × World = discard_answer (
            if o.removes_card
            then (true, record idle { card = none })
            else (false, put_recovery o.saves_recovery_again o.now (recovery w.file) idle)) in
          After (Moved (may_move discard_recovery) f) (Refused true f) r.0 r.1)
  unfolding discard_answer load_recovery refuse may_move is_stage agrees stage_warranted recovery
      put_recovery readable stamped is_takeover_active
  removed_or_back topology w p h =
      let idle : World = put_recovery true o.now (recovery_at recovery_idle topology) w in
      let sound : IsSound idle = record {
        readable_file = refl;
        agreement = refl;
        calls = p.sound.calls;
        stage_said = refl;
        operation_said = p.sound.operation_said;
      } in
      if_holds
        (λ r.
          After (Moved (may_move discard_recovery) f) (Refused true f) (discard_answer r).0
            (discard_answer r).1)
        o.removes_card (true, record idle { card = none })
        (false, put_recovery o.saves_recovery_again o.now (recovery w.file) idle)
        (λ e. record {
          sound = IsSound-same idle (record idle { card = none }) refl refl refl sound;
          saved = refl;
          move = ground (arith, h);
        })
        λ e. inr (
          HalfDone-put o.saves_recovery_again o.now (recovery w.file) idle sound refl
            p.sound.agreement p.sound.stage_said
            (subst (λ g. is_before (recovery g).stage ≡ true) (sym p.same_file) (ground (arith, h)))
            refl)

  pub handle_recovery_discard-Moves :
      Ensures
        (At f nothing)
        (handle_recovery_discard o)
        (Moved (may_move discard_recovery) f)
        (Refused true f)
  unfolding handle_recovery_discard discard discard_prepared discard_answer refuse
  handle_recovery_discard-Moves =
      let P : Bool × World → Type 0 = λ r.
        After (Moved (may_move discard_recovery) f) (Refused true f) (discard_answer r).0
          (discard_answer r).1 in
      then_read _ (
        then_check _ 409 "recovery_precondition" _ λ h. record {
          at = λ w p.
              if_holds P _ (false, w) _ (λ e. forget f nothing w p)
                λ e.
                  if_holds P (not o.saves_recovery) (false, w) _ (λ e'. forget f nothing w p)
                    λ e'. removed_or_back (recovery f).topology w p h;
        })
