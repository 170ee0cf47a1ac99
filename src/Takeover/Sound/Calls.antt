-- ===== src/Takeover/Sound/Calls.antt =====
-- The rules for the calls that change the Mac's network, and for what a stage tells.
use opensurge_fnos.Base.{
  Bool, List, Option, [], arith, false, none, refl, some, subst, true, ◌∷◌, ◌≡◌,
}
use opensurge_fnos.Exec.{◌>>◌}
use opensurge_fnos.Exec.Rules.{Ensures, Ensures-weaken}
use opensurge_fnos.Takeover.Begin.{none_answers, some_answer}
use opensurge_fnos.Takeover.End.{restore_automatic}
use opensurge_fnos.Takeover.Sound.{is_warranted, router_answers, router_was_silent, stage_warranted}
use opensurge_fnos.Takeover.Sound.Operations.{pending_warranted_kept, told}
use opensurge_fnos.Takeover.Sound.Rules.{
  At, Fact, Refused, answers, forget, nothing, says, then_keep,
}
use opensurge_fnos.Takeover.Sound.Saves.{Ensures-event}
use opensurge_fnos.Takeover.Stage.{
  Stage, is_stage, is_takeover_active, recovery_gateway_active, recovery_router_dhcp_restored,
}
use opensurge_fnos.Takeover.Store.{recovery}
use opensurge_fnos.Takeover.Types.{ManualConfig}
use opensurge_fnos.Takeover.World.{
  Event, File, M, Outside, World, check, do_event, refuse, set_dhcp, set_manual,
}
use opensurge_fnos.Text.{Text}

pub stage_said_at :
    (f : File) (k : Fact) (w : World)
    → At f k w
    → stage_warranted (recovery f).stage w.journal ≡ true
stage_said_at f k w p =
    subst (λ g. stage_warranted (recovery g).stage w.journal ≡ true) p.same_file p.sound.stage_said

set_or_not :
    {u : Bool} {f : File} (b : Bool)
    → Ensures (At f answers) (check b 502 "restore_dhcp_failed") (λ u. At f answers) (Refused u f)
unfolding check refuse
set_or_not true = record { at = λ w p. p }
set_or_not {f} false = record { at = λ w p. forget f answers w p }

-- From the active gateway on, a probe has found the router silent.
pub active_said :
    (f : File) (to : Stage)
    → is_stage recovery_gateway_active (recovery f).stage ≡ true
    → is_stage recovery_router_dhcp_restored to ≡ false
    → (w : World) → At f nothing w
    → stage_warranted to w.journal ≡ true
unfolding stage_warranted is_takeover_active
active_said f to h r w p = ground (arith, stage_said_at f nothing w p, h, r)

module _ {A : Type 0} {u : Bool} {f : File} {Q : A → World → Type 0} where
  pub then_set_manual :
      (c : ManualConfig) (m : M A)
      → Ensures (At f nothing) m Q (Refused u f)
      → Ensures (At f nothing) (do_event (set_manual c) >> m) Q (Refused u f)
  unfolding is_warranted stage_warranted router_answers router_was_silent says
  then_set_manual c m h =
      then_keep (do_event (set_manual c)) m
        (Ensures-event nothing nothing (set_manual c) (λ w p. refl) (stage_said_at f nothing)
          (λ w p. pending_warranted_kept w.pending (set_manual c) w.journal p.sound.operation_said)
          (λ w p. refl))
        h

  -- The Mac goes back to automatic DHCP only where the router is known to answer.
  pub then_restore :
      (o : Outside) (service : Text) (m : M A)
      → Ensures (At f answers) m Q (Refused u f)
      → Ensures (At f answers) (restore_automatic o service >> m) Q (Refused u f)
  unfolding restore_automatic is_warranted stage_warranted router_answers router_was_silent says
  then_restore o service m h =
      then_keep (restore_automatic o service) m
        (then_keep (do_event (set_dhcp service)) (check o.dhcp_is_set 502 "restore_dhcp_failed")
          (Ensures-event answers answers (set_dhcp service) (λ w p. p.known)
            (stage_said_at f answers)
            (λ w p.
              pending_warranted_kept w.pending (set_dhcp service) w.journal p.sound.operation_said)
            (λ w p. p.known))
          (set_or_not o.dhcp_is_set))
        h

  -- At the stage of the restored router, a server is known to answer.
  pub known_restored :
      (m : M A)
      → is_stage recovery_router_dhcp_restored (recovery f).stage ≡ true
      → Ensures (At f answers) m Q (Refused u f)
      → Ensures (At f nothing) m Q (Refused u f)
  unfolding stage_warranted says
  known_restored m e h =
      Ensures-weaken h
        (λ w p. record {
          sound = p.sound;
          same_file = p.same_file;
          known = ground (arith, stage_said_at f nothing w p, e);
        })
        (λ a w q. q) (λ x w q. q)

pub silence_told :
    (x : Option (List Text)) (j : List Event)
    → none_answers x ≡ true
    → says (told x) j ≡ true
    → router_was_silent j ≡ true
unfolding none_answers says told
silence_told none j h k = absurd (ground arith)
silence_told (some []) j h k = k
silence_told (some (s ∷ servers)) j h k = absurd (ground arith)

pub answer_told :
    (x : Option (List Text)) (j : List Event)
    → some_answer x ≡ true
    → says (told x) j ≡ true
    → router_answers j ≡ true
unfolding some_answer says told
answer_told none j h k = absurd (ground arith)
answer_told (some []) j h k = absurd (ground arith)
answer_told (some (s ∷ servers)) j h k = k
