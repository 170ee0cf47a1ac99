-- ===== src/Takeover/Sound/Actions.antt =====
-- A lifecycle action keeps a world sound and leaves the record as it is.
use opensurge_fnos.Base.{
  Bool, List, Option, String, arith, false, is_some, none, not, refl, some, subst, true, ℕ, ◌||◌,
  ◌≡◌,
}
use opensurge_fnos.Exec.Rules.{Ensures, Ensures-bind, Ensures-gets, Ensures-given, Ensures-pure}
use opensurge_fnos.Takeover.Actions.{
  create_failed_status, guards, handle_gateway_action, kind_text, known_or, launch,
  launch_operation, reload_guards, restart_guards, start_guards,
}
use opensurge_fnos.Takeover.Begin.{operation_id, same_wifi_dhcp}
use opensurge_fnos.Takeover.Sound.{
  agrees, all_warranted, is_warranted, may_open, pending_warranted, router_answers,
  router_was_silent, stage_warranted,
}
use opensurge_fnos.Takeover.Sound.Calls.{stage_said_at}
use opensurge_fnos.Takeover.Sound.Operations.{Ensures-create, may_open_kept}
use opensurge_fnos.Takeover.Sound.Rules.{
  At, Refused, forget, nothing, says, then_check, then_load, then_need,
}
use opensurge_fnos.Takeover.Stage.{
  Stage, is_stage, is_takeover_active, recovery_router_dhcp_disabled_confirmed,
}
use opensurge_fnos.Takeover.Store.{operation, recovery}
use opensurge_fnos.Takeover.Types.{Operation, new_operation}
use opensurge_fnos.Takeover.World.{
  Action, Config, Event, File, M, Outside, World, check, launched, refuse, reload_gateway,
  restart_mihomo, start_gateway, stop_gateway,
}
use opensurge_fnos.Text.{Text, text_eq}

-- What the guards of an action say of the recovery stage.
unfoldable pub fits : Action → Text → Stage → Bool
unfolding text_eq is_stage is_takeover_active
fits start_gateway mode s =
    not (text_eq mode same_wifi_dhcp) || is_stage recovery_router_dhcp_disabled_confirmed s
fits reload_gateway mode s = not (text_eq mode same_wifi_dhcp) || is_takeover_active s
fits _ mode s = true

-- What the guards say is warranted by the journal.
may_open-fits :
    (a : Action) (mode : Text) (s : Stage) (j : List Event)
    → fits a mode s ≡ true
    → stage_warranted s j ≡ true
    → not (text_eq mode same_wifi_dhcp) || may_open a j ≡ true
unfolding fits stage_warranted may_open
may_open-fits start_gateway mode s j h k = ground (arith, h, k)
may_open-fits stop_gateway mode s j h k = ground arith
may_open-fits reload_gateway mode s j h k = ground (arith, h, k)
may_open-fits restart_mihomo mode s j h k = ground arith

launched_warranted :
    (a : Action) (mode : Text) (j : List Event)
    → not (text_eq mode same_wifi_dhcp) || may_open a j ≡ true
    → is_warranted (launched a mode) j ≡ true
unfolding is_warranted may_open
launched_warranted start_gateway mode j h = h
launched_warranted stop_gateway mode j h = refl
launched_warranted reload_gateway mode j h = refl
launched_warranted restart_mihomo mode j h = refl

abbrev Fits : File → Action → Config → Unit {0} → World → Type 0
Fits f a c u w = At f nothing w × (fits a c.mode (recovery f).stage ≡ true)

module _ {f : File} where
  Ensures-check :
      {F : Type 0} (b : Bool) (status : ℕ) (code : String)
      → (b ≡ true → F)
      → Ensures (At f nothing) (check b status code) (λ u w. At f nothing w × F) (Refused false f)
  unfolding check refuse
  Ensures-check true status code h = record { at = λ w p. (p, h refl) }
  Ensures-check false status code h = record { at = λ w p. forget f nothing w p }

  pub guards-Ensures :
      (a : Action) (o : Outside) (c : Config)
      → Ensures (At f nothing) (guards a o c (recovery f)) (Fits f a c) (Refused false f)
  unfolding guards start_guards reload_guards restart_guards fits
  guards-Ensures start_gateway o c = then_check _ 409 "recovery_precondition" _ λ h.
      then_need o.workspace 422 "policy_workspace_invalid" _
        λ gateway hg. Ensures-check _ 409 "gateway_already_running" (λ e. h)
  guards-Ensures stop_gateway o c = record { at = λ w p. (p, refl) }
  guards-Ensures reload_gateway o c = then_check _ 409 "runtime_interrupted" _ λ h1.
      then_check _ 409 "gateway_not_running" _
        λ h2. Ensures-check _ 409 "recovery_precondition" (λ h. h)
  guards-Ensures restart_mihomo o c =
      then_need o.runtime 500 "runtime_state_invalid" _ λ existing he.
        then_need existing 409 "gateway_not_running" _ λ current hc.
          then_need o.boot 500 "runtime_state_invalid" _ λ session hs.
            then_check _ 409 "runtime_interrupted" _
              λ h1. Ensures-check _ 409 "recovery_precondition" (λ h. refl)

  launch_operation-Ensures :
      (o : Outside) (a : Action) (c : Config) (op : Operation)
      → fits a c.mode (recovery f).stage ≡ true
      → Ensures
          (At f nothing)
          (launch_operation o a c.mode (recovery f) op)
          (λ r. At f nothing)
          (Refused false f)
  unfolding launch_operation says stage_warranted router_answers router_was_silent all_warranted
      pending_warranted
  launch_operation-Ensures o a c op h = record {
    at = λ w p.
        let opened : not (text_eq c.mode same_wifi_dhcp) || may_open a w.journal ≡ true =
          may_open-fits a c.mode (recovery f).stage w.journal h (stage_said_at f nothing w p) in
        record {
          sound = record {
            readable_file = p.sound.readable_file;
            agreement = p.sound.agreement;
            calls = ground (arith, launched_warranted a c.mode w.journal opened, p.sound.calls);
            stage_said = p.sound.stage_said;
            operation_said = ground (
              arith,
              opened,
              may_open_kept a (launched a c.mode) w.journal,
              subst (λ g. agrees (recovery g) ≡ true) p.same_file p.sound.agreement,
            );
          };
          same_file = p.same_file;
          known = refl;
        };
  }

  known_or_lem :
      (a : Action) (x : Option Operation) (m : M Operation)
      → Ensures (At f nothing) m (λ r. At f nothing) (Refused false f)
      → Ensures (At f nothing) (known_or a x m) (λ r. At f nothing) (Refused false f)
  unfolding known_or
  known_or_lem a none m h = h
  known_or_lem a (some op) m h =
      then_check _ 409 "operation_id_conflict" _ λ e. Ensures-pure (λ r. At f nothing) op (λ w p. p)

  pub handle_gateway_action-Kept :
      (o : Outside) (a : Action) (id : Text)
      → Ensures (At f nothing) (handle_gateway_action o a id) (λ r. At f nothing) (Refused false f)
  unfolding handle_gateway_action launch
  handle_gateway_action-Kept o a id = then_check _ 400 "invalid_operation_id" _ λ h.
      Ensures-bind (Ensures-gets (λ e. At f nothing) (λ w. operation o id w.operations) (λ w p. p))
        λ existing. known_or_lem a existing _ (
          Ensures-bind (Ensures-gets (λ e. At f nothing) (λ w. is_some w.pending) (λ w p. p))
            λ held. then_check _ 409 "operation_in_progress" _ λ h1.
              then_need o.config 400 "config_invalid" _ λ c hc. then_load _ (
                Ensures-bind (guards-Ensures a o c) λ u. Ensures-given λ hf.
                  Ensures-bind
                    (Ensures-create create_failed_status o
                      (new_operation o.now (operation_id o id) (kind_text a)))
                    λ u'.
                      launch_operation-Ensures o a c
                        (new_operation o.now (operation_id o id) (kind_text a)) hf))
