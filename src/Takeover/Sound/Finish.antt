-- ===== src/Takeover/Sound/Finish.antt =====
-- The end of a lifecycle operation, and its reports before, keep a world sound.
use opensurge_fnos.Base.{
  Bool, List, Option, arith, false, if◌then◌else◌, inl, inr, none, refl, some, subst, true, ℕ, ◌∙◌,
  ◌≡◌, ◌⊎◌,
}
use opensurge_fnos.Exec.{Result, err, ok, pure, when◌run◌otherwise◌, ◌>>=◌}
use opensurge_fnos.Exec.Rules.{After, Ensures, Ensures-bind, Ensures-gets, Ensures-when}
use opensurge_fnos.Takeover.Begin.{same_wifi_dhcp}
use opensurge_fnos.Takeover.Finish.{
  failed_recovery, finish_run, observe_operation, progressed, recovery_after, reload_failed_record,
  reload_is_undone, save_after, start_failed_record, start_is_undone, started_record,
  stopped_record, succeeded_recovery,
}
use opensurge_fnos.Takeover.Sound.{
  IsSound, agrees, may_open, pending_warranted, router_was_silent, stage_warranted,
}
use opensurge_fnos.Takeover.Sound.Moves.{at_constant}
use opensurge_fnos.Takeover.Sound.Rules.{IsSound-same}
use opensurge_fnos.Takeover.Stage.{
  is_open, is_takeover_active, recovery_router_dhcp_disabled_confirmed,
}
use opensurge_fnos.Takeover.Store.{
  load_recovery, put_recovery, readable, recovery, save_operation, stamped, try_save,
}
use opensurge_fnos.Takeover.Types.{Operation, RecoveryState, append_recovery_note, finished}
use opensurge_fnos.Takeover.World.{
  Action, Event, M, Outside, Pending, Refusal, World, reload_gateway, restart_mihomo, start_gateway,
  stop_gateway,
}
use opensurge_fnos.Text.{Text, text_eq}

-- The world while the operation runs.
record Running (p : Pending) (w : World) : Type 0 where
  sound : IsSound w
  is_pending : w.pending ≡ some p

try_save-Running :
    {p : Pending} (saves : Bool) (now : ℕ) (s : RecoveryState)
    → ((w : World) → Running p w → agrees s ≡ true)
    → ((w : World) → Running p w → stage_warranted s.stage w.journal ≡ true)
    → Ensures (Running p) (try_save saves now s) (λ u. Running p) (λ e w. ⊥)
unfolding try_save put_recovery recovery readable stamped agrees
try_save-Running true now s a h = record {
  at = λ w r. record {
    sound = record {
      readable_file = refl;
      agreement = a w r;
      calls = r.sound.calls;
      stage_said = h w r;
      operation_said = r.sound.operation_said;
    };
    is_pending = r.is_pending;
  };
}
try_save-Running false now s a h = record {
  at = λ w r. record {
    sound = IsSound-same w (record w { file = w.file }) refl refl refl r.sound;
    is_pending = r.is_pending;
  };
}

abbrev Keeps : Pending → M (Unit {0}) → Type 0
Keeps p m = Ensures (Running p) m (λ u. Running p) (λ e w. ⊥)

said : (p : Pending) (w : World) → Running p w → pending_warranted (some p) w.journal ≡ true
said p w r = subst (λ x. pending_warranted x w.journal ≡ true) r.is_pending r.sound.operation_said

-- A start or a reload of a takeover has been launched after a silent probe.
silence :
    (p : Pending) (w : World) (a : Action)
    → Running p w
    → p.action ≡ a
    → (a ≡ start_gateway) ⊎ (a ≡ reload_gateway)
    → text_eq p.topology same_wifi_dhcp ≡ true
    → router_was_silent w.journal ≡ true
unfolding pending_warranted may_open
silence p w a r e (inl x) t =
    let k : may_open p.action w.journal ≡ true = ground (arith, said p w r, t) in
    subst (λ y. may_open y w.journal ≡ true) (e ∙ x) k
silence p w a r e (inr x) t =
    let k : may_open p.action w.journal ≡ true = ground (arith, said p w r, t) in
    subst (λ y. may_open y w.journal ≡ true) (e ∙ x) k

when_Keeps :
    (p : Pending) (b : Bool) (m : M (Unit {0}))
    → (b ≡ true → Keeps p m)
    → Keeps p (when b run m otherwise pure tt)
when_Keeps p b m h = Ensures-when b m (pure tt) h (λ e. record { at = λ w r. r })

confirmed_warranted :
    (j : List Event)
    → router_was_silent j ≡ true
    → stage_warranted recovery_router_dhcp_disabled_confirmed j ≡ true
unfolding stage_warranted is_takeover_active
confirmed_warranted j h = h

failed_recovery-Keeps :
    (o : Outside) (p : Pending) (e : Text) (a : Action)
    → p.action ≡ a
    → Keeps p (failed_recovery o p e a)
unfolding failed_recovery start_is_undone reload_is_undone start_failed_record reload_failed_record
    append_recovery_note agrees
failed_recovery-Keeps o p e start_gateway a =
    when_Keeps p (start_is_undone o p) (try_save o.saves_recovery o.now (start_failed_record p e))
      λ h.
        try_save-Running o.saves_recovery o.now (start_failed_record p e)
          (λ w r.
            at_constant (λ s. (if is_open s then true else false) ≡ true)
              recovery_router_dhcp_disabled_confirmed p.before.stage (ground arith)
              (ground (arith, h)) refl)
          λ w r.
            at_constant (λ s. stage_warranted s w.journal ≡ true)
              recovery_router_dhcp_disabled_confirmed p.before.stage (ground arith)
              (ground (arith, h))
              (confirmed_warranted w.journal
                (silence p w start_gateway r a (inl refl) (ground (arith, h))))
failed_recovery-Keeps o p e stop_gateway a = record { at = λ w r. r }
failed_recovery-Keeps o p e reload_gateway a =
    when_Keeps p (reload_is_undone o p e) (try_save o.saves_recovery o.now (reload_failed_record p))
      λ h.
        try_save-Running o.saves_recovery o.now (reload_failed_record p) (λ w r. refl)
          λ w r.
            confirmed_warranted w.journal
              (silence p w reload_gateway r a (inr refl) (ground (arith, h)))
failed_recovery-Keeps o p e restart_mihomo a = record { at = λ w r. r }

save_after-Keeps :
    (o : Outside) (p : Pending) (a : Action) (s : RecoveryState)
    → p.action ≡ a
    → text_eq p.topology same_wifi_dhcp ≡ true
    → Keeps p (save_after o a p.topology s)
unfolding save_after started_record stopped_record agrees stage_warranted is_takeover_active
save_after-Keeps o p start_gateway s h t =
    try_save-Running o.saves_recovery o.now (started_record p.topology s) (λ w r. refl)
      (λ w r. silence p w start_gateway r h (inl refl) t)
save_after-Keeps o p stop_gateway s h t =
    try_save-Running o.saves_recovery o.now (stopped_record p.topology s) (λ w r. refl)
      (λ w r. refl)
save_after-Keeps o p reload_gateway s h t = record { at = λ w r. r }
save_after-Keeps o p restart_mihomo s h t = record { at = λ w r. r }

recovery_after-Keeps :
    (o : Outside) (p : Pending) (result : Option Text) → Keeps p (recovery_after o p result)
unfolding recovery_after succeeded_recovery load_recovery
recovery_after-Keeps o p (some e) = failed_recovery-Keeps o p e p.action refl
recovery_after-Keeps o p none = when_Keeps p _ _ λ h.
    Ensures-bind (Ensures-gets (λ s. Running p) (λ w. recovery w.file) (λ w r. r))
      λ s. save_after-Keeps o p p.action s refl h

IsSound-After :
    (r : Result Refusal (Unit {0})) (w : World) → After (λ u. IsSound) (λ e w. ⊥) r w → IsSound w
IsSound-After (ok u) w h = h
IsSound-After (err e) w h = absurd h

save_operation-Keeps : (o : Outside) (p : Pending) (op : Operation) → Keeps p (save_operation o op)
unfolding save_operation
save_operation-Keeps o p op = record {
  at = λ w r. record {
    sound = IsSound-same w (save_operation o op w).1 refl refl refl r.sound;
    is_pending = r.is_pending;
  };
}

pub finish_run-IsSound :
    (o : Outside) (p : Pending) (result : Option Text) (w : World)
    → IsSound w
    → w.pending ≡ some p
    → IsSound (finish_run o p result w).1
unfolding finish_run pending_warranted
finish_run-IsSound o p result w h e =
    IsSound-After (finish_run o p result w).0 (finish_run o p result w).1 (
      (Ensures-bind (recovery_after-Keeps o p result) λ u.
          Ensures-bind (save_operation-Keeps o p (finished o.now result p.operation)) λ u'. record {
            at = λ v r. record {
              readable_file = r.sound.readable_file;
              agreement = r.sound.agreement;
              calls = r.sound.calls;
              stage_said = r.sound.stage_said;
              operation_said = refl;
            };
          }).at
        w (record { sound = h; is_pending = e }))

with_operation :
    (p : Pending) (op : Operation) (ops : List Operation) (w : World)
    → Running p w
    → IsSound (record w { pending = some (record p { operation = op }); operations = ops })
unfolding pending_warranted
with_operation p op ops w r = record {
  readable_file = r.sound.readable_file;
  agreement = r.sound.agreement;
  calls = r.sound.calls;
  stage_said = r.sound.stage_said;
  operation_said = said p w r;
}

pub observe_operation-IsSound :
    (o : Outside) (phase notice : Text) (p : Pending) (w : World)
    → IsSound w
    → w.pending ≡ some p
    → IsSound (observe_operation o phase notice p w).1
unfolding observe_operation ◌>>=◌ save_operation pending_warranted
observe_operation-IsSound o phase notice p w h e =
    let (op, changed) = progressed o.now phase notice p.operation in
    IsSound-After (observe_operation o phase notice p w).0 (observe_operation o phase notice p w).1
      ((Ensures-when {P = Running p} changed _ (pure tt)
          (λ c. record { at = λ v r. with_operation p op _ v r })
          λ c. record { at = λ v r. r.sound }).at
        w (record { sound = h; is_pending = e }))
