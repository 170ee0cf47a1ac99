-- ===== src/Takeover/Sound/Operations.antt =====
-- The rules for request operations, and for the probe that runs in one.
use opensurge_fnos.Base.{
  Bool, List, Option, String, [], arith, false, none, refl, some, subst, sym, true, ℕ, ◌∷◌, ◌≡◌,
}
use opensurge_fnos.Exec.{pure, ◌>>=◌, ◌>>◌}
use opensurge_fnos.Exec.Rules.{After, Ensures, Ensures-bind, Ensures-gets, Ensures-pure}
use opensurge_fnos.Takeover.Begin.{
  begin_request_operation, check_operation, create_status, observed, operation_id, probe,
  save_and_finish,
}
use opensurge_fnos.Takeover.Sound.{
  agrees, is_warranted, may_open, pending_warranted, router_answers, router_was_silent,
  stage_warranted,
}
use opensurge_fnos.Takeover.Sound.Rules.{
  At, Fact, IsSound-same, Moved, Refused, answers, forget, nothing, says, silent, then_check,
}
use opensurge_fnos.Takeover.Sound.Saves.{Ensures-event}
use opensurge_fnos.Takeover.Stage.{Stage, is_stage, recovery_router_dhcp_restored}
use opensurge_fnos.Takeover.Store.{
  CreateErr, create_error, create_operation, create_refused, put_recovery, readable, recovery,
  save_operation, stamped, try_save,
}
use opensurge_fnos.Takeover.Types.{
  Operation, RecoveryState, finished, new_operation, valid_operation_id,
}
use opensurge_fnos.Takeover.World.{
  Action, Event, File, M, Outside, Pending, World, do_event, launched, probed, received, refuse,
  reload_gateway, restart_mihomo, set_dhcp, set_manual, start_gateway, stop_gateway,
}
use opensurge_fnos.Text.{Text, text}

module _ {f : File} {k : Fact} where
  At-same :
      (v w : World)
      → w.file ≡ v.file
      → w.journal ≡ v.journal
      → w.pending ≡ v.pending
      → At f k v
      → At f k w
  At-same v w hf hj hp h = record {
    sound = IsSound-same v w hf hj hp h.sound;
    same_file = cc;
    known = subst (λ j. says k j ≡ true) (sym hj) h.known;
  }

module _ {u : Bool} {f : File} {k : Fact} where
  pub Ensures-save_operation :
      (o : Outside) (op : Operation)
      → Ensures (At f k) (save_operation o op) (λ u. At f k) (Refused u f)
  unfolding save_operation
  Ensures-save_operation o op = record {
    at = λ w p. At-same w (save_operation o op w).1 refl refl refl p;
  }

  refused_lem :
      (status : CreateErr → ℕ) (e : Option CreateErr)
      → Ensures (At f k) (create_refused status e) (λ u. At f k) (Refused u f)
  unfolding create_refused refuse
  refused_lem status none = record { at = λ w p. p }
  refused_lem status (some e) = record { at = λ w p. forget f k w p }

  pub Ensures-create :
      (status : CreateErr → ℕ) (o : Outside) (op : Operation)
      → Ensures (At f k) (create_operation status o op) (λ u. At f k) (Refused u f)
  unfolding create_operation
  Ensures-create status o op =
      Ensures-bind (Ensures-gets (λ e. At f k) (λ w. create_error o op w.operations) (λ w p. p))
        λ e. Ensures-bind (refused_lem status e) (λ u. Ensures-save_operation o op)

module _ {A : Type 0} {u : Bool} {f : File} {k : Fact} {Q : A → World → Type 0} where
  pub then_begin :
      (o : Outside) (id : Text) (kind : String) (m : Operation → M A)
      → ((op : Operation) → Ensures (At f k) (m op) Q (Refused u f))
      → Ensures (At f k) (begin_request_operation o id kind >>= m) Q (Refused u f)
  unfolding begin_request_operation
  then_begin o id kind m h =
      Ensures-bind
        (then_check (valid_operation_id (operation_id o id)) 400 "invalid_operation_id"
          (create_operation create_status o (new_operation o.now (operation_id o id) (text kind))
            >> pure (new_operation o.now (operation_id o id) (text kind)))
          λ e.
            Ensures-bind
              (Ensures-create create_status o (new_operation o.now (operation_id o id) (text kind)))
              λ u.
                Ensures-pure (λ op. At f k) (new_operation o.now (operation_id o id) (text kind))
                  (λ w p. p))
        h

  pub then_check_operation :
      (b : Bool) (o : Outside) (op : Operation) (status : ℕ) (code : String) (m : M A)
      → (b ≡ true → Ensures (At f k) m Q (Refused u f))
      → Ensures (At f k) (check_operation b o op status code >> m) Q (Refused u f)
  unfolding check_operation refuse ◌>>=◌
  then_check_operation true o op status code m h = record { at = λ w p. (h refl).at w p }
  then_check_operation false o op status code m h = record {
    at = λ w p.
        forget f k (save_operation o (finished o.now (some (text code)) op) w).1
          ((Ensures-save_operation {u = true} o (finished o.now (some (text code)) op)).at w p);
  }

-- What a probe tells: no server answers, or some do, or it has failed.
unfoldable pub told : Option (List Text) → Fact
told none = nothing
told (some []) = silent
told (some (s ∷ servers)) = answers

silent_kept :
    (e : Event) (j : List Event) → router_was_silent j ≡ true → router_was_silent (e ∷ j) ≡ true
unfolding router_was_silent
silent_kept (received r) j h = h
silent_kept (probed []) j h = refl
silent_kept (probed (s ∷ servers)) j h = h
silent_kept (set_dhcp service) j h = h
silent_kept (set_manual c) j h = h
silent_kept (launched a topology) j h = h

pub may_open_kept :
    (a : Action) (e : Event) (j : List Event) → may_open a j ≡ true → may_open a (e ∷ j) ≡ true
unfolding may_open
may_open_kept start_gateway e j h = silent_kept e j h
may_open_kept stop_gateway e j h = refl
may_open_kept reload_gateway e j h = silent_kept e j h
may_open_kept restart_mihomo e j h = refl

-- Whatever is recorded, an operation stays as warranted as it was.
pub pending_warranted_kept :
    (p : Option Pending) (e : Event) (j : List Event)
    → pending_warranted p j ≡ true
    → pending_warranted p (e ∷ j) ≡ true
unfolding pending_warranted
pending_warranted_kept none e j h = refl
pending_warranted_kept (some p) e j h = ground (arith, may_open_kept p.action e j)

-- A probe may come at any stage but that of the restored router.
probe_event :
    {u : Bool} {f : File} (s : List Text)
    → is_stage recovery_router_dhcp_restored (recovery f).stage ≡ false
    → Ensures (At f nothing) (do_event (probed s)) (λ u. At f (told (some s))) (Refused u f)
unfolding is_warranted stage_warranted router_answers router_was_silent says told
probe_event {f} [] h =
    Ensures-event nothing silent (probed []) (λ w p. refl)
      (λ w p. ground (arith, h, silent_kept (probed []) w.journal))
      (λ w p. pending_warranted_kept w.pending (probed []) w.journal p.sound.operation_said)
      (λ w p. refl)
probe_event {f} (x ∷ xs) h =
    Ensures-event nothing answers (probed (x ∷ xs)) (λ w p. refl)
      (λ w p. ground (
        arith,
        h,
        subst (λ g. stage_warranted (recovery g).stage w.journal ≡ true) p.same_file
            p.sound.stage_said,
      ))
      (λ w p. pending_warranted_kept w.pending (probed (x ∷ xs)) w.journal p.sound.operation_said)
      (λ w p. refl)

module _ {A : Type 0} {u : Bool} {f : File} {Q : A → World → Type 0} where
  then_observed :
      (x : Option (List Text)) (m : Option (List Text) → M A)
      → is_stage recovery_router_dhcp_restored (recovery f).stage ≡ false
      → Ensures (At f (told x)) (m x) Q (Refused u f)
      → Ensures (At f nothing) (observed x >>= m) Q (Refused u f)
  unfolding observed told ◌>>=◌
  then_observed none m h k = record { at = λ w p. k.at w p }
  then_observed (some s) m h k = record {
    at = λ w p. (Ensures-bind (probe_event s h) (λ u. k)).at w p;
  }

  pub then_probe :
      (o : Outside) (m : Option (List Text) → M A)
      → is_stage recovery_router_dhcp_restored (recovery f).stage ≡ false
      → Ensures (At f (told o.dhcp_servers)) (m o.dhcp_servers) Q (Refused u f)
      → Ensures (At f nothing) (probe o >>= m) Q (Refused u f)
  unfolding probe
  then_probe o m h k = then_observed o.dhcp_servers m h k

module _ (u : Bool) {f : File} {k : Fact} (R : Stage → Stage → Bool) where
  finished_or_kept :
      (b : Bool) (o : Outside) (op : Operation) (s : RecoveryState) (w : World)
      → agrees s ≡ true
      → stage_warranted s.stage w.journal ≡ true
      → R (recovery f).stage s.stage ≡ true
      → At f k w
      → (let m : M RecoveryState =
            (try_save b o.now s
              >> (check_operation b o op 500 "recovery_write_failed"
                  >> (save_operation o (finished o.now none op) >> pure s))) in
          After (Moved R f) (Refused u f) (m w).0 (m w).1)
  unfolding try_save put_recovery check_operation save_operation refuse ◌>>=◌ recovery readable
      stamped agrees
  finished_or_kept true o op s w a h r p = record {
    sound = record {
      readable_file = refl;
      agreement = a;
      calls = p.sound.calls;
      stage_said = h;
      operation_said = p.sound.operation_said;
    };
    saved = refl;
    move = r;
  }
  finished_or_kept false o op s w a h r p =
      forget f k (save_operation o (finished o.now (some (text "recovery_write_failed")) op) w).1 (
        At-same w (save_operation o (finished o.now (some (text "recovery_write_failed")) op) w).1
          refl refl refl p)

pub Ensures-save_and_finish :
    {u : Bool} {f : File} {k : Fact} {R : Stage → Stage → Bool} (o : Outside) (op : Operation)
    (s : RecoveryState)
    → agrees s ≡ true
    → ((w : World) → At f k w → stage_warranted s.stage w.journal ≡ true)
    → R (recovery f).stage s.stage ≡ true
    → Ensures (At f k) (save_and_finish o op s) (Moved R f) (Refused u f)
unfolding save_and_finish
Ensures-save_and_finish {u} {f} {k} {R} o op s a h r = record {
  at = λ w p. finished_or_kept u R o.saves_recovery o op s w a (h w p) r p;
}
