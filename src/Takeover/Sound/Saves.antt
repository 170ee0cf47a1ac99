-- ===== src/Takeover/Sound/Saves.antt =====
-- The rules for what changes the record or the journal.
use opensurge_fnos.Base.{Bool, arith, false, refl, subst, sym, true, ℕ, ◌||◌, ◌∷◌, ◌≡◌}
use opensurge_fnos.Exec.{pure, ◌>>=◌, ◌>>◌}
use opensurge_fnos.Exec.Rules.{After, Ensures}
use opensurge_fnos.Takeover.Sound.{
  IsSound, agrees, all_warranted, is_warranted, pending_warranted, stage_warranted,
}
use opensurge_fnos.Takeover.Sound.Rules.{
  At, Fact, HalfDone, IsSound-same, Moved, Refused, forget, says,
}
use opensurge_fnos.Takeover.Stage.{Stage, is_stage, recovery_idle, recovery_prepared}
use opensurge_fnos.Takeover.Store.{
  put_recovery, readable, recovery, save_recovery, stamped, try_save,
}
use opensurge_fnos.Takeover.Types.{RecoveryState}
use opensurge_fnos.Takeover.World.{Event, File, Outside, World, check, do_event, refuse}

module _ {f : File} where
  -- Whether the record is saved or not.
  saved_or_kept :
      (u : Bool) (R : Stage → Stage → Bool) (b : Bool) (now : ℕ) (s : RecoveryState) (k : Fact)
      (w : World)
      → agrees s ≡ true
      → stage_warranted s.stage w.journal ≡ true
      → R (recovery f).stage s.stage ≡ true
      → At f k w
      → After
          (Moved R f)
          (Refused u f)
          ((try_save b now s >> (check b 500 "recovery_write_failed" >> pure s)) w).0
          ((try_save b now s >> (check b 500 "recovery_write_failed" >> pure s)) w).1
  unfolding try_save put_recovery check refuse ◌>>=◌ recovery readable stamped agrees
  saved_or_kept u R true now s k w a h r p = record {
    sound = record {
      readable_file = refl;
      agreement = a;
      calls = p.sound.calls;
      stage_said = h;
      operation_said = p.sound.operation_said;
    };
    saved = refl;
    move = r;
  }
  saved_or_kept u R false now s k w a h r p =
      forget f k (record w { file = w.file })
        (record {
          sound = IsSound-same w (record w { file = w.file }) refl refl refl p.sound;
          same_file = p.same_file;
          known = p.known;
        })

  pub Ensures-save :
      {u : Bool} {R : Stage → Stage → Bool} {k : Fact} (o : Outside) (s : RecoveryState)
      → ((w : World) → At f k w → agrees s ≡ true)
      → ((w : World) → At f k w → stage_warranted s.stage w.journal ≡ true)
      → R (recovery f).stage s.stage ≡ true
      → Ensures (At f k) (save_recovery o s) (Moved R f) (Refused u f)
  unfolding save_recovery
  Ensures-save {u} {R} {k} o s a h r = record {
    at = λ w p. saved_or_kept u R o.saves_recovery o.now s k w (a w p) (h w p) r p;
  }

  -- A call or a finding that rests on the journal, and takes nothing from the stage.
  pub Ensures-event :
      {u : Bool} (k k' : Fact) (e : Event)
      → ((w : World) → At f k w → is_warranted e w.journal ≡ true)
      → ((w : World) → At f k w → stage_warranted (recovery f).stage (e ∷ w.journal) ≡ true)
      → ((w : World) → At f k w → pending_warranted w.pending (e ∷ w.journal) ≡ true)
      → ((w : World) → At f k w → says k' (e ∷ w.journal) ≡ true)
      → Ensures (At f k) (do_event e) (λ u. At f k') (Refused u f)
  unfolding do_event all_warranted
  Ensures-event k k' e hw hs hp hk = record {
    at = λ w p. record {
      sound = record {
        readable_file = p.sound.readable_file;
        agreement = p.sound.agreement;
        calls = ground (arith, hw w p, p.sound.calls);
        stage_said =
            subst (λ g. stage_warranted (recovery g).stage (e ∷ w.journal) ≡ true) (sym p.same_file)
              (hs w p);
        operation_said = hp w p;
      };
      same_file = p.same_file;
      known = hk w p;
    };
  }

abbrev pub is_before : Stage → Bool
is_before s = is_stage recovery_prepared s || is_stage recovery_idle s

-- The second write, which takes the record back or fails too.
pub HalfDone-put :
    {u : Bool} (b : Bool) (now : ℕ) (s : RecoveryState) (w : World)
    → IsSound w
    → is_before (recovery w.file).stage ≡ true
    → agrees s ≡ true
    → stage_warranted s.stage w.journal ≡ true
    → is_before s.stage ≡ true
    → u ≡ true
    → HalfDone u (put_recovery b now s w)
unfolding put_recovery recovery readable stamped agrees
HalfDone-put true now s w h l a j l' c = record {
  sound = record {
    readable_file = refl;
    agreement = a;
    calls = h.calls;
    stage_said = j;
    operation_said = h.operation_said;
  };
  stage_left = l';
  may_be_left = c;
}
HalfDone-put false now s w h l a j l' c = record {
  sound = IsSound-same w (record w { file = w.file }) refl refl refl h;
  stage_left = l;
  may_be_left = c;
}
