-- ===== src/Takeover/Sound/Rules.antt =====
-- Rules for the handlers, beside those of Exec.Rules: a handler keeps the world sound and the file
-- as it is until it saves.
use opensurge_fnos.Base.{
  Bool, List, Option, String, false, if◌then◌else◌, inl, none, refl, some, subst, sym, true, ℕ,
  ◌||◌, ◌≡◌, ◌⊎◌,
}
use opensurge_fnos.Exec.{pure, ◌>>=◌, ◌>>◌}
use opensurge_fnos.Exec.Rules.{After, Ensures, Ensures-bind}
use opensurge_fnos.Takeover.Sound.{IsSound, router_answers, router_was_silent}
use opensurge_fnos.Takeover.Stage.{Stage, is_stage, recovery_idle, recovery_prepared}
use opensurge_fnos.Takeover.Store.{load_recovery, read_recovery, recovery}
use opensurge_fnos.Takeover.Types.{RecoveryState}
use opensurge_fnos.Takeover.World.{Event, File, M, Refusal, World, check, need, refuse}

-- What a handler knows of the journal.
pub data Fact : Type 0 where
  nothing answers silent : Fact

unfoldable pub says : Fact → List Event → Bool
unfolding router_answers router_was_silent
says nothing j = true
says answers j = router_answers j
says silent j = router_was_silent j

pub record At (f : File) (k : Fact) (w : World) : Type 0 where
  pub sound : IsSound w
  pub same_file : w.file ≡ f
  pub known : says k w.journal ≡ true

-- A failure after the record was written, a card that was not written or not removed: only some
-- requests (`u`) may end so.
pub record HalfDone (u : Bool) (w : World) : Type 0 where
  pub sound : IsSound w
  pub stage_left :
      (let s = (recovery w.file).stage in is_stage recovery_prepared s || is_stage recovery_idle s)
      ≡ true
  pub may_be_left : u ≡ true

-- A refused request: the file is as before, but for a failure after the record was written.
abbrev pub Refused : Bool → File → Refusal → World → Type 0
Refused u f e w = At f nothing w ⊎ HalfDone u w

-- An answered one: the stage it answers with is the saved one, and a move that `R` allows.
pub record Moved (R : Stage → Stage → Bool) (f : File) (s : RecoveryState) (w : World)
    : Type 0 where
  pub sound : IsSound w
  pub saved : (recovery w.file).stage ≡ s.stage
  pub move : R (recovery f).stage s.stage ≡ true

pub forget : (f : File) (k : Fact) (w : World) {u : Bool} → At f k w → At f nothing w ⊎ HalfDone u w
unfolding says
forget f k w h = inl (record { sound = h.sound; same_file = h.same_file; known = refl })

-- A world that differs from a sound one elsewhere is sound.
pub IsSound-same :
    (v w : World)
    → w.file ≡ v.file
    → w.journal ≡ v.journal
    → w.pending ≡ v.pending
    → IsSound v
    → IsSound w
IsSound-same v w hf hj hp h = record {
  readable_file = cc;
  agreement = cc;
  calls = cc;
  stage_said = cc;
  operation_said = cc;
}

module _ {A : Type 0} {u : Bool} {f : File} {k : Fact} {Q : A → World → Type 0} where
  pub then_check :
      (b : Bool) (status : ℕ) (code : String) (m : M A)
      → (b ≡ true → Ensures (At f k) m Q (Refused u f))
      → Ensures (At f k) (check b status code >>= λ u. m) Q (Refused u f)
  unfolding check refuse ◌>>=◌
  then_check true status code m h = record { at = λ w p. (h refl).at w p }
  then_check false status code m h = record { at = λ w p. forget f k w p }

  pub then_need :
      {B : Type 0} (x : Option B) (status : ℕ) (code : String) (m : B → M A)
      → ((b : B) → x ≡ some b → Ensures (At f k) (m b) Q (Refused u f))
      → Ensures (At f k) (need x status code >>= m) Q (Refused u f)
  unfolding need refuse ◌>>=◌
  then_need none status code m h = record { at = λ w p. forget f k w p }
  then_need (some b) status code m h = record { at = λ w p. (h b refl).at w p }

  pub then_read :
      (m : RecoveryState → M A)
      → Ensures (At f k) (m (recovery f)) Q (Refused u f)
      → Ensures (At f k) (read_recovery >>= m) Q (Refused u f)
  unfolding read_recovery refuse ◌>>=◌
  then_read m h = record {
    at = λ w p.
        subst
          (λ b.
            After Q (Refused u f)
              (((λ w. (if b then pure (recovery w.file) else refuse 500 "recovery_read_failed") w)
                  >>= m)
                w).0
              (((λ w. (if b then pure (recovery w.file) else refuse 500 "recovery_read_failed") w)
                  >>= m)
                w).1)
          (sym p.sound.readable_file)
          (subst (λ g. After Q (Refused u f) (m (recovery g) w).0 (m (recovery g) w).1)
            (sym p.same_file) (h.at w p));
  }

  pub then_load :
      (m : RecoveryState → M A)
      → Ensures (At f k) (m (recovery f)) Q (Refused u f)
      → Ensures (At f k) (load_recovery >>= m) Q (Refused u f)
  unfolding load_recovery ◌>>=◌
  then_load m h = record {
    at = λ w p.
        subst (λ g. After Q (Refused u f) (m (recovery g) w).0 (m (recovery g) w).1)
          (sym p.same_file) (h.at w p);
  }

  -- An action that always succeeds.
  pub then_keep :
      {k' : Fact} (n : M (Unit {0})) (m : M A)
      → Ensures (At f k') n (λ u. At f k) (Refused u f)
      → Ensures (At f k) m Q (Refused u f)
      → Ensures (At f k') (n >> m) Q (Refused u f)
  then_keep n m hn hm = Ensures-bind hn (λ u. hm)
