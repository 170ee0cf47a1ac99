-- ===== src/Gateway/Quiet.antt =====
-- The checks before a takeover change neither the host nor the state file.
pub mod Checks
use opensurge_fnos.Base.{Bool, Option, arith, false, refl, true, ◌∙◌, ◌≡◌}
use opensurge_fnos.Exec.{Result, err, gets, ok, or_else, pure, raise, when◌run◌otherwise◌, ◌>>=◌}
use opensurge_fnos.Exec.Rules.{After, Ensures}
use opensurge_fnos.Gateway.Tracked.{collect}
use opensurge_fnos.Gateway.Types.{Call, Err, Phase, State}
use opensurge_fnos.Gateway.World.{Host, M, World, answer, ask, check_context, load, observe, report}

-- The host, the state file and the answers to come are the same.
abbrev pub Same : World → World → Type 0
Same w w' = (w'.host ≡ w.host) × (w'.file ≡ w.file) × (w'.env ≡ w.env)

Same-trans : (w w' w'' : World) → Same w w' → Same w' w'' → Same w w''
Same-trans w w' w'' h k = (k.0 ∙ h.0, k.1 ∙ h.1, k.2 ∙ h.2)

pub record Quiet {A : Type 0} (m : M A) : Type 0 where
  pub at : (w : World) → Same w (m w).1

pub Quiet-pure : {A : Type 0} (a : A) → Quiet (pure a)
Quiet-pure a = record { at = λ w. (refl, refl, refl) }

pub Quiet-raise : {A : Type 0} (e : Err) → Quiet {A = A} (raise e)
Quiet-raise e = record { at = λ w. (refl, refl, refl) }

pub Quiet-gets : {A : Type 0} (f : World → A) → Quiet (gets f)
Quiet-gets f = record { at = λ w. (refl, refl, refl) }

pub Quiet-answer : {A : Type 0} (c : Call) (f : World → A) → Quiet (answer c f)
unfolding answer
Quiet-answer c f = record { at = λ w. ground arith }

pub Quiet-ask : (c : Call) → Quiet (ask c)
unfolding ask
Quiet-ask c = record { at = λ w. ground arith }

pub Quiet-observe : {A : Type 0} (c : Call) (f : World → A) → Quiet (observe c f)
unfolding observe
Quiet-observe c f = record { at = λ w. (refl, refl, refl) }

pub Quiet-report : (p : Phase) → Quiet (report p)
unfolding report
Quiet-report p = record { at = λ w. (refl, refl, refl) }

pub Quiet-check_context : Quiet check_context
unfolding check_context
Quiet-check_context = record { at = λ w. ground arith }

pub Quiet-load : Quiet load
unfolding load
Quiet-load = record { at = λ w. ground arith }

pub Quiet-collect : {A : Type 0} {m : M A} (acc : Option Err) → Quiet m → Quiet (collect acc m)
unfolding collect
Quiet-collect acc k = record { at = k.at }

pub Quiet-when :
    {A : Type 0} (b : Bool) {m n : M A} → Quiet m → Quiet n → Quiet (when b run m otherwise n)
Quiet-when true km kn = record { at = km.at }
Quiet-when false km kn = record { at = kn.at }

continue-Quiet :
    {A B : Type 0} (w : World) (r : Result Err A) (w' : World) (f : A → M B)
    → Same w w'
    → ((a : A) → Quiet (f a))
    → Same w (((λ _. (r, w')) >>= f) w).1
unfolding ◌>>=◌
continue-Quiet w (ok a) w' f h k = Same-trans w w' (f a w').1 h ((k a).at w')
continue-Quiet w (err e) w' f h k = h

pub Quiet-bind :
    {A B : Type 0} {m : M A} {f : A → M B} → Quiet m → ((a : A) → Quiet (f a)) → Quiet (m >>= f)
unfolding ◌>>=◌
Quiet-bind {m} {f} km kf = record { at = λ w. continue-Quiet w (m w).0 (m w).1 f (km.at w) kf }

handle-Quiet :
    {A : Type 0} (w : World) (r : Result Err A) (w' : World) (h : Err → M A)
    → Same w w'
    → ((e : Err) → Quiet (h e))
    → Same w (or_else (λ _. (r, w')) h w).1
handle-Quiet w (ok a) w' h q k = q
handle-Quiet w (err e) w' h q k = Same-trans w w' (h e w').1 q ((k e).at w')

pub Quiet-or_else :
    {A : Type 0} {m : M A} {h : Err → M A}
    → Quiet m
    → ((e : Err) → Quiet (h e))
    → Quiet (or_else m h)
Quiet-or_else {m} {h} km kh = record { at = λ w. handle-Quiet w (m w).0 (m w).1 h (km.at w) kh }

pub ruleset quiet_rules = (
  Quiet-pure, Quiet-raise, Quiet-gets, Quiet-answer, Quiet-ask, Quiet-observe, Quiet-report,
  Quiet-check_context, Quiet-load, Quiet-collect, Quiet-when, Quiet-bind,
)

-- A quiet action keeps whatever is said of the host and the file alone.
pub Quiet-Ensures :
    {A : Type 0} {m : M A} (b : Host) (f : Option State)
    → Quiet m
    → Ensures
        (λ w. (w.host ≡ b) × (w.file ≡ f))
        m
        (λ a w. (w.host ≡ b) × (w.file ≡ f))
        (λ e w. (w.host ≡ b) × (w.file ≡ f))
Quiet-Ensures {m} b f k = record {
  at = λ w h. quiet_after (m w).0 (m w).1 ((k.at w).0 ∙ h.0, (k.at w).1 ∙ h.1);
}
  where
    quiet_after :
        {A : Type 0} (r : Result Err A) (w : World)
        → (w.host ≡ b) × (w.file ≡ f)
        → After (λ a w. (w.host ≡ b) × (w.file ≡ f)) (λ e w. (w.host ≡ b) × (w.file ≡ f)) r w
    quiet_after (ok a) w h = h
    quiet_after (err e) w h = h

-- A quiet action keeps whatever is said of the host, the file and the answers.
pub Quiet-keeps :
    {A : Type 0} {m : M A} (P : World → Type 0)
    → Quiet m
    → ((w w' : World) → Same w w' → P w → P w')
    → Ensures P m (λ a. P) (λ e. P)
Quiet-keeps {m} P k keep = record {
  at = λ w h. kept_after (m w).0 (m w).1 (keep w (m w).1 (k.at w) h);
}
  where
    kept_after : {A : Type 0} (r : Result Err A) (w : World) → P w → After (λ a. P) (λ e. P) r w
    kept_after (ok a) w h = h
    kept_after (err e) w h = h
