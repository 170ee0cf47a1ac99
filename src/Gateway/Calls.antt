-- ===== src/Gateway/Calls.antt =====
-- Which dependencies an action calls, by the trace that the world records.
pub mod Interrupted
pub mod Restarted
use opensurge_fnos.Base.{All, Bool, Option, arith, false, true, ◌≡◌}
use opensurge_fnos.Exec.{Result, err, gets, ok, or_else, pure, raise, when◌run◌otherwise◌, ◌>>=◌}
use opensurge_fnos.Gateway.Tracked.{collect}
use opensurge_fnos.Gateway.Types.{
  Call, Err, Phase, State, context_err, load_state, progress, remove_state, save_state,
}
use opensurge_fnos.Gateway.World.{
  Host, M, World, answer, ask, change, check_context, load, observe, remove, report, save,
}

-- Whatever the dependencies answer, the action makes only calls that `allowed` accepts.
pub record Only {A : Type 0} (allowed : Call → Bool) (m : M A) : Type 0 where
  pub at :
      (w : World) → All (λ c. allowed c ≡ true) w.trace → All (λ c. allowed c ≡ true) (m w).1.trace

module _ {allowed : Call → Bool} where
  pub Only-pure : {A : Type 0} (a : A) → Only allowed (pure a)
  Only-pure a = record { at = λ w h. h }

  pub Only-raise : {A : Type 0} (e : Err) → Only allowed (raise {A = A} e)
  Only-raise e = record { at = λ w h. h }

  pub Only-gets : {A : Type 0} (f : World → A) → Only allowed (gets f)
  Only-gets f = record { at = λ w h. h }

  pub Only-answer :
      {A : Type 0} (c : Call) (f : World → A) → allowed c ≡ true → Only allowed (answer c f)
  unfolding answer
  Only-answer c f a = record { at = λ w h. ground arith }

  pub Only-ask : (c : Call) → allowed c ≡ true → Only allowed (ask c)
  unfolding ask
  Only-ask c a = record { at = λ w h. ground arith }

  pub Only-observe :
      {A : Type 0} (c : Call) (f : World → A) → allowed c ≡ true → Only allowed (observe c f)
  unfolding observe
  Only-observe c f a = record { at = λ w h. (a, h) }

  pub Only-report : (p : Phase) → allowed (progress p) ≡ true → Only allowed (report p)
  unfolding report
  Only-report p a = record { at = λ w h. (a, h) }

  pub Only-check_context : allowed context_err ≡ true → Only allowed check_context
  unfolding check_context
  Only-check_context a = record { at = λ w h. ground arith }

  pub Only-load : allowed load_state ≡ true → Only allowed load
  unfolding load
  Only-load a = record { at = λ w h. ground arith }

  pub Only-save : (s : State) → allowed (save_state s) ≡ true → Only allowed (save s)
  unfolding save
  Only-save s a = record { at = λ w h. ground arith }

  pub Only-remove : allowed remove_state ≡ true → Only allowed remove
  unfolding remove
  Only-remove a = record { at = λ w h. ground arith }

  pub Only-change : (c : Call) (f : Host → Host) → allowed c ≡ true → Only allowed (change c f)
  unfolding change
  Only-change c f a = record { at = λ w h. ground arith }

  pub Only-collect :
      {A : Type 0} {m : M A} (acc : Option Err) → Only allowed m → Only allowed (collect acc m)
  unfolding collect
  Only-collect acc k = record { at = k.at }

  pub Only-when :
      {A : Type 0} (b : Bool) {m n : M A}
      → Only allowed m
      → Only allowed n
      → Only allowed (when b run m otherwise n)
  Only-when true km kn = record { at = km.at }
  Only-when false km kn = record { at = kn.at }

  continue-Only :
      {A B : Type 0} (r : Result Err A) (w : World) (f : A → M B)
      → All (λ c. allowed c ≡ true) w.trace
      → ((a : A) → Only allowed (f a))
      → All (λ c. allowed c ≡ true) (((λ _. (r, w)) >>= f) w).1.trace
  unfolding ◌>>=◌
  continue-Only (ok a) w f h k = (k a).at w h
  continue-Only (err e) w f h k = h

  pub Only-bind :
      {A B : Type 0} {m : M A} {f : A → M B}
      → Only allowed m
      → ((a : A) → Only allowed (f a))
      → Only allowed (m >>= f)
  unfolding ◌>>=◌
  Only-bind {m} {f} km kf = record { at = λ w h. continue-Only (m w).0 (m w).1 f (km.at w h) kf }

  handle-Only :
      {A : Type 0} (r : Result Err A) (w : World) (h : Err → M A)
      → All (λ c. allowed c ≡ true) w.trace
      → ((e : Err) → Only allowed (h e))
      → All (λ c. allowed c ≡ true) (or_else (λ _. (r, w)) h w).1.trace
  handle-Only (ok a) w h q k = q
  handle-Only (err e) w h q k = (k e).at w q

  pub Only-or_else :
      {A : Type 0} {m : M A} {h : Err → M A}
      → Only allowed m
      → ((e : Err) → Only allowed (h e))
      → Only allowed (or_else m h)
  Only-or_else {m} {h} km kh = record { at = λ w q. handle-Only (m w).0 (m w).1 h (km.at w q) kh }

pub ruleset only_rules = (
  Only-pure, Only-raise, Only-gets, Only-answer, Only-ask, Only-observe, Only-report,
  Only-check_context, Only-load, Only-save, Only-remove, Only-change, Only-collect, Only-when,
  Only-bind,
)
