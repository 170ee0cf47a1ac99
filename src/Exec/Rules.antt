-- ===== src/Exec/Rules.antt =====
-- Rules for proving what an action establishes, one for each way to build an action.
use opensurge_fnos.Base.{Bool, false, refl, subst, true, ◌≡◌}
use opensurge_fnos.Exec.{
  Exec, Result, err, gets, ok, or_else, pure, raise, when◌run◌otherwise◌, ◌>>=◌,
}

-- From a state with `P`, the action ends in `Q a` when it returns `a`, and in `X e` when it
-- returns the error `e`.
abbrev pub After {ℓ} :
    {S E A : Type ℓ} → (A → S → Type ℓ) → (E → S → Type ℓ) → Result E A → S → Type ℓ
After Q X (ok a) s = Q a s
After Q X (err e) s = X e s

pub record Ensures {ℓ} {S E A : Type ℓ} (P : S → Type ℓ) (m : Exec S E A) (Q : A → S → Type ℓ)
    (X : E → S → Type ℓ) : Type ℓ where
  pub at : (s : S) → P s → After Q X (m s).0 (m s).1

module _ {ℓ} {S E A : Type ℓ} {X : E → S → Type ℓ} where
  pub Ensures-pure :
      {P : S → Type ℓ} (Q : A → S → Type ℓ) (a : A)
      → ((s : S) → P s → Q a s)
      → Ensures P (pure a) Q X
  Ensures-pure Q a h = record { at = h }

  pub Ensures-raise :
      {P : S → Type ℓ} (Q : A → S → Type ℓ) (e : E)
      → ((s : S) → P s → X e s)
      → Ensures P (raise e) Q X
  Ensures-raise Q e h = record { at = h }

  pub Ensures-gets :
      {P : S → Type ℓ} (Q : A → S → Type ℓ) (f : S → A)
      → ((s : S) → P s → Q (f s) s)
      → Ensures P (gets f) Q X
  Ensures-gets Q f h = record { at = h }

  pub Ensures-when :
      {P : S → Type ℓ} {Q : A → S → Type ℓ} (b : Bool) (m n : Exec S E A)
      → (b ≡ true → Ensures P m Q X)
      → (b ≡ false → Ensures P n Q X)
      → Ensures P (when b run m otherwise n) Q X
  Ensures-when true m n km kn = record { at = (km refl).at }
  Ensures-when false m n km kn = record { at = (kn refl).at }

  handle-After :
      {Q : A → S → Type ℓ} {Y : E → S → Type ℓ} (r : Result E A) (s : S) (h : E → Exec S E A)
      → After Q Y r s
      → ((e : E) → Ensures (Y e) (h e) Q X)
      → After Q X (or_else (λ _. (r, s)) h s).0 (or_else (λ _. (r, s)) h s).1
  handle-After (ok a) s h q k = q
  handle-After (err e) s h y k = (k e).at s y

  pub Ensures-or_else :
      {P : S → Type ℓ} {Q : A → S → Type ℓ} {Y : E → S → Type ℓ} {m : Exec S E A}
      {h : E → Exec S E A}
      → Ensures P m Q Y
      → ((e : E) → Ensures (Y e) (h e) Q X)
      → Ensures P (or_else m h) Q X
  Ensures-or_else {m} {h} km kh = record {
    at = λ s p. handle-After (m s).0 (m s).1 h (km.at s p) kh;
  }

module _ {ℓ} {S E A : Type ℓ} {Q Q' : A → S → Type ℓ} {X X' : E → S → Type ℓ} where
  weaken-After :
      (r : Result E A) (s : S)
      → ((a : A) (s : S) → Q a s → Q' a s)
      → ((e : E) (s : S) → X e s → X' e s)
      → After Q X r s
      → After Q' X' r s
  weaken-After (ok a) s q x h = q a s h
  weaken-After (err e) s q x h = x e s h

  pub Ensures-weaken :
      {P P' : S → Type ℓ} {m : Exec S E A}
      → Ensures P m Q X
      → ((s : S) → P' s → P s)
      → ((a : A) (s : S) → Q a s → Q' a s)
      → ((e : E) (s : S) → X e s → X' e s)
      → Ensures P' m Q' X'
  Ensures-weaken {m} k p q x = record {
    at = λ s h. weaken-After (m s).0 (m s).1 q x (k.at s (p s h));
  }

module _ {ℓ} {S E A B : Type ℓ} {Q : A → S → Type ℓ} {R : B → S → Type ℓ} {X : E → S → Type ℓ} where
  continue-After :
      (r : Result E A) (s : S) (f : A → Exec S E B)
      → After Q X r s
      → ((a : A) → Ensures (Q a) (f a) R X)
      → After R X (((λ _. (r, s)) >>= f) s).0 (((λ _. (r, s)) >>= f) s).1
  unfolding ◌>>=◌
  continue-After (ok a) s f q k = (k a).at s q
  continue-After (err e) s f q k = q

  pub Ensures-bind :
      {P : S → Type ℓ} {m : Exec S E A} {f : A → Exec S E B}
      → Ensures P m Q X
      → ((a : A) → Ensures (Q a) (f a) R X)
      → Ensures P (m >>= f) R X
  unfolding ◌>>=◌
  Ensures-bind {m} {f} km kf = record {
    at = λ s p. continue-After (m s).0 (m s).1 f (km.at s p) kf;
  }

module _ {ℓ} {S E A : Type ℓ} {Q : A → S → Type ℓ} {X : E → S → Type ℓ} where
  -- A fact that does not speak of the state is at hand from then on.
  pub Ensures-given :
      {P : S → Type ℓ} {F : Type ℓ} {m : Exec S E A}
      → (F → Ensures P m Q X)
      → Ensures (λ s. P s × F) m Q X
  Ensures-given k = record { at = λ s h. (k h.1).at s h.0 }

module _ {ℓ} {S E A : Type ℓ} {P : S → Type ℓ} {m : Exec S E A} {Q : A → S → Type ℓ}
    {X : E → S → Type ℓ} where
  pub Ensures-ok : Ensures P m Q X → (s : S) → P s → {a : A} → (m s).0 ≡ ok a → Q a (m s).1
  Ensures-ok k s p e = subst (λ r. After Q X r (m s).1) e (k.at s p)

  pub Ensures-err : Ensures P m Q X → (s : S) → P s → {x : E} → (m s).0 ≡ err x → X x (m s).1
  Ensures-err k s p e = subst (λ r. After Q X r (m s).1) e (k.at s p)
