-- ===== src/Exec.antt =====
-- Go functions that change state and may return an error: what was changed before an error stays
-- changed, so the state comes back beside the error too.
pub mod Rules
use opensurge_fnos.Base.{Bool, false, true, ◌≡◌}

pub data Result {ℓ} (E A : Type ℓ) : Type ℓ where
  ok : A → Result E A
  err : E → Result E A

abbrev pub Exec {ℓ} : Type ℓ → Type ℓ → Type ℓ → Type ℓ
Exec S E A = S → Result E A × S

module _ {ℓ} {S E A : Type ℓ} where
  abbrev pub pure : A → Exec S E A
  pure a s = (ok a, s)

  abbrev pub raise : E → Exec S E A
  raise e s = (err e, s)

  abbrev pub gets : (S → A) → Exec S E A
  gets f s = (ok (f s), s)

  infix 1 when◌run◌otherwise◌
  -- An `if` between two actions.
  abbrev pub when◌run◌otherwise◌ : Bool → Exec S E A → Exec S E A → Exec S E A
  when◌run◌otherwise◌ true m n s = m s
  when◌run◌otherwise◌ false m n s = n s

  -- `if err := m(); err != nil { return h(err) }`: `h` runs on the state that the failure left.
  abbrev handle : Result E A → (E → Exec S E A) → Exec S E A
  handle (ok a) h s = (ok a, s)
  handle (err e) h s = h e s

  abbrev pub or_else : Exec S E A → (E → Exec S E A) → Exec S E A
  or_else m h s = let (r, s') = m s in handle r h s'

module _ {ℓ} {S E A B : Type ℓ} where
  abbrev continue : Result E A → (A → Exec S E B) → Exec S E B
  continue (ok a) f s = f a s
  continue (err e) f s = (err e, s)

  infixl 10 ◌>>=◌ ◌>>◌
  unfoldable pub ◌>>=◌ : Exec S E A → (A → Exec S E B) → Exec S E B
  ◌>>=◌ m f s = let (r, s') = m s in continue r f s'

  abbrev pub ◌>>◌ : Exec S E A → Exec S E B → Exec S E B
  m >> n = m >>= λ _. n

pub ok_injective {ℓ} : {E A : Type ℓ} (a b : A) → (let r : Result E A = ok a in r ≡ ok b) → a ≡ b
ok_injective a b h = cc
