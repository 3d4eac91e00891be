-- ===== src/Base/Monad.antt =====
-- `do` blocks over a state, for methods that change it and may raise.
use mathlib.Core.Path.{◌≡◌, refl, ap}
use bear_rpc.Base.Outcome.{Result, ok, raise, Error, Exec, continue}

module _ {ℓ} {S A : Type ℓ} where
  abbrev pub pure : A → Exec S A
  pure a s = (ok a, s)

  abbrev pub fail : Error → Exec S A
  fail e s = (raise e, s)

  abbrev pub lift : Result A → Exec S A
  lift r s = (r, s)

module _ {ℓ} {S A B : Type ℓ} where
  infixl 10 ◌>>=◌ ◌>>◌
  abbrev pub ◌>>=◌ : Exec S A → (A → Exec S B) → Exec S B
  ◌>>=◌ m f s = continue (m s).0 f (m s).1

  abbrev pub ◌>>◌ : Exec S A → Exec S B → Exec S B
  m >> n = m >>= λ _. n

  -- The rest of a block goes on from what its first step gives.
  pub bind_ok :
      (m : Exec S A) (f : A → Exec S B) (s s' : S) (a : A) → m s ≡ (ok a, s') → (m >>= f) s ≡ f a s'
  bind_ok m f s s' a e = ap (λ t. continue t.0 f t.1) e

  pub bind_raise :
      (m : Exec S A) (f : A → Exec S B) (s s' : S) (x : Error)
      → m s ≡ (raise x, s')
      → (m >>= f) s ≡ (raise x, s')
  bind_raise m f s s' x e = ap (λ t. continue t.0 f t.1) e

  continue-eq_ok :
      (r : Result A × S) (f : A → Exec S B) (b : B) (s'' : S)
      → continue r.0 f r.1 ≡ (ok b, s'')
      → (a : A) × (s' : S) × (r ≡ (ok a, s')) × (f a s' ≡ (ok b, s''))
  continue-eq_ok (ok a, s') f b s'' h = (a, s', refl, h)
  continue-eq_ok (raise x, s') f b s'' h = cc

  -- A block that returns: its first step returned, and so did the rest behind it.
  pub bind-eq_ok :
      (m : Exec S A) (f : A → Exec S B) (s : S) (b : B) (s'' : S)
      → (m >>= f) s ≡ (ok b, s'')
      → (a : A) × (s' : S) × (m s ≡ (ok a, s')) × (f a s' ≡ (ok b, s''))
  bind-eq_ok m f s b s'' h = continue-eq_ok (m s) f b s'' h
