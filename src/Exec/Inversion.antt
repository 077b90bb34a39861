-- ===== src/Exec/Inversion.antt =====
-- What a method that returned has done, step by step.
use aries_framework_javascri.Prelude.{◌≡◌, refl, ap, Bool, true, false, Option, none, some}
use aries_framework_javascri.Exec.Errors.{Error}
use aries_framework_javascri.Exec.Base.{
  Exec, Result, ok, err, or_throw, pure, require, ◌>>=◌, ◌>>◌, continue,
}

module _ {S : Type 0} where
  continue-ok :
      {A B : Type 0} (r : Result A) (f : A → Exec S B) (s : S) {b : B} {s' : S}
      → continue r f s ≡ (ok b, s')
      → (a : A) × (r ≡ ok a) × (f a s ≡ (ok b, s'))
  continue-ok (ok a) f s e = (a, refl, e)
  continue-ok (err x) f s e = absurd (cc (ap (λ p. p.0) e))

  -- A chain that returned: its first step returned, and the rest did so from there.
  pub bind-ok :
      {A B : Type 0} (m : Exec S A) (f : A → Exec S B) (s : S) {b : B} {s' : S}
      → (m >>= f) s ≡ (ok b, s')
      → (a : A) × ((m s).0 ≡ ok a) × (f a (m s).1 ≡ (ok b, s'))
  unfolding ◌>>=◌
  bind-ok m f s e = continue-ok (m s).0 f (m s).1 e

  pub require-ok :
      {A : Type 0} (b : Bool) (x : Error) (k : Exec S A) (s : S) {a : A} {s' : S}
      → (require b x >> k) s ≡ (ok a, s')
      → (b ≡ true) × (k s ≡ (ok a, s'))
  unfolding ◌>>=◌
  require-ok true x k s e = (refl, e)
  require-ok false x k s e = absurd (cc (ap (λ p. p.0) e))

  pub or_throw-ok :
      {A B : Type 0} (o : Option A) (x : Error) (f : A → Exec S B) (s : S) {b : B} {s' : S}
      → (or_throw o x >>= f) s ≡ (ok b, s')
      → (a : A) × (o ≡ some a) × (f a s ≡ (ok b, s'))
  unfolding ◌>>=◌
  or_throw-ok none x f s e = absurd (cc (ap (λ p. p.0) e))
  or_throw-ok (some a) x f s e = (a, refl, e)

  -- The result of a method that returned, with the state that it left.
  pub ok-run : {A : Type 0} (m : Exec S A) (s : S) {a : A} → (m s).0 ≡ ok a → m s ≡ (ok a, (m s).1)
  ok-run m s e = ap (λ r. (r, (m s).1)) e

  -- What a method returned that ended with `pure`.
  pub returned : {A : Type 0} {a b : A} {s s' : S} → pure a s ≡ (ok b, s') → a ≡ b
  returned e = cc (ap (λ p. p.0) e)
