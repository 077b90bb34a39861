-- ===== src/Exec/Rules.antt =====
-- Invariants of methods, one rule for each way to build a method.
use aries_framework_javascri.Prelude.{
  ◌≡◌, refl, sym, subst, Bool, true, false, Option, none, some, [], ◌∷◌, if◌then◌else◌, All,
  All-append,
}
use aries_framework_javascri.Exec.Errors.{Error}
use aries_framework_javascri.Exec.Base.{
  Exec, Result, ok, err, pure, throw, lift, or_throw, require, try_catch, handled, unawaited, ◌>>=◌,
  ◌>>◌, Emitting, on_store, emit, continue,
}

-- `m` keeps `P`, whether it returns or throws.
pub record Keeps {S A : Type 0} (P : S → Type 0) (m : Exec S A) : Type 0 where
  pub at : (s : S) → P s → P (m s).1

module _ {S : Type 0} {P : S → Type 0} where
  -- A step that leaves the state as it is.
  Keeps-still : {A : Type 0} (m : Exec S A) → ((s : S) → (m s).1 ≡ s) → Keeps P m
  Keeps-still m still = record { at = λ s h. subst P (sym (still s)) h }

  pub Keeps-throw : {A : Type 0} (e : Error) → Keeps P (throw {A = A} e)
  Keeps-throw e = Keeps-still (throw e) (λ _. refl)

  pub Keeps-or_throw : {A : Type 0} (o : Option A) (e : Error) → Keeps P (or_throw o e)
  Keeps-or_throw none e = Keeps-throw e
  Keeps-or_throw (some a) e = Keeps-still (pure a) (λ _. refl)

  pub Keeps-lift : {A : Type 0} (r : Result A) → Keeps P (lift r)
  Keeps-lift r = Keeps-still (lift r) (λ _. refl)

  pub Keeps-pure : {A : Type 0} (a : A) → Keeps P (pure a)
  Keeps-pure a = Keeps-still (pure a) (λ _. refl)

  Keeps-continue_of :
      {A B : Type 0} (Q : A → Type 0) (r : Result A) (f : A → Exec S B)
      → ((a : A) → r ≡ ok a → Q a)
      → ((a : A) → Q a → Keeps P (f a))
      → Keeps P (continue r f)
  Keeps-continue_of Q (ok a) f q kf = kf a (q a refl)
  Keeps-continue_of Q (err e) f q kf = record { at = λ s h. h }

  -- What follows may use `Q` of the result.
  pub Keeps-bind_of :
      {A B : Type 0} (Q : A → Type 0) (m : Exec S A) (f : A → Exec S B)
      → Keeps P m
      → ((s : S) (a : A) → (m s).0 ≡ ok a → Q a)
      → ((a : A) → Q a → Keeps P (f a))
      → Keeps P (m >>= f)
  unfolding ◌>>=◌
  Keeps-bind_of Q m f km q kf = record {
    at = λ s h. (Keeps-continue_of Q (m s).0 f (q s) kf).at (m s).1 (km.at s h);
  }

  pub Keeps-bind :
      {A B : Type 0} {start : Exec S A} {next : A → Exec S B}
      → ((a : A) → Keeps P (next a))
      → Keeps P start
      → Keeps P (start >>= next)
  Keeps-bind {A} {B} {start} {next} each kept =
      Keeps-bind_of (λ _. Unit) start next kept (λ _ _ _. tt) (λ a _. each a)

  -- What follows a test may use that the test passed.
  pub Keeps-require :
      {A : Type 0} (b : Bool) (e : Error) (k : Exec S A)
      → (b ≡ true → Keeps P k)
      → Keeps P (require b e >> k)
  unfolding ◌>>=◌
  Keeps-require true e k kk = record { at = λ s h. (kk refl).at s h }
  Keeps-require false e k kk = record { at = λ s h. h }

  -- Each branch may use the outcome of the test.
  pub Keeps-branch :
      {A : Type 0} {yes no : Exec S A} (test : Bool)
      → (test ≡ false → Keeps P no)
      → (test ≡ true → Keeps P yes)
      → Keeps P (if test then yes else no)
  Keeps-branch false kept _ = kept refl
  Keeps-branch true _ kept = kept refl

  Keeps-handled : {A : Type 0} (r : Result A) (h : Exec S A) → Keeps P h → Keeps P (handled r h)
  Keeps-handled (ok a) h kh = record { at = λ s p. p }
  Keeps-handled (err e) h kh = kh

  pub Keeps-try : {A : Type 0} (m h : Exec S A) → Keeps P m → Keeps P h → Keeps P (try_catch m h)
  Keeps-try m h km kh = record { at = λ s p. (Keeps-handled (m s).0 h kh).at (m s).1 (km.at s p) }

  pub Keeps-unawaited : {A : Type 0} (m : Exec S A) → Keeps P m → Keeps P (unawaited m)
  Keeps-unawaited m km = record { at = km.at }

-- Every event emitted so far satisfies `Q`.
abbrev pub Traced : {W E : Type 0} → (E → Type 0) → Emitting W E → Type 0
Traced Q s = All Q s.events

module _ {W E : Type 0} (Q : E → Type 0) where
  pub Traced-on_store :
      {A : Type 0} (m : Exec W A) → Keeps {S = Emitting W E} (Traced Q) (on_store m)
  Traced-on_store m = record { at = λ s h. h }

  pub Traced-emit : (e : E) → Q e → Keeps {S = Emitting W E} (Traced Q) (emit e)
  Traced-emit e q = record { at = λ s h. All-append Q s.events (e ∷ []) h (q, tt) }

pub ruleset keeps_rules = (
  Keeps-bind, Keeps-require, Keeps-pure, Keeps-throw, Keeps-lift, Keeps-or_throw, Keeps-branch,
  Keeps-try, Keeps-unawaited, Traced-on_store, Traced-emit,
)
