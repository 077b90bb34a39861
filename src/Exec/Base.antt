-- ===== src/Exec/Base.antt =====
-- Methods that change state and may throw (an `async` method that is awaited). What was written
-- before a throw stays written, so the state comes back beside the error too.
use aries_framework_javascri.Exec.Errors.{Error}
use aries_framework_javascri.Prelude.{
  ℕ, String, Bool, true, false, Option, none, some, List, [], ◌∷◌, ◌++◌,
}

pub data Result {ℓ} (A : Type ℓ) : Type ℓ where
  ok : A → Result A
  err : Error → Result A

abbrev pub Exec {ℓ} : Type ℓ → Type ℓ → Type ℓ
Exec S A = S → Result A × S

module _ {ℓ} {S A : Type ℓ} where
  abbrev pub pure : A → Exec S A
  pure a s = (ok a, s)

  abbrev pub throw : Error → Exec S A
  throw e s = (err e, s)

  abbrev pub lift : Result A → Exec S A
  lift r s = (r, s)

  abbrev pub gets : (S → A) → Exec S A
  gets f s = (ok (f s), s)

  -- `if (!value) throw e`
  abbrev pub or_throw : Option A → Error → Exec S A
  or_throw none e s = (err e, s)
  or_throw (some a) e s = (ok a, s)

  abbrev pub handled : Result A → Exec S A → Exec S A
  handled (ok a) h s = (ok a, s)
  handled (err _) h s = h s

  -- `try { m } catch { h }`: the handler goes on from the state that the throw left.
  abbrev pub try_catch : Exec S A → Exec S A → Exec S A
  try_catch m h s = let (r, s') = m s in handled r h s'

  abbrev pub recovered : Result A → (Error → Exec S A) → Exec S A
  recovered (ok a) h s = (ok a, s)
  recovered (err e) h s = h e s

  -- `try { m } catch (error) { h }`, where the handler reads the error.
  abbrev pub catch_error : Exec S A → (Error → Exec S A) → Exec S A
  catch_error m h s = let (r, s') = m s in recovered r h s'

abbrev pub continue {ℓ} : {S A B : Type ℓ} → Result A → (A → Exec S B) → Exec S B
continue (ok a) f s = f a s
continue (err e) f s = (err e, s)

-- Shut, so that the rules of `Keeps` see the steps of a method.
infixl 5 ◌>>=◌ ◌>>◌
unfoldable pub ◌>>=◌ {ℓ} : {S A B : Type ℓ} → Exec S A → (A → Exec S B) → Exec S B
◌>>=◌ m f s = let (r, s') = m s in continue r f s'

abbrev pub ◌>>◌ {ℓ} : {S A B : Type ℓ} → Exec S A → Exec S B → Exec S B
m >> k = m >>= λ _. k

module _ {S : Type 0} where
  abbrev pub modify : (S → S) → Exec S Unit
  modify f s = (ok tt, f s)

  -- `if (!test) throw e`
  abbrev pub require : Bool → Error → Exec S Unit
  require true e s = (ok tt, s)
  require false e s = (err e, s)

  -- A call that is not awaited: its effects happen, its rejection reaches nobody.
  abbrev pub unawaited : {A : Type 0} → Exec S A → Exec S Unit
  unawaited m s = (ok tt, (m s).1)

-- A service that emits events: the store that it works on, and what it has emitted so far.
pub record Emitting (W E : Type 0) : Type 0 where
  pub store : W
  pub events : List E

module _ {W E : Type 0} where
  abbrev pub on_store : {A : Type 0} → Exec W A → Exec (Emitting W E) A
  on_store m s = let (r, w) = m s.store in (r, record s { store = w })

  abbrev pub emit : E → Exec (Emitting W E) Unit
  emit e s = (ok tt, record s { events = s.events ++ e ∷ [] })

-- The event `stateChanged`: the record after the change, and its state before; `none` is `null`.
pub record StateChanged (R S : Type 0) : Type 0 where
  pub changed : R
  pub previous_state : Option S

-- What `uuid()` and `Date.now()` return in a call: the id of a new record, the id of a new message,
-- and the time.
pub record Fresh : Type 0 where
  pub record_id : String
  pub message_id : String
  pub now : ℕ
