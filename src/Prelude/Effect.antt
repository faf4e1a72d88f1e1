-- ===== src/Prelude/Effect.antt =====
-- Methods that change their object and may raise: what was changed before an exception stays changed.
use mathlib.Core.Bool.{Bool, true, false}
use open_autonomy.Prelude.Result.{Result, ok, err}

-- From the state before to the state after, with the value or the exception.
abbrev pub Effect : Type 0 → Type 0 → Type 0 → Type 0
Effect S E A = S → S × Result E A

module _ {S E : Type 0} where
  abbrev pub then_ : {A B : Type 0} → S × Result E A → (A → Effect S E B) → S × Result E B
  then_ (s, ok a) f = f a s
  then_ (s, err e) f = (s, err e)

  infixl 5 ◌>>=◌ ◌>>◌
  abbrev pub ◌>>=◌ : {A B : Type 0} → Effect S E A → (A → Effect S E B) → Effect S E B
  (m >>= f) s = then_ (m s) f

  abbrev pub ◌>>◌ : {A B : Type 0} → Effect S E A → Effect S E B → Effect S E B
  (m >> k) s = then_ (m s) λ _. k

  abbrev pub pure : {A : Type 0} → A → Effect S E A
  pure a s = (s, ok a)

  abbrev pub raise : {A : Type 0} → E → Effect S E A
  raise e s = (s, err e)

  abbrev pub read : {A : Type 0} → (S → A) → Effect S E A
  read f s = (s, ok (f s))

  abbrev pub modify : (S → S) → Effect S E (Unit {0})
  modify f s = (f s, ok tt)

  -- `if test: raise e`
  abbrev pub raise_if : Bool → E → Effect S E (Unit {0})
  raise_if true e s = (s, err e)
  raise_if false e s = (s, ok tt)

  -- `if test: ...`
  abbrev pub when : Bool → Effect S E (Unit {0}) → Effect S E (Unit {0})
  when true m = m
  when false m = pure tt
