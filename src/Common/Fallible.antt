-- ===== src/Common/Fallible.antt =====
-- `Result<T, E>` of the source: the adapters that it uses, and `?` as a bind.
use mathlib.Core.Path.{◌≡◌, refl}
use mathlib.Core.Option.{Option, none, some}

pub data Result (E A : Type 0) : Type 0 where
  err : E → Result E A
  ok : A → Result E A

-- `Result::ok`, `Result::map_err` and `Option::ok_or`.
abbrev pub to_option : {E A : Type 0} → Result E A → Option A
to_option (err x) = none
to_option (ok v) = some v

abbrev pub map_err : {E F A : Type 0} → (E → F) → Result E A → Result F A
map_err convert (err x) = err (convert x)
map_err convert (ok v) = ok v

abbrev pub ok_or : {E A : Type 0} → Option A → E → Result E A
ok_or (some v) x = ok v
ok_or none x = err x

-- `?`: an error ends the function.
infixl 5 ◌>>=◌
abbrev pub ◌>>=◌ : {E A B : Type 0} → Result E A → (A → Result E B) → Result E B
err x >>= next = err x
ok v >>= next = next v

-- Inversion of a successful `?`.
pub >>=-eq-ok :
    {E A B : Type 0} (m : Result E A) (next : A → Result E B) {b : B}
    → (m >>= next) ≡ ok b
    → (a : A) × (m ≡ ok a) × (next a ≡ ok b)
>>=-eq-ok (err x) next h = cc
>>=-eq-ok (ok v) next h = (v, refl, h)

-- The value of a result that is known.
pub ok-injective : {E A : Type 0} {a b : A} → ◌≡◌ {A = Result E A} (ok a) (ok b) → a ≡ b
ok-injective h = cc
