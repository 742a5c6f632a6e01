-- ===== src/Base/Results.antt =====
-- Go's `(value, error)` results. The program asks of an error only whether it is ErrNotFound.
use mathlib.Core.Path.{◌≡◌, refl}
use mathlib.Core.Logic.{◌⊎◌, inl, inr}
use mathlib.Core.Option.{Option, none, some}

pub data Error : Type 0 where
  not_found failed : Error

-- A Go function's results: a value, or an error that is not nil.
pub data Result {ι} (T : Type ι) : Type ι where
  err : Error → Result T
  ok : T → Result T

-- Steps of a computation that gives up at the first failure.
infixl 5 ◌>>=◌
abbrev pub ◌>>=◌ {ι ν} : {T : Type ι} {U : Type ν} → Option T → (T → Option U) → Option U
some t >>= next = next t
none >>= next = none

-- A chain that succeeded has succeeded at its first step and after it.
pub >>=-eq-some {ι ν} :
    {T : Type ι} {U : Type ν} (first : Option T) (next : T → Option U) {u : U}
    → (first >>= next) ≡ some u
    → (t : T) × (first ≡ some t) × (next t ≡ some u)
>>=-eq-some (some t) next done = (t, refl, done)
>>=-eq-some none next done = cc

pub Result-cases {ι} :
    {T : Type ι} (result : Result T)
    → ((t : T) × (result ≡ ok t)) ⊎ ((e : Error) × (result ≡ err e))
Result-cases (err e) = inr (e, refl)
Result-cases (ok t) = inl (t, refl)
