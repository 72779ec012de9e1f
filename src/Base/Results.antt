-- ===== src/Base/Results.antt =====
-- A Go result `(T, error)`: a value, or the error's message. The wrapping of an error (`%w`, `%v`)
-- is the concatenation of its message.
use mathlib.Core.Path.{◌≡◌, refl}
use mathlib.Core.Logic.{◌⊎◌, inl, inr}
use Prim.Native.String.{String}

pub data Result {ℓ} (T : Type ℓ) : Type ℓ where
  err : String → Result T
  ok : T → Result T

-- The early return on an error.
infixl 5 ◌>>=◌
abbrev pub ◌>>=◌ {ℓ κ} : {T : Type ℓ} {U : Type κ} (m : Result T) (next : T → Result U) → Result U
err message >>= _ = err message
ok value >>= next = next value

infixl 5 ◌>>◌
abbrev pub ◌>>◌ {ℓ κ} : {T : Type ℓ} {U : Type κ} (m : Result T) (next : Result U) → Result U
m >> next = m >>= λ _. next

pub >>=-eq-ok {ℓ κ} :
    {T : Type ℓ} {U : Type κ} (m : Result T) (next : T → Result U) {u : U}
    → (m >>= next) ≡ ok u
    → (t : T) × (m ≡ ok t) × (next t ≡ ok u)
>>=-eq-ok (err _) next e = cc
>>=-eq-ok (ok t) next e = (t, refl, e)

pub Result-cases {ℓ} :
    {T : Type ℓ} (m : Result T) → ((t : T) × (m ≡ ok t)) ⊎ ((e : String) × (m ≡ err e))
Result-cases (ok t) = inl (t, refl)
Result-cases (err e) = inr (e, refl)
