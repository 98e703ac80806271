-- ===== src/Prelude/Exceptions.antt =====
-- What a call returns: a value, or the exception that it raises (its message is dropped).
use mathlib.Core.Bool.{Bool, true, false}
use mathlib.Core.Path.{◌≡◌, refl}
use mathlib.Core.Logic.{◌⊎◌, inl, inr}
use mathlib.Core.Option.{Option, none, some}

pub data Exception : Type 0 where
  key_error value_error timeout_error permission_error runtime_error zero_division : Exception
  dag_cycle invariant_violation invalid_checkpoint state_component_violation : Exception
  provenance_tampering causal_chain_broken : Exception
  -- The fuel of a loop ran out: theorems show that this is never returned.
  out_of_fuel : Exception

pub data Outcome {ℓ} (A : Type ℓ) : Type ℓ where
  ok : A → Outcome A
  raise : Exception → Outcome A

infixl 5 ◌>>=◌
abbrev pub ◌>>=◌ {ℓ κ} : {A : Type ℓ} {B : Type κ} → Outcome A → (A → Outcome B) → Outcome B
ok a >>= f = f a
raise e >>= f = raise e

-- `d[k]`: the value, or KeyError.
abbrev pub require {ℓ} : {A : Type ℓ} → Option A → Outcome A
require none = raise key_error
require (some a) = ok a

abbrev pub is_ok {ℓ} : {A : Type ℓ} → Outcome A → Bool
is_ok (ok a) = true
is_ok (raise e) = false

-- A bind that succeeds: its first part gave a value, and the rest of it succeeds on that value.
pub >>=-eq-ok {ℓ κ} :
    {A : Type ℓ} {B : Type κ} {out : B} (first : Outcome A) (rest : A → Outcome B)
    → (first >>= rest) ≡ ok out
    → (value : A) × (first ≡ ok value) × (rest value ≡ ok out)
>>=-eq-ok (ok a) f h = (a, refl, h)
>>=-eq-ok (raise e) f h = cc

pub Outcome-cases {ℓ} :
    {A : Type ℓ} (m : Outcome A) → ((a : A) × (m ≡ ok a)) ⊎ ((e : Exception) × (m ≡ raise e))
Outcome-cases (ok a) = inl (a, refl)
Outcome-cases (raise e) = inr (e, refl)
