-- ===== src/Prelude/Ensures.antt =====
-- Total correctness of code that may throw: a postcondition on the value, and no lack of fuel.
use mathlib.Core.Path.{◌≡◌, refl, subst}
use mathlib.Core.Logic.{◌≢◌}
use casper_js_sdk.Prelude.Errors.{Result, ok, err, ◌>>=◌, Error, out_of_fuel}

-- The run kept within its fuel, and `P` holds of its value if it has one.
pub data Ensures {ℓ κ} {A : Type ℓ} (P : A → Type κ) : Result A → Type (ℓ ⊔ κ) where
  holds : {a : A} → P a → Ensures P (ok a)
  thrown : {x : Error} → x ≢ out_of_fuel → Ensures P (err x)

module _ {ℓ κ} {A : Type ℓ} {P : A → Type κ} where
  pub Ensures-ok : {r : Result A} {a : A} → Ensures P r → r ≡ ok a → P a
  Ensures-ok (holds h) e = subst P (cc) h
  Ensures-ok (thrown h) e = cc

  pub Ensures-out_of_fuel : {r : Result A} → Ensures P r → r ≢ err out_of_fuel
  Ensures-out_of_fuel (holds h) = cc
  Ensures-out_of_fuel (thrown h) = λ e. h (cc)

  pub Ensures-bind {ℓ' κ'} :
      {B : Type ℓ'} {Q : B → Type κ'} {r : Result A} {f : A → Result B}
      → Ensures P r
      → ((a : A) → P a → Ensures Q (f a))
      → Ensures Q (r >>= f)
  Ensures-bind (holds {a} h) k = k a h
  Ensures-bind (thrown h) k = thrown h

  -- Two runs that agree on the first part, and behind each of its values.
  pub Ensures-bind_same {ℓ'} :
      {B : Type ℓ'} {r r' : Result A} {f f' : A → Result B}
      → Ensures P r
      → r ≡ r'
      → ((a : A) → P a → f a ≡ f' a)
      → (r >>= f) ≡ (r' >>= f')
  Ensures-bind_same (holds {a} h) e k = rw (← e) (k a h)
  Ensures-bind_same (thrown h) e k = rw (← e) refl
