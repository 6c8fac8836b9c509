-- ===== src/Ethers/Model.antt =====
-- A value of the interface, which runs: it shows that the laws can be met, and the tests use it.
use casper_js_sdk.Prelude.{
  ℕ, zero, suc, ◌-◌, ◌*◌, ◌/◌, ◌%◌, ◌^◌, ◌≤◌, ◌<◌, ◌≡◌, ◌⊎◌, inl, inr, Bool-cases, refl, arith,
  List, [], ◌∷◌, ◌++◌, length, reverse, ltb, if◌then◌else◌, length-reverse, Result, ok, err,
  number_overflow, le→ltb, lt→ltb,
}
use mathlib.Core.List.{reverse-reverse}
use casper_js_sdk.Prelude.Int.{ℤ, pos, negsuc}
use casper_js_sdk.Prelude.Words.{Bytes, AllByte, AllByte-reverse, le_value}
use casper_js_sdk.Ethers.{Ethers}
use native.Mathlib.Nat.{pow-suc}

abbrev concat : List Bytes → Bytes
concat [] = []
concat (b ∷ bs) = b ++ concat bs

abbrev to_twos : ℕ → ℤ → ℤ
to_twos w (pos n) = pos n
to_twos w (negsuc n) = pos (2 ^ w - suc n)

abbrev from_twos : ℕ → ℤ → ℤ
from_twos w (pos n) = if ltb n (2 ^ (w - 1)) then pos n else negsuc (2 ^ w - n - 1)
from_twos w (negsuc n) = negsuc n

abbrev mask : ℕ → ℤ → ℤ
mask w (pos n) = pos (n % 2 ^ w)
mask w (negsuc n) = negsuc n

-- The base-256 digits, lowest first, with no zero at the end but in `0`. The fuel bounds the number.
unfoldable pub digits : ℕ → ℕ → Bytes
digits zero n = n ∷ []
digits (suc f) n = let more = digits f (n / 256) in if ltb n 256 then n ∷ [] else n % 256 ∷ more

abbrev arrayify : ℤ → Bytes
arrayify (pos n) = reverse (digits n n)
arrayify (negsuc n) = []

abbrev to_number : ℤ → Result ℤ
to_number (pos n) = if ltb n (2 ^ 53) then ok (pos n) else err number_overflow
to_number (negsuc n) = if ltb n (2 ^ 53 - 1) then ok (negsuc n) else err number_overflow

abbrev from_number : ℤ → Result ℤ
from_number (pos n) = if ltb n (2 ^ 53 - 1) then ok (pos n) else err number_overflow
from_number (negsuc n) = if ltb n (2 ^ 53 - 2) then ok (negsuc n) else err number_overflow

abbrev from_bytes : Bytes → ℤ
from_bytes bs = pos (le_value (reverse bs))

digits-AllByte : (f n : ℕ) → n < 256 * suc f → AllByte (digits f n)
unfolding digits
digits-AllByte zero n h = (omega arith, tt)
digits-AllByte (suc f) n h = ground (arith, digits-AllByte f (n / 256))

digits-value : (f n : ℕ) → le_value (digits f n) ≡ n
unfolding digits le_value
digits-value zero n = omega arith
digits-value (suc f) n = ground (arith, digits-value f (n / 256))

length-digits_pos : (f n : ℕ) → 0 < length (digits f n)
unfolding digits
length-digits_pos zero n = omega arith
length-digits_pos (suc f) n = ground arith

length-digits_le : (f n k : ℕ) → n < 256 ^ suc k → length (digits f n) ≤ suc k
unfolding digits
length-digits_le zero n k h = omega arith
length-digits_le (suc f) n zero h = ground arith
length-digits_le (suc f) n (suc k) h = ground (
  arith,
  pow-suc 256 (suc k),
  length-digits_le f (n / 256) k (omega (arith, pow-suc 256 (suc k))),
)

pub from_twos-low_lem : (w n : ℕ) → n < 2 ^ (w - 1) → from_twos w (pos n) ≡ pos n
from_twos-low_lem w n h = rw (lt→ltb _ _ h)

pub from_twos-high_lem :
    (w n : ℕ) → 2 ^ (w - 1) ≤ n → n < 2 ^ w → from_twos w (pos n) ≡ negsuc (2 ^ w - n - 1)
from_twos-high_lem w n h k = rw (le→ltb _ _ h)

pub arrayify-AllByte_lem : (n : ℕ) → AllByte (arrayify (pos n))
arrayify-AllByte_lem n = AllByte-reverse (digits n n) (digits-AllByte n n (omega arith))

pub arrayify-value_lem : (n : ℕ) → le_value (reverse (arrayify (pos n))) ≡ n
arrayify-value_lem n = rw (reverse-reverse (digits n n)) (digits-value n n)

pub length-arrayify_pos_lem : (n : ℕ) → 0 < length (arrayify (pos n))
length-arrayify_pos_lem n = rw (length-reverse (digits n n)) (length-digits_pos n n)

pub length-arrayify_le_lem : (n k : ℕ) → n < 256 ^ suc k → length (arrayify (pos n)) ≤ suc k
length-arrayify_le_lem n k h = rw (length-reverse (digits n n)) (length-digits_le n n k h)

pub to_number-safe_lem : (n : ℕ) → n < 2 ^ 53 → to_number (pos n) ≡ ok (pos n)
to_number-safe_lem n h = rw (lt→ltb n (2 ^ 53) h)

pub to_number-unsafe_lem : (n : ℕ) → 2 ^ 53 ≤ n → to_number (pos n) ≡ err number_overflow
to_number-unsafe_lem n h = rw (le→ltb n (2 ^ 53) h)

pub from_number-safe_lem : (n : ℕ) → n < 2 ^ 53 - 1 → from_number (pos n) ≡ ok (pos n)
from_number-safe_lem n h = rw (lt→ltb n (2 ^ 53 - 1) h)

pub from_number-unsafe_lem : (n : ℕ) → 2 ^ 53 - 1 ≤ n → from_number (pos n) ≡ err number_overflow
from_number-unsafe_lem n h = rw (le→ltb n (2 ^ 53 - 1) h)

pub from_number-negsuc_lem :
    (n : ℕ)
    → (from_number (negsuc n) ≡ ok (negsuc n)) ⊎ (from_number (negsuc n) ≡ err number_overflow)
from_number-negsuc_lem n = elim (Bool-cases (ltb n (2 ^ 53 - 2))) [
  | inl small ↦ inl (rw (small))
  | inr large ↦ inr (rw (large))
]

instance abbrev pub ethers_model : Ethers
ethers_model = record {
  concat = concat;
  concat-nil = refl;
  concat-cons = λ b bs. refl;
  to_twos = to_twos;
  from_twos = from_twos;
  mask = mask;
  to_twos-pos = λ w n. refl;
  to_twos-negsuc = λ w n h. refl;
  from_twos-low = from_twos-low_lem;
  from_twos-high = from_twos-high_lem;
  mask-pos = λ w n. refl;
  arrayify = arrayify;
  arrayify-AllByte = arrayify-AllByte_lem;
  arrayify-value = arrayify-value_lem;
  length-arrayify_pos = length-arrayify_pos_lem;
  length-arrayify_le = length-arrayify_le_lem;
  from_number = from_number;
  from_number-safe = from_number-safe_lem;
  from_number-unsafe = from_number-unsafe_lem;
  from_number-negsuc = from_number-negsuc_lem;
  from_bytes = from_bytes;
  from_bytes_lem = λ bs h nonempty. refl;
  to_number = to_number;
  to_number-safe = to_number-safe_lem;
  to_number-unsafe = to_number-unsafe_lem;
}
