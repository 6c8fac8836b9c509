-- ===== src/Ethers.antt =====
-- The interface of the packages @ethersproject/bignumber and @ethersproject/bytes, as far as
-- src/types calls them. A BigNumber is taken for the integer that it stands for, so its
-- comparisons and sums are those of the integers. What the packages do to representations
-- is a field here, with the documented behaviour that the code relies on as a law.
pub mod Concat
pub mod Model
use casper_js_sdk.Prelude.{
  ℕ, suc, ◌+◌, ◌-◌, ◌%◌, ◌^◌, ◌≤◌, ◌<◌, ◌≡◌, ◌⊎◌, List, [], ◌∷◌, ◌++◌, length, reverse, Result, ok,
  err, number_overflow,
}
use casper_js_sdk.Prelude.Int.{ℤ, pos, negsuc}
use casper_js_sdk.Prelude.Words.{Bytes, AllByte, le_value}

pub record Ethers : Type 0 where
  -- `concat` of @ethersproject/bytes
  pub concat : List Bytes → Bytes
  pub concat-nil : concat [] ≡ []
  pub concat-cons : (b : Bytes) (bs : List Bytes) → concat (b ∷ bs) ≡ b ++ concat bs
  -- `v.toTwos(w)`, `v.fromTwos(w)` and `v.mask(w)`
  pub to_twos : ℕ → ℤ → ℤ
  pub from_twos : ℕ → ℤ → ℤ
  pub mask : ℕ → ℤ → ℤ
  pub to_twos-pos : (w n : ℕ) → to_twos w (pos n) ≡ pos n
  pub to_twos-negsuc : (w n : ℕ) → suc n < 2 ^ w → to_twos w (negsuc n) ≡ pos (2 ^ w - suc n)
  pub from_twos-low : (w n : ℕ) → n < 2 ^ (w - 1) → from_twos w (pos n) ≡ pos n
  pub from_twos-high :
      (w n : ℕ) → 2 ^ (w - 1) ≤ n → n < 2 ^ w → from_twos w (pos n) ≡ negsuc (2 ^ w - n - 1)
  pub mask-pos : (w n : ℕ) → mask w (pos n) ≡ pos (n % 2 ^ w)
  -- `arrayify(v)`: big-endian bytes, as few as will do, but never none
  pub arrayify : ℤ → Bytes
  pub arrayify-AllByte : (n : ℕ) → AllByte (arrayify (pos n))
  pub arrayify-value : (n : ℕ) → le_value (reverse (arrayify (pos n))) ≡ n
  pub length-arrayify_pos : (n : ℕ) → 0 < length (arrayify (pos n))
  pub length-arrayify_le : (n k : ℕ) → n < 256 ^ suc k → length (arrayify (pos n)) ≤ suc k
  -- `BigNumber.from(v)` of a JavaScript number, which refuses 2 ^ 53 - 1 and more
  pub from_number : ℤ → Result ℤ
  pub from_number-safe : (n : ℕ) → n < 2 ^ 53 - 1 → from_number (pos n) ≡ ok (pos n)
  pub from_number-unsafe : (n : ℕ) → 2 ^ 53 - 1 ≤ n → from_number (pos n) ≡ err number_overflow
  pub from_number-negsuc :
      (n : ℕ)
      → (from_number (negsuc n) ≡ ok (negsuc n)) ⊎ (from_number (negsuc n) ≡ err number_overflow)
  -- `BigNumber.from(bytes)`: the bytes are big-endian, and there is one at least
  pub from_bytes : Bytes → ℤ
  pub from_bytes_lem :
      (bs : Bytes) → AllByte bs → 0 < length bs → from_bytes bs ≡ pos (le_value (reverse bs))
  -- `v.toNumber()`, which refuses what a double cannot hold exactly
  pub to_number : ℤ → Result ℤ
  pub to_number-safe : (n : ℕ) → n < 2 ^ 53 → to_number (pos n) ≡ ok (pos n)
  pub to_number-unsafe : (n : ℕ) → 2 ^ 53 ≤ n → to_number (pos n) ≡ err number_overflow
