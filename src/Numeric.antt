-- ===== src/Numeric.antt =====
-- src/types/clvalue/Numeric and UintBig.ts: the numeric CLValues and their bytes.
pub mod Fixed
pub mod Big
use casper_js_sdk.Prelude.{
  ℕ, ◌+◌, ◌/◌, List, [], ◌∷◌, length, reverse, take, drop, ltb, ◌==◌, if◌then◌else◌, Bool, true,
  false, ◌&&◌, Option, none, some, Result, ok, err, ◌>>=◌, buffer_too_small, early_end_of_stream,
  byte_length_exceeds_size,
}
use casper_js_sdk.Prelude.Int.{ℤ, pos}
use casper_js_sdk.Prelude.Words.{Bytes}
use casper_js_sdk.Ethers.{Ethers}
use casper_js_sdk.ByteConverters.{to_bytes_number}

-- A parsed value with the bytes behind it, `IResultWithBytes`.
abbrev pub Parsed {ℓ} : Type ℓ → Type ℓ
Parsed A = Result (A × Bytes)

-- `CLValueUInt8.fromBytes`
unfoldable pub u8_from_bytes : Bytes → Parsed ℤ
u8_from_bytes [] = err buffer_too_small
u8_from_bytes (b ∷ rest) = ok (pos b, rest)

module _ ⦃e : Ethers⦄ where
  -- `BigNumber.from(source.subarray(0, n).slice().reverse())`
  abbrev pub little_endian : ℕ → Bytes → ℤ
  little_endian n source = e.from_bytes (reverse (take n source))

  -- `CLValueUInt32.fromBytes`
  unfoldable pub u32_from_bytes : Bytes → Parsed ℤ
  u32_from_bytes source =
      if ltb (length source) 4
      then err buffer_too_small
      else ok (little_endian 4 source, drop 4 source)

  -- `CLValueUInt64.fromBytes`
  unfoldable pub u64_from_bytes : Bytes → Parsed ℤ
  u64_from_bytes source =
      if ltb (length source) 8
      then err buffer_too_small
      else ok (little_endian 8 source, drop 8 source)

  -- `CLValueInt32.fromBytes`
  unfoldable pub i32_from_bytes : Bytes → Parsed ℤ
  i32_from_bytes source =
      if ltb (length source) 4
      then err buffer_too_small
      else ok (e.from_twos 32 (little_endian 4 source), drop 4 source)

  -- `CLValueInt64.fromBytes`
  unfoldable pub i64_from_bytes : Bytes → Parsed ℤ
  i64_from_bytes source =
      if ltb (length source) 8
      then err buffer_too_small
      else ok (e.from_twos 64 (little_endian 8 source), drop 8 source)

-- `CLValueUInt128`, `CLValueUInt256` and `CLValueUInt512`: the value, and the bytes that it was
-- read from, if any.
pub record BigUint : Type 0 where
  pub value : ℤ
  pub original_bytes : Option Bytes

-- `arrayEquals`
unfoldable pub array_equals : Bytes → Bytes → Bool
array_equals [] [] = true
array_equals (a ∷ as_) (b ∷ bs) = a == b && array_equals as_ bs
array_equals _ _ = false

-- `this.originalBytes && arrayEquals(this.originalBytes, [1, 0])`
abbrev pub kept_bytes : Option Bytes → Option Bytes
kept_bytes none = none
kept_bytes (some original) = if array_equals original (1 ∷ 0 ∷ []) then some original else none

module _ ⦃e : Ethers⦄ where
  -- `fromBytesBigIntBase`: the value, the original bytes, and what follows.
  unfoldable pub from_bytes_big_int_base : Bytes → ℕ → Parsed BigUint
  from_bytes_big_int_base [] bit_size = err early_end_of_stream
  from_bytes_big_int_base (n ∷ body) bit_size =
      let big_int_bytes = if n == 0 then 0 ∷ [] else take n body in
      if ltb (bit_size / 8) n
      then err byte_length_exceeds_size
      else if ltb (length (n ∷ body)) (n + 1)
      then err early_end_of_stream
      else ok (
        record { value = e.from_bytes (reverse big_int_bytes); original_bytes = some (n ∷ body) },
        drop n body,
      )

  -- `bytes()` of the three classes, which differ in the bit size only.
  unfoldable pub big_uint_bytes : ℕ → BigUint → Result Bytes
  big_uint_bytes bit_size v = elim (kept_bytes v.original_bytes) [
    | some original ↦ ok original
    | none ↦ to_bytes_number bit_size false v.value
  ]
