-- ===== src/ByteConverters.antt =====
-- src/types/ByteConverters.ts: numbers to and from byte arrays.
pub mod Numbers
pub mod Parse
pub mod Buffer
use casper_js_sdk.Prelude.{
  ℕ, ◌+◌, ◌-◌, ◌*◌, ◌/◌, ◌%◌, ◌^◌, List, [], ◌∷◌, length, reverse, replicate, bit_or, Bool, true,
  false, ltb, ◌==◌, ◌||◌, if◌then◌else◌, Result, ok, err, value_out_of_bounds,
  invalid_typed_array_length, invalid_u16_array, invalid_u32_array, invalid_u64_length, ◌>>=◌,
}
use casper_js_sdk.Prelude.Int.{ℤ, pos, negsuc, ltb_ℤ, leb_ℤ, is_zero}
use casper_js_sdk.Prelude.Words.{Bytes}
use casper_js_sdk.Ethers.{Ethers}

-- `new Uint8Array(a - b)`, which throws if the length is negative
abbrev pub zeros : ℕ → ℕ → Result Bytes
zeros a b = if ltb a b then err invalid_typed_array_length else ok (replicate (a - b) 0)

-- The guards of `toBytesNumber`: `One.shl(w).sub(One)` is 2 ^ w - 1.
unfoldable pub out_of_bounds : ℕ → Bool → ℤ → Bool
out_of_bounds bit_size true val =
    let bounds = 2 ^ (bit_size - 1) - 1 in ltb_ℤ (pos bounds) val || ltb_ℤ val (negsuc bounds)
out_of_bounds bit_size false val = ltb_ℤ val (pos 0) || ltb_ℤ (pos (2 ^ bit_size - 1)) val

module _ ⦃e : Ethers⦄ where
  -- What `toBytesNumber` does with `valTwos`.
  unfoldable pub number_layout : ℕ → ℤ → Result Bytes
  number_layout bit_size val_twos =
      let bytes = e.arrayify val_twos in
      let short = do
        padding ← zeros (bit_size / 8) (length bytes)
        ok (e.concat (reverse bytes ∷ padding ∷ []))
      in if leb_ℤ (pos 0) val_twos
        then if ltb 64 bit_size
          then if is_zero val_twos
            then ok bytes
            else ok (reverse (e.concat (bytes ∷ (length bytes % 256 ∷ []) ∷ [])))
          else short
        else ok (reverse bytes)

  -- `toBytesNumber` of a BigNumber
  unfoldable pub to_bytes_number : ℕ → Bool → ℤ → Result Bytes
  to_bytes_number bit_size signed val =
      if out_of_bounds bit_size signed val
      then err value_out_of_bounds
      else number_layout bit_size (e.mask bit_size (e.to_twos bit_size val))

  -- `toBytesNumber` of a JavaScript number
  unfoldable pub number_to_bytes : ℕ → Bool → ℤ → Result Bytes
  number_to_bytes bit_size signed value = e.from_number value >>= to_bytes_number bit_size signed

  abbrev pub number_to_bytes_u32 : ℤ → Result Bytes
  number_to_bytes_u32 = number_to_bytes 32 false

  abbrev pub number_to_bytes_u64 : ℤ → Result Bytes
  number_to_bytes_u64 = number_to_bytes 64 false

  abbrev pub to_bytes_u8 : ℤ → Result Bytes
  to_bytes_u8 = to_bytes_number 8 false

  abbrev pub to_bytes_u16 : ℤ → Result Bytes
  to_bytes_u16 = to_bytes_number 16 false

  abbrev pub to_bytes_i32 : ℤ → Result Bytes
  to_bytes_i32 = to_bytes_number 32 true

  abbrev pub to_bytes_u32 : ℤ → Result Bytes
  to_bytes_u32 = to_bytes_number 32 false

  abbrev pub to_bytes_u64 : ℤ → Result Bytes
  to_bytes_u64 = to_bytes_number 64 false

  abbrev pub to_bytes_i64 : ℤ → Result Bytes
  to_bytes_i64 = to_bytes_number 64 true

  abbrev pub to_bytes_u128 : ℤ → Result Bytes
  to_bytes_u128 = to_bytes_number 128 false

  abbrev pub to_bytes_u256 : ℤ → Result Bytes
  to_bytes_u256 = to_bytes_number 256 false

  abbrev pub to_bytes_u512 : ℤ → Result Bytes
  to_bytes_u512 = to_bytes_number 512 false

  unfoldable pub to_bytes_array_u8 : Bytes → Result Bytes
  to_bytes_array_u8 arr = do size ← to_bytes_u32 (pos (length arr)); ok (e.concat (size ∷ arr ∷ []))

-- JavaScript's `a | (b << k)` on 32-bit words, read as unsigned: what is shifted past bit 31 is lost.
abbrev pub or_shifted : ℕ → ℕ → ℕ → ℕ
or_shifted a b k = bit_or a (b * 2 ^ k % 2 ^ 32)

unfoldable pub parse_u16 : Bytes → Result ℕ
parse_u16 (b0 ∷ b1 ∷ rest) = ok (or_shifted b0 b1 8)
parse_u16 _ = err invalid_u16_array

unfoldable pub parse_u32 : Bytes → Result ℕ
parse_u32 (b0 ∷ b1 ∷ b2 ∷ b3 ∷ rest) = ok (or_shifted (or_shifted (or_shifted b0 b1 8) b2 16) b3 24)
parse_u32 _ = err invalid_u32_array

unfoldable pub from_bytes_u64 : ⦃e : Ethers⦄ → Bytes → Result ℤ
from_bytes_u64 ⦃e⦄ bytes =
    if length bytes == 8 then ok (e.from_bytes (reverse bytes)) else err invalid_u64_length
