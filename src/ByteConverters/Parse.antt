-- ===== src/ByteConverters/Parse.antt =====
-- What `parseU16`, `parseU32` and `fromBytesU64` read, in plain arithmetic.
use casper_js_sdk.Prelude.{ℕ, ◌+◌, ◌*◌, ◌%◌, ◌^◌, ◌<◌, ◌≡◌, ◌∙◌, ap, arith, [], ◌∷◌, ◌++◌, ok}
use casper_js_sdk.Prelude.Bits.{bit_or-shift}
use casper_js_sdk.Prelude.Words.{Bytes, AllByte, IsByte, le_value, le_bytes, le_value-le_bytes}
use native.Mathlib.Nat.{mod-eq_of_lt}
use casper_js_sdk.ByteConverters.{or_shifted, parse_u16, parse_u32}

or_shifted_lem : (k a b : ℕ) → a < 2 ^ k → b * 2 ^ k < 2 ^ 32 → or_shifted a b k ≡ a + b * 2 ^ k
or_shifted_lem k a b h fits =
    let same : b * 2 ^ k % 2 ^ 32 ≡ b * 2 ^ k = mod-eq_of_lt fits in rw same (bit_or-shift k a b h)

pub parse_u16-le_value :
    (b0 b1 : ℕ) (rest : Bytes)
    → IsByte b0
    → IsByte b1
    → parse_u16 (b0 ∷ b1 ∷ rest) ≡ ok (le_value (b0 ∷ b1 ∷ []))
unfolding parse_u16 le_value
parse_u16-le_value b0 b1 rest h0 h1 =
    ap (λ t. ok t) (omega (arith, or_shifted_lem 8 b0 b1 (omega arith) (omega arith)))

pub parse_u32-le_value :
    (b0 b1 b2 b3 : ℕ) (rest : Bytes)
    → AllByte (b0 ∷ b1 ∷ b2 ∷ b3 ∷ [])
    → parse_u32 (b0 ∷ b1 ∷ b2 ∷ b3 ∷ rest) ≡ ok (le_value (b0 ∷ b1 ∷ b2 ∷ b3 ∷ []))
unfolding parse_u32 le_value
parse_u32-le_value b0 b1 b2 b3 rest (h0, (h1, (h2, (h3, _)))) =
    rw
      (
        or_shifted_lem 8 b0 b1 (omega arith) (omega arith),
        or_shifted_lem 16 (b0 + b1 * 2 ^ 8) b2 (omega arith) (omega arith),
        or_shifted_lem 24 (b0 + b1 * 2 ^ 8 + b2 * 2 ^ 16) b3 (omega arith) (omega arith),
      )
      (ap (λ t. ok t) (omega arith))

-- parseU16 reads back the two little-endian bytes of a number below 2 ^ 16, and ignores what
-- follows.
pub parse_u16-le_bytes :
    (n : ℕ) (rest : Bytes) → n < 2 ^ 16 → parse_u16 (le_bytes 2 n ++ rest) ≡ ok n
unfolding le_bytes
parse_u16-le_bytes n rest h =
    parse_u16-le_value _ _ rest (omega arith) (omega arith)
    ∙ ap (λ t. ok t) (le_value-le_bytes 2 n (omega arith))

-- parseU32 reads back the four little-endian bytes of a number below 2 ^ 32, and ignores what
-- follows.
pub parse_u32-le_bytes :
    (n : ℕ) (rest : Bytes) → n < 2 ^ 32 → parse_u32 (le_bytes 4 n ++ rest) ≡ ok n
unfolding le_bytes
parse_u32-le_bytes n rest h =
    parse_u32-le_value _ _ _ _ rest (omega arith)
    ∙ ap (λ t. ok t) (le_value-le_bytes 4 n (omega arith))
