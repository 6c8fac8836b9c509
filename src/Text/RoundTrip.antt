-- ===== src/Text/RoundTrip.antt =====
-- The string CLValue: what `CLValueString.bytes` writes, and when it is read back.
use casper_js_sdk.Prelude.{
  ℕ, ◌^◌, ◌≤◌, ◌<◌, ◌≡◌, refl, ◌∙◌, arith, ◌∷◌, ◌++◌, append-nil, append_assoc, length, take, drop,
  take-append, drop-append, length-drop, length-append, ok,
}
use native.Mathlib.Nat.{mod-eq_of_lt}
use casper_js_sdk.Prelude.Words.{Bytes, le_bytes}
use casper_js_sdk.Ethers.{Ethers}
use casper_js_sdk.ByteConverters.Numbers.{to_bytes_u32-le_bytes}
use casper_js_sdk.Numeric.Fixed.{u32_from_bytes-le_bytes}
use casper_js_sdk.Text.{
  Text, IsText, utf8, utf16_length, Decoder, string_bytes, to_bytes_string, string_from_bytes,
}
use casper_js_sdk.Text.Utf8.{IsAscii, utf16_length-ascii, length-utf8_lt}

module _ ⦃e : Ethers⦄ where
  pub string_bytes_lem :
      (s : Text) → utf16_length s < 2 ^ 32 → string_bytes s ≡ le_bytes 4 (utf16_length s) ++ utf8 s
  unfolding string_bytes
  string_bytes_lem s h = rw (e.concat-cons, e.concat-cons, e.concat-nil, append-nil, mod-eq_of_lt h)

  pub to_bytes_string_lem :
      (s : Text)
      → length (utf8 s) < 2 ^ 32
      → to_bytes_string s ≡ ok (le_bytes 4 (length (utf8 s)) ++ utf8 s)
  unfolding to_bytes_string
  to_bytes_string_lem s h = rw (
    to_bytes_u32-le_bytes (length (utf8 s)) h,
    e.concat-cons,
    e.concat-cons,
    e.concat-nil,
    append-nil,
  )

  -- `n` bytes with their size in front, and more behind them
  sized_from_bytes :
      (d : Decoder) (n : ℕ) (bytes rest : Bytes)
      → n < 256 ^ 4
      → string_from_bytes d (le_bytes 4 n ++ (bytes ++ rest))
        ≡ ok (d.decode (take n (bytes ++ rest)), drop n (bytes ++ rest))
  unfolding string_from_bytes
  sized_from_bytes d n bytes rest h = rw (u32_from_bytes-le_bytes n (bytes ++ rest) h)

  exact_from_bytes :
      (d : Decoder) (s : Text) (rest : Bytes)
      → IsText s
      → length (utf8 s) < 256 ^ 4
      → string_from_bytes d (le_bytes 4 (length (utf8 s)) ++ (utf8 s ++ rest)) ≡ ok (s, rest)
  exact_from_bytes d s rest t h =
      sized_from_bytes d (length (utf8 s)) (utf8 s) rest h
      ∙ rw (
        take-append (utf8 s) rest (length (utf8 s)) refl,
        drop-append (utf8 s) rest (length (utf8 s)) refl,
        d.decode-utf8 s t,
      )

  -- What toBytesString wrote for a text of less than 2 ^ 32 bytes, CLValueString.fromBytes reads
  -- back, and leaves what follows.
  pub string_from_bytes-to_bytes_string :
      (d : Decoder) (s : Text) (rest : Bytes)
      → IsText s
      → length (utf8 s) < 2 ^ 32
      → (bytes : Bytes) × (to_bytes_string s ≡ ok bytes)
        × (string_from_bytes d (bytes ++ rest) ≡ ok (s, rest))
  string_from_bytes-to_bytes_string d s rest t h = (
    le_bytes 4 (length (utf8 s)) ++ utf8 s,
    to_bytes_string_lem s h,
    rw (append_assoc (le_bytes 4 (length (utf8 s))) (utf8 s) rest) (exact_from_bytes d s rest t h),
  )

  -- What CLValueString.bytes wrote for an ASCII text shorter than 2 ^ 32, CLValueString.fromBytes
  -- reads back, and leaves what follows.
  pub string_from_bytes-string_bytes :
      (d : Decoder) (s : Text) (rest : Bytes)
      → IsText s
      → IsAscii s
      → utf16_length s < 2 ^ 32
      → string_from_bytes d (string_bytes s ++ rest) ≡ ok (s, rest)
  string_from_bytes-string_bytes d s rest t a h =
      let size = utf16_length-ascii s a in
      rw (string_bytes_lem s h, append_assoc (le_bytes 4 (utf16_length s)) (utf8 s) rest, ← size)
        (exact_from_bytes d s rest t (omega arith))

  -- For a text with a code point that is not ASCII, CLValueString.fromBytes leaves more bytes
  -- behind than followed what CLValueString.bytes wrote: the size written is that of the UTF-16
  -- code units, not that of the bytes.
  pub string_bytes_leftover :
      (d : Decoder) (before behind : Text) (c : ℕ) (rest : Bytes)
      → 0x80 ≤ c
      → utf16_length (before ++ c ∷ behind) < 2 ^ 32
      → (s : Text) × (left : Bytes) × (string_from_bytes d
            (string_bytes (before ++ c ∷ behind) ++ rest)
          ≡ ok (s, left))
        × (length rest < length left)
  string_bytes_leftover d before behind c rest hc h =
      let s = before ++ c ∷ behind in
      let n = utf16_length s in
      (
        d.decode (take n (utf8 s ++ rest)),
        drop n (utf8 s ++ rest),
        rw (string_bytes_lem s h, append_assoc (le_bytes 4 n) (utf8 s) rest)
            (sized_from_bytes d n (utf8 s) rest (omega arith)),
        omega (
          arith,
          length-drop n (utf8 s ++ rest),
          length-append (utf8 s) rest,
          length-utf8_lt before c behind hc,
        ),
      )
