-- ===== src/Text.antt =====
-- Texts, and src/types/clvalue/String.ts, the string CLValue.
-- A JavaScript string is taken for the list of its code points, none of them a lone surrogate.
pub mod Utf8
pub mod RoundTrip
use Prim.Native.Char.{code}
use casper_js_sdk.Prelude.{
  String, ℕ, ◌+◌, ◌*◌, ◌/◌, ◌%◌, ◌^◌, ◌<◌, List, [], ◌∷◌, ◌++◌, length, take, drop, ltb,
  if◌then◌else◌, Result, ok, ◌>>=◌, ◌≡◌, ◌⊎◌, All,
}
use casper_js_sdk.Prelude.Int.{ℤ, pos, pos_part}
use casper_js_sdk.Prelude.Words.{Bytes, le_bytes}
use casper_js_sdk.Ethers.{Ethers}
use casper_js_sdk.ByteConverters.{to_bytes_u32}
use casper_js_sdk.Numeric.{Parsed, u32_from_bytes}

abbrev pub Text : Type 0
Text = List ℕ

-- The code points of a text of the library.
abbrev pub codes : String → Text
codes String.[] = []
codes (String.◌∷◌ c s) = code c ∷ codes s

-- The UTF-8 bytes of a code point.
unfoldable pub utf8_char : ℕ → Bytes
utf8_char c =
    if ltb c 0x80
    then c ∷ []
    else if ltb c 0x800
    then (192 + c / 64) ∷ (128 + c % 64) ∷ []
    else if ltb c 0x10000
    then (224 + c / 4096) ∷ (128 + c / 64 % 64) ∷ (128 + c % 64) ∷ []
    else (240 + c / 262144) ∷ (128 + c / 4096 % 64) ∷ (128 + c / 64 % 64) ∷ (128 + c % 64) ∷ []

-- `TextEncoder.encode` and `Buffer.from`
unfoldable pub utf8 : Text → Bytes
utf8 [] = []
utf8 (c ∷ s) = utf8_char c ++ utf8 s

-- `str.length`: code points over 0xffff are two code units.
unfoldable pub utf16_length : Text → ℕ
utf16_length [] = 0
utf16_length (c ∷ s) = (if ltb c 0x10000 then 1 else 2) + utf16_length s

-- The code points of texts: no surrogates.
abbrev pub IsScalar : ℕ → Type 0
IsScalar c = (c < 0xd800) ⊎ ((0xdfff < c) × (c < 0x110000))

abbrev pub IsText : Text → Type 0
IsText = All IsScalar

-- What the runtime decodes: `Buffer.from(bytes).toString()`, on bytes that are UTF-8.
pub record Decoder : Type 0 where
  pub decode : Bytes → Text
  pub decode-utf8 : (s : Text) → IsText s → decode (utf8 s) ≡ s

-- `CLValueString.bytes`: the size is `this.value.length`, in 32 bits.
unfoldable pub string_bytes : ⦃e : Ethers⦄ → Text → Bytes
string_bytes ⦃e⦄ value = e.concat (le_bytes 4 (utf16_length value % 2 ^ 32) ∷ utf8 value ∷ [])

-- `toBytesString`: the size is the number of bytes.
unfoldable pub to_bytes_string : ⦃e : Ethers⦄ → Text → Result Bytes
to_bytes_string ⦃e⦄ str = do
  size ← to_bytes_u32 (pos (length (utf8 str)))
  ok (e.concat (size ∷ utf8 str ∷ []))

-- `CLValueString.fromBytes`; `toNumber` of a 32-bit number is that number.
unfoldable pub string_from_bytes : ⦃e : Ethers⦄ → Decoder → Bytes → Parsed Text
string_from_bytes d source = do
  (size, bytes) ← u32_from_bytes source
  ok (d.decode (take (pos_part size) bytes), drop (pos_part size) bytes)
