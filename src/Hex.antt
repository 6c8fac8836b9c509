-- ===== src/Hex.antt =====
-- Hexadecimal texts: src/types/HexBytes.ts and src/types/key/Contract.ts, and those of Hash.ts.
use casper_js_sdk.Prelude.{
  ℕ, ◌+◌, ◌-◌, ◌*◌, ◌/◌, ◌%◌, ◌<◌, ◌≡◌, refl, arith, List, [], ◌∷◌, length, drop, Bool, true, false,
  ◌&&◌, ltb, leb, ◌==◌, not, if◌then◌else◌, Option, none, some, Result, ok, err,
  invalid_string_length,
}
use casper_js_sdk.Prelude.Words.{Bytes, AllByte}
use casper_js_sdk.Text.{Text, utf16_length, codes}
use casper_js_sdk.Hash.{new_hash}

unfoldable pub hex_digit : ℕ → ℕ
hex_digit n = if ltb n 10 then 48 + n else 87 + n

-- `HexBytes.toHex`, and `toString('hex')` of a buffer: two digits for each byte
unfoldable pub to_hex : Bytes → Text
to_hex [] = []
to_hex (b ∷ bytes) = hex_digit (b / 16) ∷ hex_digit (b % 16) ∷ to_hex bytes

unfoldable pub hex_value : ℕ → Option ℕ
hex_value c =
    if leb 48 c && leb c 57
    then some (c - 48)
    else if leb 97 c && leb c 102
    then some (c - 87)
    else if leb 65 c && leb c 70
    then some (c - 55)
    else none

-- Two digits in front of what follows: nothing, where one is no digit.
unfoldable pub decode_pair : Option ℕ → Option ℕ → Bytes → Bytes
decode_pair none low rest = []
decode_pair (some high) none rest = []
decode_pair (some high) (some low) rest = (16 * high + low) ∷ rest

-- `Buffer.from(source, 'hex')`, which stops at the first pair that is not of hexadecimal digits
unfoldable pub decode_hex : Text → Bytes
decode_hex [] = []
decode_hex (c ∷ []) = []
decode_hex (c ∷ c' ∷ source) = decode_pair (hex_value c) (hex_value c') (decode_hex source)

-- `Hash.fromHex`
unfoldable pub hash_from_hex : Text → Result Bytes
hash_from_hex source =
    if not (utf16_length source == 64)
    then err invalid_string_length
    else new_hash (decode_hex source)

-- `source.startsWith(prefix)`
unfoldable pub starts_with : Text → Text → Bool
starts_with source [] = true
starts_with [] (c ∷ prefix) = false
starts_with (c ∷ source) (c' ∷ prefix) = c == c' && starts_with source prefix

-- The prefixes of `newContract`, in the order of its tests
abbrev pub contract_prefixes : List Text
contract_prefixes =
    codes "hash-" ∷ codes "contract-wasm-" ∷ codes "contract-" ∷ codes "entity-contract-" ∷ []

-- `source.slice(originPrefix.length)`, for the first prefix that the text has
unfoldable pub without_prefix : List Text → Text → Text
without_prefix [] source = source
without_prefix (prefix ∷ prefixes) source =
    if starts_with source prefix
    then drop (length prefix) source
    else without_prefix prefixes source

-- `ContractHash.newContract`. Only the hash is kept: the prefix is for the JSON.
unfoldable pub new_contract : Text → Result Bytes
new_contract source = hash_from_hex (without_prefix contract_prefixes source)

hex_value-hex_digit : (n : ℕ) → n < 16 → hex_value (hex_digit n) ≡ some n
unfolding hex_value hex_digit
hex_value-hex_digit n h = ground arith

-- A buffer reads back the digits of bytes.
pub decode_hex-to_hex : (bytes : Bytes) → AllByte bytes → decode_hex (to_hex bytes) ≡ bytes
unfolding decode_hex decode_pair to_hex
decode_hex-to_hex [] h = refl
decode_hex-to_hex (b ∷ bytes) (byte, h) =
    let whole : 16 * (b / 16) + b % 16 ≡ b = omega arith in
    rw (
      hex_value-hex_digit (b / 16) (omega arith),
      hex_value-hex_digit (b % 16) (omega arith),
      decode_hex-to_hex bytes h,
      whole,
    )

length-to_hex : (bytes : Bytes) → AllByte bytes → utf16_length (to_hex bytes) ≡ 2 * length bytes
unfolding utf16_length to_hex hex_digit
length-to_hex [] h = refl
length-to_hex (b ∷ bytes) (byte, h) = ground (arith, length-to_hex bytes h)

-- Hash.fromHex reads back the 64 hexadecimal digits of a hash.
pub hash_from_hex-to_hex :
    (hash : Bytes) → AllByte hash → length hash ≡ 32 → hash_from_hex (to_hex hash) ≡ ok hash
unfolding hash_from_hex new_hash
hash_from_hex-to_hex hash h size = rw (length-to_hex hash h, size, decode_hex-to_hex hash h, size)
