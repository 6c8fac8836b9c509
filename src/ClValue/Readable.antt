-- ===== src/ClValue/Readable.antt =====
-- Which values are read back wherever they stand.
use casper_js_sdk.Prelude.{
  ℕ, ◌^◌, ◌<◌, ◌≡◌, List, [], ◌∷◌, length, false, none, some, Result, ok, err, Error, if◌then◌else◌,
}
use casper_js_sdk.Prelude.Int.{pos}
use casper_js_sdk.Prelude.Words.{Bytes}
use casper_js_sdk.Ethers.{Ethers}
use casper_js_sdk.ByteConverters.{
  to_bytes_u8, to_bytes_i32, to_bytes_u32, to_bytes_i64, to_bytes_u64,
}
use casper_js_sdk.Numeric.{BigUint}
use casper_js_sdk.Text.{Text, IsText, utf16_length, Decoder}
use casper_js_sdk.Text.Utf8.{IsAscii}
use casper_js_sdk.ClType.{ClType}
use casper_js_sdk.Key.ReadBack.{ReadBack}
use casper_js_sdk.ClValue.Keypair.{PublicKey, expected_size}
use casper_js_sdk.ClValue.Parser.{KeyTexts, is_dynamic, has_text, from_bytes_by_type}
use casper_js_sdk.ClValue.{
  ClValue, ClValues, Entries, nil, cons, end, entry, cl_bool, cl_i32, cl_i64, cl_u8, cl_u32, cl_u64,
  cl_u128, cl_u256, cl_u512, cl_unit, cl_string, cl_key, cl_uref, cl_any, cl_public_key,
  cl_byte_array, cl_none, cl_some, cl_list, cl_result, cl_map, cl_tuple1, cl_tuple2, cl_tuple3,
  cl_untyped, type_of, is_any, size, entry_count,
}

-- A number that its writer accepts.
abbrev pub Accepted : Result Bytes → Type 0
Accepted written = (bytes : Bytes) × (written ≡ ok bytes)

-- A large number of at most `k` bytes that was made, not read.
abbrev pub IsFresh : ℕ → BigUint → Type 0
IsFresh k n = (m : ℕ) × (m < 256 ^ k) × (n ≡ record { value = pos m; original_bytes = none })

abbrev pub IsPublicKey : PublicKey → Type 0
IsPublicKey k = (key : Bytes) × (k.key ≡ some key) × (length key ≡ expected_size k.crypto_alg)

module _ ⦃e : Ethers⦄ (d : Decoder) (texts : KeyTexts) where
  -- The reader of the type takes at least a byte.
  abbrev pub NeedsBytes : ClType → Type 0
  NeedsBytes t = (x : Error) × (from_bytes_by_type d texts t [] ≡ err x)

  -- A text is ASCII, and a key is one that any bytes may follow. The elements of a list and the keys
  -- of a map are of types that take at least a byte, and the keys have different texts. A unit, a
  -- URef and a value of any type take all the bytes, so they are none of these values.
  unfoldable mutual
    pub Readable : ClValue → Type 0
    Readable (cl_bool b) = Unit
    Readable (cl_i32 n) = Accepted (to_bytes_i32 n)
    Readable (cl_i64 n) = Accepted (to_bytes_i64 n)
    Readable (cl_u8 n) = Accepted (to_bytes_u8 n)
    Readable (cl_u32 n) = Accepted (to_bytes_u32 n)
    Readable (cl_u64 n) = Accepted (to_bytes_u64 n)
    Readable (cl_u128 n) = IsFresh 16 n
    Readable (cl_u256 n) = IsFresh 32 n
    Readable (cl_u512 n) = IsFresh 64 n
    Readable cl_unit = ⊥
    Readable (cl_string s) = IsText s × IsAscii s × (utf16_length s < 2 ^ 32)
    Readable (cl_key k) = (rest : Bytes) → ReadBack k rest
    Readable (cl_uref u) = ⊥
    Readable (cl_any bytes) = ⊥
    Readable (cl_public_key k) = IsPublicKey k
    Readable (cl_byte_array n data_) = n ≡ pos (length data_)
    Readable (cl_none t) = Unit
    Readable (cl_some t v) = (type_of v ≡ t) × Readable v
    Readable (cl_list t vs) =
        (is_any t ≡ false) × (size vs < 2 ^ 32) × NeedsBytes t × AllReadable t vs
    Readable (cl_result t u success v) = (type_of v ≡ (if success then t else u)) × Readable v
    Readable (cl_map t u es) =
        (is_dynamic t ≡ false)
        × (is_dynamic u ≡ false)
        × (entry_count es < 2 ^ 32)
        × NeedsBytes t
        × ReadableEntries t u [] es
    Readable (cl_tuple1 t v) = (type_of v ≡ t) × Readable v
    Readable (cl_tuple2 t u v w) = (type_of v ≡ t) × Readable v × (type_of w ≡ u) × Readable w
    Readable (cl_tuple3 t u s v w x) =
        (type_of v ≡ t) × Readable v × (type_of w ≡ u) × Readable w × (type_of x ≡ s) × Readable x
    Readable (cl_untyped t) = ⊥

    pub AllReadable : ClType → ClValues → Type 0
    AllReadable t nil = Unit
    AllReadable t (cons v vs) = (type_of v ≡ t) × Readable v × AllReadable t vs

    -- The list holds the texts of the keys before.
    pub ReadableEntries : ClType → ClType → List Text → Entries → Type 0
    ReadableEntries t u index end = Unit
    ReadableEntries t u index (entry k v es) =
        (type_of k ≡ t)
        × Readable k
        × (type_of v ≡ u)
        × Readable v
        × ((text : Text) × (texts.to_text k ≡ ok text)
            × (has_text texts text index ≡ false)
            × ReadableEntries t u (text ∷ index) es)
