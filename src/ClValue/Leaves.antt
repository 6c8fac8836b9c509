-- ===== src/ClValue/Leaves.antt =====
-- Values without parts, written and read back.
use casper_js_sdk.Prelude.{
  ◌<◌, ℕ, suc, ◌*◌, ◌≤◌, ◌≡◌, refl, ap, ◌∙◌, [], ◌∷◌, ◌++◌, length, take-append, drop-append, Bool,
  true, false, some, ok, ◌>>=◌,
}
use casper_js_sdk.Prelude.Int.{ℤ, pos}
use casper_js_sdk.Prelude.Words.{Bytes}
use casper_js_sdk.Ethers.{Ethers}
use casper_js_sdk.Numeric.{BigUint, u8_from_bytes, big_uint_bytes, from_bytes_big_int_base}
use casper_js_sdk.Numeric.Big.{
  to_bytes_number_big, big_uint_bytes_again, from_bytes_big_int_base-to_bytes,
}
use casper_js_sdk.Numeric.Fixed.{
  u8_from_bytes-to_bytes_u8, u32_from_bytes-to_bytes_u32, u64_from_bytes-to_bytes_u64,
  i32_from_bytes-to_bytes_i32, i64_from_bytes-to_bytes_i64,
}
use casper_js_sdk.Text.{Text, Decoder, string_bytes}
use casper_js_sdk.Text.RoundTrip.{string_from_bytes-string_bytes}
use casper_js_sdk.ClType.{ClType, SimpleType, simple, byte_array, option}
use casper_js_sdk.Key.{Key}
use casper_js_sdk.Key.ReadBack.{ReadBack}
use casper_js_sdk.Key.RoundTrip.{key_from_bytes-key_bytes}
use casper_js_sdk.ClValue.Keypair.{PublicKey, public_key_bytes, public_key_from_bytes-bytes}
use casper_js_sdk.ClValue.Plain.{plain, plain_big}
use casper_js_sdk.ClValue.Parser.{KeyTexts, from_bytes_by_type, read_simple, bool_from_bytes}
use casper_js_sdk.ClValue.Readable.{IsFresh, IsPublicKey, Readable}
use casper_js_sdk.ClValue.Parts.{Reads}
use casper_js_sdk.ClValue.{
  ClValue, cl_bool, cl_i32, cl_i64, cl_u8, cl_u32, cl_u64, cl_string, cl_key, cl_public_key,
  cl_byte_array, cl_none, value_bytes,
}

module _ ⦃e : Ethers⦄ (d : Decoder) (texts : KeyTexts) where
  leaf :
      (t : ClType) (v : ClValue) (bytes : Bytes)
      → value_bytes v ≡ ok bytes
      → plain v ≡ v
      → ((rest : Bytes) → from_bytes_by_type d texts t (bytes ++ rest) ≡ ok (v, rest))
      → Reads d texts t v
  leaf t v bytes written same back = record {
    bytes = bytes;
    written = written;
    read = λ rest. (v, back rest, same, written);
  }

  pub bool_Reads : (b : Bool) → Reads d texts (simple SimpleType.bool) (cl_bool b)
  unfolding value_bytes from_bytes_by_type read_simple bool_from_bytes plain
  bool_Reads true = leaf _ _ (1 ∷ []) refl refl (λ rest. refl)
  bool_Reads false = leaf _ _ (0 ∷ []) refl refl (λ rest. refl)

  pub none_Reads : (t : ClType) → Reads d texts (option t) (cl_none t)
  unfolding value_bytes from_bytes_by_type plain u8_from_bytes
  none_Reads t = leaf _ _ (0 ∷ []) refl refl (λ rest. refl)

  pub byte_array_Reads :
      (n : ℤ) (data_ : Bytes)
      → n ≡ pos (length data_)
      → Reads d texts (byte_array n) (cl_byte_array n data_)
  unfolding value_bytes from_bytes_by_type plain
  byte_array_Reads n data_ h = leaf _ _ data_ refl refl (λ rest.
      rw
        (h, take-append data_ rest (length data_) refl, drop-append data_ rest (length data_) refl))

  pub string_Reads :
      (s : Text)
      → Readable d texts (cl_string s)
      → Reads d texts (simple SimpleType.string) (cl_string s)
  unfolding value_bytes from_bytes_by_type read_simple plain Readable
  string_Reads s (t, a, h) =
      leaf _ _ (string_bytes s) refl refl
        (λ rest. rw (string_from_bytes-string_bytes d s rest t a h))

  pub key_Reads :
      (k : Key)
      → ((rest : Bytes) → ReadBack k rest)
      → Reads d texts (simple SimpleType.key) (cl_key k)
  unfolding value_bytes from_bytes_by_type read_simple plain
  key_Reads k h =
      let (bytes, written, back) = key_from_bytes-key_bytes k [] (h []) in
      leaf _ _ bytes written refl (λ rest.
        let (bytes', written', back') = key_from_bytes-key_bytes k rest (h rest) in
        let same : bytes ≡ bytes' = cc in rw (same, back'))

  pub public_key_Reads :
      (k : PublicKey)
      → IsPublicKey k
      → Reads d texts (simple SimpleType.public_key) (cl_public_key k)
  unfolding value_bytes from_bytes_by_type read_simple plain
  public_key_Reads k (key, there, l) = leaf _ _ (public_key_bytes k) refl refl (λ rest.
      let whole : k ≡ record { crypto_alg = k.crypto_alg; key = some key } =
        ap (λ o. record { crypto_alg = k.crypto_alg; key = o }) there in
      rw (whole, public_key_from_bytes-bytes k.crypto_alg key rest l))

  -- The classes of large numbers differ in their width.
  pub big_Reads :
      (t : ClType) (cl : BigUint → ClValue) (k : ℕ) (n : BigUint)
      → 8 ≤ k
      → k < 255
      → IsFresh (suc k) n
      → ((m : BigUint) → value_bytes (cl m) ≡ big_uint_bytes (8 * suc k) m)
      → ((m : BigUint) → plain (cl m) ≡ cl (plain_big m))
      → ((bytes : Bytes)
          → from_bytes_by_type d texts t bytes
            ≡ (do (m, rest) ← from_bytes_big_int_base bytes (8 * suc k); ok (cl m, rest)))
      → Reads d texts t (cl n)
  unfolding big_uint_bytes
  big_Reads t cl k n hk hk' (m, small, fresh) writes plains reads =
      let (digits, written, _, digits_value, _) = to_bytes_number_big k m hk hk' small in
      record {
        bytes = length digits ∷ digits;
        written = writes n ∙ ap (λ x. big_uint_bytes (8 * suc k) x) fresh ∙ written;
        read = λ rest. (
          cl (record { value = pos m; original_bytes = some (length digits ∷ digits ++ rest) }),
          rw (
            reads,
            from_bytes_big_int_base-to_bytes k m (length digits ∷ digits) rest hk hk' small written,
          ),
          rw (plains, fresh),
          writes _ ∙ big_uint_bytes_again k m digits rest hk written digits_value,
        );
      }

  pub i32_Reads :
      (n : ℤ) → Readable d texts (cl_i32 n) → Reads d texts (simple SimpleType.i32) (cl_i32 n)
  unfolding value_bytes from_bytes_by_type read_simple plain Readable
  i32_Reads n (bytes, w) =
      leaf _ _ bytes w refl (λ rest. rw (i32_from_bytes-to_bytes_i32 n bytes rest w))

  pub i64_Reads :
      (n : ℤ) → Readable d texts (cl_i64 n) → Reads d texts (simple SimpleType.i64) (cl_i64 n)
  unfolding value_bytes from_bytes_by_type read_simple plain Readable
  i64_Reads n (bytes, w) =
      leaf _ _ bytes w refl (λ rest. rw (i64_from_bytes-to_bytes_i64 n bytes rest w))

  pub u8_Reads :
      (n : ℤ) → Readable d texts (cl_u8 n) → Reads d texts (simple SimpleType.u8) (cl_u8 n)
  unfolding value_bytes from_bytes_by_type read_simple plain Readable
  u8_Reads n (bytes, w) =
      leaf _ _ bytes w refl (λ rest. rw (u8_from_bytes-to_bytes_u8 n bytes rest w))

  pub u32_Reads :
      (n : ℤ) → Readable d texts (cl_u32 n) → Reads d texts (simple SimpleType.u32) (cl_u32 n)
  unfolding value_bytes from_bytes_by_type read_simple plain Readable
  u32_Reads n (bytes, w) =
      leaf _ _ bytes w refl (λ rest. rw (u32_from_bytes-to_bytes_u32 n bytes rest w))

  pub u64_Reads :
      (n : ℤ) → Readable d texts (cl_u64 n) → Reads d texts (simple SimpleType.u64) (cl_u64 n)
  unfolding value_bytes from_bytes_by_type read_simple plain Readable
  u64_Reads n (bytes, w) =
      leaf _ _ bytes w refl (λ rest. rw (u64_from_bytes-to_bytes_u64 n bytes rest w))
