-- ===== src/Transaction/Target/Fields.antt =====
-- The fields of invocation targets: what is written, and how each is read.
use casper_js_sdk.Prelude.{
  ℕ, ◌+◌, ◌^◌, ◌≤◌, ◌<◌, ◌≡◌, refl, arith, List, [], ◌∷◌, length, append-nil, false, ◌==◌, Option,
  none, some, Result, ok, ◌>>=◌,
}
use casper_js_sdk.Prelude.Int.{ℤ, pos}
use casper_js_sdk.Prelude.Words.{Bytes, le_bytes, length-le_bytes}
use casper_js_sdk.Ethers.{Ethers}
use casper_js_sdk.ByteConverters.Numbers.{number_to_bytes_u32-le_bytes}
use casper_js_sdk.Numeric.{u8_from_bytes, u32_from_bytes}
use casper_js_sdk.Numeric.Fixed.{u32_from_bytes-le_bytes}
use casper_js_sdk.Hash.{hash_from_bytes, hash_from_bytes-append}
use casper_js_sdk.Text.{Text, IsText, Decoder, utf16_length, string_bytes, string_from_bytes}
use casper_js_sdk.Text.Utf8.{IsAscii}
use casper_js_sdk.Text.RoundTrip.{string_from_bytes-string_bytes}
use casper_js_sdk.Calltable.{get_field}
use casper_js_sdk.Calltable.Layout.{
  of_values, total, Fits, table_encoding, add_field-of_values, get_field-of_values,
  to_bytes-of_values,
}
use casper_js_sdk.Transaction.Envelope.{single_byte, read_table, first_field}
use casper_js_sdk.Transaction.Target.{
  truthy_number, version_bytes, add_major, package_to_bytes, read_version, read_major, read_hash,
  read_name, read_package, read_target, invocation_from_bytes,
}

-- A major version that is missing, or a positive number of 32 bits, and its field.
pub data IsMajor : Option ℤ → List Bytes → Type 0 where
  no_major : IsMajor none []
  major : (n : ℕ) → 0 < n → n < 2 ^ 32 → IsMajor (some (pos n)) (le_bytes 4 n ∷ [])

-- A version that is missing or 0, or a positive number of 32 bits, and its field.
pub data IsVersion : Option ℤ → Bytes → Type 0 where
  no_version : IsVersion none (0 ∷ [])
  zero_version : IsVersion (some (pos 0)) (0 ∷ [])
  version : (n : ℕ) → 0 < n → n < 2 ^ 32 → IsVersion (some (pos n)) (1 ∷ le_bytes 4 n)

abbrev pub package_values : ℕ → Bytes → Bytes → List Bytes → List Bytes
package_values tag id version_field major_fields = (tag ∷ []) ∷ id ∷ version_field ∷ major_fields

truthy_positive : (n : ℕ) → 0 < n → truthy_number (some (pos n)) ≡ some (pos n)
unfolding truthy_number
truthy_positive n h = let nonzero : (n + 0 == 0) ≡ false = ground arith in rw nonzero

length-version : {v : Option ℤ} {field : Bytes} → IsVersion v field → length field ≤ 5
length-version no_version = omega arith
length-version zero_version = omega arith
length-version (version n p h) = omega (arith, length-le_bytes 4 n)

pub package-Fits :
    {v m : Option ℤ} {vf : Bytes} {mf : List Bytes} (tag : ℕ) (id : Bytes)
    → IsVersion v vf
    → IsMajor m mf
    → length id + 10 < 2 ^ 32
    → Fits (package_values tag id vf mf)
unfolding total
package-Fits tag id v no_major h = record {
  count = omega arith;
  size = omega (arith, length-version v);
}
package-Fits tag id v (major n p k) h = record {
  count = omega arith;
  size = omega (arith, length-version v, length-le_bytes 4 n);
}

module _ ⦃e : Ethers⦄ where
  version_bytes_lem : {v : Option ℤ} {vf : Bytes} → IsVersion v vf → version_bytes v ≡ ok vf
  unfolding version_bytes truthy_number
  version_bytes_lem no_version = refl
  version_bytes_lem zero_version = refl
  version_bytes_lem (version n p h) = rw (
    version_bytes,
    truthy_positive n p,
    number_to_bytes_u32-le_bytes n h,
    e.concat-cons,
    e.concat-cons,
    e.concat-nil,
    append-nil,
  )

  add_major_lem :
      {m : Option ℤ} {mf : List Bytes} (a b c : Bytes)
      → IsMajor m mf
      → add_major m (of_values (a ∷ b ∷ c ∷ [])) ≡ ok (of_values (a ∷ b ∷ c ∷ mf))
  unfolding add_major truthy_number
  add_major_lem a b c no_major = refl
  add_major_lem a b c (major n p h) = rw (
    add_major,
    truthy_positive n p,
    number_to_bytes_u32-le_bytes n h,
    add_field-of_values 3 (le_bytes 4 n) (a ∷ b ∷ c ∷ []),
  )

  pub package_to_bytes_lem :
      {v m : Option ℤ} {vf : Bytes} {mf : List Bytes} (tag : ℕ) (id : Bytes)
      → IsVersion v vf
      → IsMajor m mf
      → length id + 10 < 2 ^ 32
      → package_to_bytes tag id v m ≡ ok (table_encoding (package_values tag id vf mf))
  unfolding package_to_bytes
  package_to_bytes_lem {vf} {mf} tag id v m h =
      rw
        (
          version_bytes_lem v,
          first_field (tag ∷ []),
          add_field-of_values 1 id ((tag ∷ []) ∷ []),
          add_field-of_values 2 vf ((tag ∷ []) ∷ id ∷ []),
          add_major_lem (tag ∷ []) id vf m,
        )
        (to_bytes-of_values (package_values tag id vf mf) (package-Fits tag id v m h))

  read_u32 : (n : ℕ) → n < 2 ^ 32 → u32_from_bytes (le_bytes 4 n) ≡ ok (pos n, [])
  read_u32 n h = rw append-nil at (u32_from_bytes-le_bytes n [] (omega arith))

  pub read_version_lem : (n : ℕ) → n < 2 ^ 32 → read_version (1 ∷ le_bytes 4 n) ≡ ok (pos n)
  unfolding read_version u8_from_bytes
  read_version_lem n h = rw (read_u32 n h, e.to_number-safe n (omega arith))

  pub read_major_lem :
      {m : Option ℤ} {mf : List Bytes} (a b c : Bytes)
      → IsMajor m mf
      → read_major (get_field 3 (of_values (a ∷ b ∷ c ∷ mf))) ≡ ok m
  unfolding read_major
  read_major_lem a b c no_major = rw (get_field-of_values 3 (a ∷ b ∷ c ∷ []))
  read_major_lem a b c (major n p h) = rw (
    get_field-of_values 3 (a ∷ b ∷ c ∷ le_bytes 4 n ∷ []),
    read_major,
    read_u32 n h,
    e.to_number-safe n (omega arith),
  )

  -- What is read from the table of a package, once its name is.
  pub read_package_lem :
      {A : Type 0} {m : Option ℤ} {mf : List Bytes} (read : Bytes → Result A) (tag : ℕ)
      (id vf : Bytes) (a : A)
      → IsMajor m mf
      → read id ≡ ok a
      → read_package read (of_values (package_values tag id vf mf)) ≡ (
          read_version vf >>= λ n.
          ok (record { id = a; version = some n; protocol_version_major = m }))
  unfolding read_package
  read_package_lem {mf} read tag id vf a m h = rw (
    read_package,
    get_field-of_values 1 (package_values tag id vf mf),
    get_field-of_values 2 (package_values tag id vf mf),
    read_major_lem (tag ∷ []) id vf m,
    h,
  )

  pub read_hash_lem : (hash : Bytes) → length hash ≡ 32 → read_hash hash ≡ ok hash
  unfolding read_hash
  read_hash_lem hash h =
      let whole : hash_from_bytes hash ≡ ok (hash, []) =
        rw append-nil at (hash_from_bytes-append hash [] h) in
      rw whole

  pub read_name_lem :
      (d : Decoder) (s : Text)
      → IsText s
      → IsAscii s
      → utf16_length s < 2 ^ 32
      → read_name d (string_bytes s) ≡ ok s
  unfolding read_name
  read_name_lem d s t a h =
      let whole : string_from_bytes d (string_bytes s) ≡ ok (s, []) =
        rw append-nil at (string_from_bytes-string_bytes d s [] t a h) in
      rw whole

  pub read_invocation :
      (d : Decoder) (tag : ℕ) (vs : List Bytes)
      → Fits ((tag ∷ []) ∷ vs)
      → invocation_from_bytes d (table_encoding ((tag ∷ []) ∷ vs))
        ≡ read_target d tag (of_values ((tag ∷ []) ∷ vs))
  unfolding invocation_from_bytes single_byte
  read_invocation d tag vs f =
      rw (read_table ((tag ∷ []) ∷ vs) f, get_field-of_values 0 ((tag ∷ []) ∷ vs))
