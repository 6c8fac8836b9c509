-- ===== src/Transaction/Target/RoundTrip.antt =====
-- Invocation targets and their bytes, there and back.
use casper_js_sdk.Prelude.{
  ℕ, ◌+◌, ◌^◌, ◌<◌, ◌≡◌, refl, ap, ◌∙◌, arith, List, [], ◌∷◌, length, length-append, Option, some,
  Result, ok, err, invalid_number,
}
use casper_js_sdk.Prelude.Int.{ℤ, pos}
use casper_js_sdk.Prelude.Words.{Bytes, le_bytes, length-le_bytes}
use casper_js_sdk.Ethers.{Ethers}
use casper_js_sdk.Numeric.{u8_from_bytes}
use casper_js_sdk.Text.{Text, IsText, Decoder, utf8, utf16_length, string_bytes}
use casper_js_sdk.Text.Utf8.{IsAscii, utf16_length-ascii}
use casper_js_sdk.Text.RoundTrip.{string_bytes_lem}
use casper_js_sdk.Calltable.Layout.{of_values, total, Fits, table_encoding, get_field-of_values}
use casper_js_sdk.Transaction.Envelope.{write2_lem}
use casper_js_sdk.Transaction.EntryPoint.{truthy}
use casper_js_sdk.Transaction.Target.{
  InvocationTarget, hash_target, name_target, package_hash_target, package_name_target,
  named_to_bytes, read_hash, read_name, invocation_to_bytes, read_version, read_named, read_target,
  invocation_from_bytes,
}
use casper_js_sdk.Transaction.Target.Fields.{
  IsMajor, IsVersion, version, package_values, package-Fits, package_to_bytes_lem, read_version_lem,
  read_package_lem, read_hash_lem, read_name_lem, read_invocation,
}

-- A name that can be written and read: ASCII, not empty, and with room for the table around it.
pub record IsName (s : Text) : Type 0 where
  pub text : IsText s
  pub ascii : IsAscii s
  pub nonempty : 0 < utf16_length s
  pub short : utf16_length s + 14 < 2 ^ 32

-- The targets that the code makes: a hash has 32 bytes, and a version is given, in 32 bits and not 0.
pub data IsTarget : InvocationTarget → Type 0 where
  by_hash_case : (hash : Bytes) → length hash ≡ 32 → IsTarget (hash_target hash)
  by_name_case : (s : Text) → IsName s → IsTarget (name_target s)
  package_hash_case :
      {m : Option ℤ} {mf : List Bytes} (hash : Bytes) (n : ℕ)
      → length hash ≡ 32
      → 0 < n
      → n < 2 ^ 32
      → IsMajor m mf
      → IsTarget (
          package_hash_target
            (record { id = hash; version = some (pos n); protocol_version_major = m }))
  package_name_case :
      {m : Option ℤ} {mf : List Bytes} (s : Text) (n : ℕ)
      → IsName s
      → 0 < n
      → n < 2 ^ 32
      → IsMajor m mf
      → IsTarget (
          package_name_target
            (record { id = s; version = some (pos n); protocol_version_major = m }))

-- A package without a version, or with version 0.
pub data IsUnversioned : InvocationTarget → Type 0 where
  unversioned_hash :
      {v m : Option ℤ} {mf : List Bytes} (hash : Bytes)
      → length hash ≡ 32
      → IsVersion v (0 ∷ [])
      → IsMajor m mf
      → IsUnversioned
          (package_hash_target (record { id = hash; version = v; protocol_version_major = m }))
  unversioned_name :
      {v m : Option ℤ} {mf : List Bytes} (s : Text)
      → IsName s
      → IsVersion v (0 ∷ [])
      → IsMajor m mf
      → IsUnversioned
          (package_name_target (record { id = s; version = v; protocol_version_major = m }))

truthy_name : (s : Text) → 0 < utf16_length s → truthy (some s) ≡ some s
unfolding truthy utf16_length
truthy_name [] h = absurd (omega arith)
truthy_name (c ∷ s) h = refl

two-Fits : (tag : ℕ) (id : Bytes) → length id + 1 < 2 ^ 32 → Fits ((tag ∷ []) ∷ id ∷ [])
unfolding total
two-Fits tag id h = record { count = omega arith; size = omega arith }

module _ ⦃e : Ethers⦄ where
  length-name : (s : Text) → IsName s → length (string_bytes s) + 10 < 2 ^ 32
  length-name s h =
      let short = h.short in
      let size : length (string_bytes s) ≡ 4 + length (utf8 s) =
        ap length (string_bytes_lem s (omega arith))
        ∙ omega (
          arith,
          length-append (le_bytes 4 (utf16_length s)) (utf8 s),
          length-le_bytes 4 (utf16_length s),
        ) in
      omega (arith, utf16_length-ascii s h.ascii)

  read_a_name : (d : Decoder) (s : Text) → IsName s → read_name d (string_bytes s) ≡ ok s
  read_a_name d s h = let short = h.short in read_name_lem d s h.text h.ascii (omega arith)

  pub named_to_bytes_lem :
      (tag : ℕ) (id : Bytes)
      → length id + 1 < 2 ^ 32
      → named_to_bytes tag id ≡ ok (table_encoding ((tag ∷ []) ∷ id ∷ []))
  unfolding named_to_bytes
  named_to_bytes_lem tag id h = write2_lem (tag ∷ []) id (two-Fits tag id h)

  read_named_lem :
      {A : Type 0} (read : Bytes → Result A) (tag : ℕ) (id : Bytes) (a : A)
      → read id ≡ ok a
      → read_named read (of_values ((tag ∷ []) ∷ id ∷ [])) ≡ ok a
  unfolding read_named
  read_named_lem read tag id a h = rw (read_named, get_field-of_values 1 ((tag ∷ []) ∷ id ∷ [])) h

  -- An invocation target by a hash of 32 bytes, by a name that is ASCII, not empty and shorter
  -- than 2 ^ 32 - 14 characters, or by either of these as a package whose version is from 1 to
  -- below 2 ^ 32 and whose major protocol version is absent or from 1 to below 2 ^ 32, is written
  -- by toBytes and read back by fromBytes.
  pub invocation_from_bytes-to_bytes :
      (d : Decoder) {t : InvocationTarget}
      → IsTarget t
      → (bytes : Bytes) × (invocation_to_bytes t ≡ ok bytes)
        × (invocation_from_bytes d bytes ≡ ok t)
  unfolding invocation_to_bytes read_target
  invocation_from_bytes-to_bytes d (by_hash_case hash h) =
      let small : length hash + 1 < 2 ^ 32 = omega arith in
      (
        table_encoding ((0 ∷ []) ∷ hash ∷ []),
        named_to_bytes_lem 0 hash small,
        read_invocation d 0 (hash ∷ []) (two-Fits 0 hash small)
            ∙ rw (read_named_lem read_hash 0 hash hash (read_hash_lem hash h)),
      )
  invocation_from_bytes-to_bytes d (by_name_case s h) =
      let small : length (string_bytes s) + 1 < 2 ^ 32 = omega (arith, length-name s h) in
      (
        table_encoding ((1 ∷ []) ∷ string_bytes s ∷ []),
        rw (truthy_name s h.nonempty) (named_to_bytes_lem 1 (string_bytes s) small),
        read_invocation d 1 (string_bytes s ∷ []) (two-Fits 1 (string_bytes s) small)
            ∙ rw (read_named_lem (read_name d) 1 (string_bytes s) s (read_a_name d s h)),
      )
  invocation_from_bytes-to_bytes d (package_hash_case {m} {mf} hash n h p k f) =
      let v = version n p k in
      let small : length hash + 10 < 2 ^ 32 = omega arith in
      let vf = 1 ∷ le_bytes 4 n in
      (
        table_encoding (package_values 2 hash vf mf),
        package_to_bytes_lem 2 hash v f small,
        read_invocation d 2 (hash ∷ vf ∷ mf) (package-Fits 2 hash v f small)
            ∙ rw (
              read_package_lem read_hash 2 hash vf hash f (read_hash_lem hash h),
              read_version_lem n k,
            ),
      )
  invocation_from_bytes-to_bytes d (package_name_case {m} {mf} s n h p k f) =
      let v = version n p k in
      let small = length-name s h in
      let vf = 1 ∷ le_bytes 4 n in
      (
        table_encoding (package_values 3 (string_bytes s) vf mf),
        package_to_bytes_lem 3 (string_bytes s) v f small,
        read_invocation d 3 (string_bytes s ∷ vf ∷ mf) (package-Fits 3 (string_bytes s) v f small)
            ∙ rw (
              read_package_lem (read_name d) 3 (string_bytes s) vf s f (read_a_name d s h),
              read_version_lem n k,
            ),
      )

  no_version_read : read_version (0 ∷ []) ≡ err invalid_number
  unfolding read_version u8_from_bytes
  no_version_read = refl

  -- An invocation target by a package, by a hash of 32 bytes or by a name that is ASCII, not empty
  -- and shorter than 2 ^ 32 - 14 characters, whose version is absent or 0 and whose major protocol
  -- version is absent or from 1 to below 2 ^ 32, is written by toBytes, but fromBytes throws on
  -- its bytes, since no number is read from an empty option.
  pub invocation_from_bytes_rejects_unversioned :
      (d : Decoder) {t : InvocationTarget}
      → IsUnversioned t
      → (bytes : Bytes) × (invocation_to_bytes t ≡ ok bytes)
        × (invocation_from_bytes d bytes ≡ err invalid_number)
  unfolding invocation_to_bytes read_target
  invocation_from_bytes_rejects_unversioned d (unversioned_hash {v} {m} {mf} hash h f g) =
      let small : length hash + 10 < 2 ^ 32 = omega arith in
      (
        table_encoding (package_values 2 hash (0 ∷ []) mf),
        package_to_bytes_lem 2 hash f g small,
        read_invocation d 2 (hash ∷ (0 ∷ []) ∷ mf) (package-Fits 2 hash f g small)
            ∙ rw (
              read_package_lem read_hash 2 hash (0 ∷ []) hash g (read_hash_lem hash h),
              no_version_read,
            ),
      )
  invocation_from_bytes_rejects_unversioned d (unversioned_name {v} {m} {mf} s h f g) =
      let small = length-name s h in
      (
        table_encoding (package_values 3 (string_bytes s) (0 ∷ []) mf),
        package_to_bytes_lem 3 (string_bytes s) f g small,
        read_invocation d 3 (string_bytes s ∷ (0 ∷ []) ∷ mf)
              (package-Fits 3 (string_bytes s) f g small)
            ∙ rw (
              read_package_lem (read_name d) 3 (string_bytes s) (0 ∷ []) s g (read_a_name d s h),
              no_version_read,
            ),
      )
