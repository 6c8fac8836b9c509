-- ===== src/Examples/Targets.antt =====
-- Runs of the targets of a transaction.
use casper_js_sdk.Prelude.{◌≡◌, arith, [], ◌∷◌, replicate, some, none, ok, err, invalid_number, inl}
use casper_js_sdk.Prelude.Int.{pos}
use casper_js_sdk.Prelude.Words.{Bytes}
use casper_js_sdk.Ethers.Model.{ethers_model}
use casper_js_sdk.Text.{Text, utf16_length}
use casper_js_sdk.Text.Utf8.{utf8_decoder}
use casper_js_sdk.Calltable.Layout.{table_encoding}
use casper_js_sdk.Transaction.Target.{
  InvocationTarget, hash_target, package_name_target, invocation_to_bytes, invocation_from_bytes,
}
use casper_js_sdk.Transaction.Target.Fields.{no_major, major, no_version}
use casper_js_sdk.Transaction.Target.RoundTrip.{
  IsName, package_name_case, unversioned_name, named_to_bytes_lem, invocation_from_bytes-to_bytes,
  invocation_from_bytes_rejects_unversioned,
}

-- the name "ab"
abbrev ab : Text
ab = 97 ∷ 98 ∷ []

ab-IsName : IsName ab
unfolding utf16_length
ab-IsName = record {
  text = (inl (omega arith), (inl (omega arith), tt));
  ascii = (omega arith, (omega arith, tt));
  nonempty = omega arith;
  short = omega arith;
}

abbrev versioned : InvocationTarget
versioned =
    package_name_target
      (record { id = ab; version = some (pos 3); protocol_version_major = some (pos 2) })

abbrev unversioned : InvocationTarget
unversioned =
    package_name_target (record { id = ab; version = none; protocol_version_major = none })

invocation_from_bytes-to_bytes_example :
    (bytes : Bytes) × (invocation_to_bytes versioned ≡ ok bytes)
    × (invocation_from_bytes utf8_decoder bytes ≡ ok versioned)
invocation_from_bytes-to_bytes_example = invocation_from_bytes-to_bytes utf8_decoder (
    package_name_case ab 3 ab-IsName (omega arith) (omega arith)
      (major 2 (omega arith) (omega arith)))

invocation_from_bytes_rejects_unversioned_example :
    (bytes : Bytes) × (invocation_to_bytes unversioned ≡ ok bytes)
    × (invocation_from_bytes utf8_decoder bytes ≡ err invalid_number)
invocation_from_bytes_rejects_unversioned_example =
    invocation_from_bytes_rejects_unversioned utf8_decoder
      (unversioned_name ab ab-IsName no_version no_major)

abbrev hash : Bytes
hash = replicate 32 7

abbrev hash_target_bytes : Bytes
hash_target_bytes = table_encoding ((0 ∷ []) ∷ hash ∷ [])

hash_target_written : invocation_to_bytes (hash_target hash) ≡ ok hash_target_bytes
unfolding invocation_to_bytes
hash_target_written = named_to_bytes_lem 0 hash (omega arith)
