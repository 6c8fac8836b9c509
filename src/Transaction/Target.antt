-- ===== src/Transaction/Target.antt =====
-- src/types/TransactionTarget.ts: where a transaction runs. The numbers are taken for integers.
pub mod Fields
pub mod RoundTrip
pub mod Stored
use casper_js_sdk.Prelude.{
  ℕ, List, [], ◌∷◌, length, Bool, true, false, if◌then◌else◌, Option, none, some, ◌==◌, ◌%◌, ◌^◌,
  String, Result, ok, err, ◌>>=◌, unable_to_serialize, missing_field, unknown_tag, invalid_number,
  invalid_json,
}
use text.Mathlib.Text.{◌==◌ as str_eq}
use casper_js_sdk.Prelude.Int.{ℤ, pos, negsuc, is_zero}
use casper_js_sdk.Prelude.Words.{Bytes, le_bytes}
use casper_js_sdk.Ethers.{Ethers}
use casper_js_sdk.ByteConverters.{number_to_bytes_u32}
use casper_js_sdk.Numeric.{u8_from_bytes, u32_from_bytes}
use casper_js_sdk.Hash.{hash_from_bytes}
use casper_js_sdk.Text.{Text, Decoder, string_bytes, string_from_bytes}
use casper_js_sdk.Calltable.{Calltable, empty, add_field, get_field, to_bytes, from_bytes}
use casper_js_sdk.Transaction.Envelope.{tag_byte}
use casper_js_sdk.Transaction.EntryPoint.{truthy}

pub data Runtime : Type 0 where
  vm_casper_v1 vm_casper_v2 : Runtime

abbrev pub runtime_tag : Runtime → ℕ
runtime_tag vm_casper_v1 = 0
runtime_tag vm_casper_v2 = 1

-- `ByPackageHashInvocationTarget` and `ByPackageNameInvocationTarget`, by what they name a package.
pub record Package (A : Type 0) : Type 0 where
  pub id : A
  pub version : Option ℤ
  pub protocol_version_major : Option ℤ

pub record InvocationTarget : Type 0 where
  pub by_hash : Option Bytes
  pub by_name : Option Text
  pub by_package_hash : Option (Package Bytes)
  pub by_package_name : Option (Package Text)

abbrev pub hash_target : Bytes → InvocationTarget
hash_target hash = record {
  by_hash = some hash;
  by_name = none;
  by_package_hash = none;
  by_package_name = none;
}

abbrev pub name_target : Text → InvocationTarget
name_target name = record {
  by_hash = none;
  by_name = some name;
  by_package_hash = none;
  by_package_name = none;
}

abbrev pub package_hash_target : Package Bytes → InvocationTarget
package_hash_target p = record {
  by_hash = none;
  by_name = none;
  by_package_hash = some p;
  by_package_name = none;
}

abbrev pub package_name_target : Package Text → InvocationTarget
package_name_target p = record {
  by_hash = none;
  by_name = none;
  by_package_hash = none;
  by_package_name = some p;
}

-- A number that counts as true: it is there, and not 0.
unfoldable pub truthy_number : Option ℤ → Option ℤ
truthy_number none = none
truthy_number (some n) = if is_zero n then none else some n

module _ ⦃e : Ethers⦄ where
  -- `TransactionRuntime.toBytes`
  unfoldable pub runtime_to_bytes : Runtime → Result Bytes
  runtime_to_bytes r = do t ← add_field 0 (runtime_tag r ∷ []) empty; to_bytes t

  -- `versionBytes`: an option of a 32-bit number
  unfoldable pub version_bytes : Option ℤ → Result Bytes
  unfolding truthy_number
  version_bytes version = elim (truthy_number version) [
    | none ↦ ok (0 ∷ [])
    | some n ↦ number_to_bytes_u32 n >>= λ bytes. ok (e.concat ((1 ∷ []) ∷ bytes ∷ []))
  ]

  -- `if (this.protocolVersionMajor)`
  unfoldable pub add_major : Option ℤ → Calltable → Result Calltable
  unfolding truthy_number
  add_major major t = elim (truthy_number major) [
    | none ↦ ok t
    | some n ↦ number_to_bytes_u32 n >>= λ bytes. add_field 3 bytes t
  ]

  -- `toBytes` of the two package classes, with the tag and the bytes of what names the package.
  unfoldable pub package_to_bytes : ℕ → Bytes → Option ℤ → Option ℤ → Result Bytes
  unfolding version_bytes add_major
  package_to_bytes tag id version major = do
    v ← version_bytes version
    t ← add_field 0 (tag ∷ []) empty
    t' ← add_field 1 id t
    t'' ← add_field 2 v t'
    t''' ← add_major major t''
    to_bytes t'''

  -- The cases `byHash` and `byName` of `TransactionInvocationTarget.toBytes`.
  unfoldable pub named_to_bytes : ℕ → Bytes → Result Bytes
  named_to_bytes tag id = do t ← add_field 0 (tag ∷ []) empty; t' ← add_field 1 id t; to_bytes t'

  -- `TransactionInvocationTarget.toBytes`
  unfoldable pub invocation_to_bytes : InvocationTarget → Result Bytes
  unfolding named_to_bytes package_to_bytes truthy
  invocation_to_bytes target = elim target.by_hash [
    | some hash ↦ named_to_bytes 0 hash
    | none ↦ elim (truthy target.by_name) [
      | some name ↦ named_to_bytes 1 (string_bytes name)
      | none ↦ elim target.by_package_hash [
        | some p ↦ package_to_bytes 2 p.id p.version p.protocol_version_major
        | none ↦ elim target.by_package_name [
          | some p ↦ package_to_bytes 3 (string_bytes p.id) p.version p.protocol_version_major
          | none ↦ err unable_to_serialize
        ]
      ]
    ]
  ]

  -- The version of a package, from an option: `toString` of none is the empty text, which
  -- `BigNumber.from` refuses.
  unfoldable pub read_version : Bytes → Result ℤ
  read_version bytes = do
    (tag, rest) ← u8_from_bytes bytes
    if is_zero tag then err invalid_number else u32_from_bytes rest >>= λ r. e.to_number r.0

  unfoldable pub read_major : Option Bytes → Result (Option ℤ)
  read_major none = ok none
  read_major (some bytes) = do
    (n, rest) ← u32_from_bytes bytes
    major ← e.to_number n
    ok (some major)

  unfoldable pub read_hash : Bytes → Result Bytes
  read_hash bytes = hash_from_bytes bytes >>= λ r. ok r.0

  unfoldable pub read_name : Decoder → Bytes → Result Text
  read_name d bytes = string_from_bytes d bytes >>= λ r. ok r.0

  -- The cases 2 and 3 of `fromBytes`, by how the name of the package is read.
  unfoldable pub read_package : {A : Type 0} → (Bytes → Result A) → Calltable → Result (Package A)
  unfolding read_version read_major
  read_package read t = elim (get_field 1 t) [
    | none ↦ err missing_field
    | some id_bytes ↦ elim (get_field 2 t) [
      | none ↦ err missing_field
      | some version_field ↦ do
        major ← read_major (get_field 3 t)
        id ← read id_bytes
        version ← read_version version_field
        ok (record { id = id; version = some version; protocol_version_major = major })
    ]
  ]

  -- The cases 0 and 1 of `fromBytes`.
  unfoldable pub read_named : {A : Type 0} → (Bytes → Result A) → Calltable → Result A
  read_named read t = elim (get_field 1 t) [ none ↦ err missing_field | some bytes ↦ read bytes ]

  -- The `switch` of `fromBytes`.
  unfoldable pub read_target : Decoder → ℕ → Calltable → Result InvocationTarget
  unfolding read_package read_named read_hash read_name
  read_target d tag t =
      if tag == 0
      then (read_named read_hash t >>= λ hash. ok (hash_target hash))
      else if tag == 1
      then (read_named (read_name d) t >>= λ name. ok (name_target name))
      else if tag == 2
      then (read_package read_hash t >>= λ p. ok (package_hash_target p))
      else if tag == 3
      then (read_package (read_name d) t >>= λ p. ok (package_name_target p))
      else err unknown_tag

  -- `TransactionInvocationTarget.fromBytes`
  unfoldable pub invocation_from_bytes : Decoder → Bytes → Result InvocationTarget
  unfolding read_target
  invocation_from_bytes d bytes = do
    calltable ← from_bytes bytes
    tag ← tag_byte calltable
    read_target d tag calltable
