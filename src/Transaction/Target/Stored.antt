-- ===== src/Transaction/Target/Stored.antt =====
-- `StoredTarget`, `SessionTarget` and `TransactionTarget` of src/types/TransactionTarget.ts.
use casper_js_sdk.Prelude.{
  ℕ, ◌+◌, ◌%◌, ◌^◌, ◌<◌, ◌≡◌, refl, arith, List, [], ◌∷◌, ◌++◌, length, length-append, append-nil,
  Bool, true, false, if◌then◌else◌, Option, none, some, Result, ok, err, ◌>>=◌, unable_to_serialize,
}
use casper_js_sdk.Prelude.Int.{pos}
use casper_js_sdk.Prelude.Words.{Bytes, le_bytes, length-le_bytes}
use casper_js_sdk.Ethers.{Ethers}
use casper_js_sdk.Numeric.{u32_from_bytes}
use casper_js_sdk.Numeric.Fixed.{u32_from_bytes-le_bytes}
use casper_js_sdk.Text.{Decoder}
use casper_js_sdk.Calltable.{Calltable, empty, add_field, get_field, to_bytes, from_bytes}
use casper_js_sdk.Calltable.Layout.{
  of_values, total, Fits, table_encoding, header_bytes, payload, get_field-of_values,
}
use casper_js_sdk.Transaction.Envelope.{write1_lem, write3_lem, write4_lem, read_table}
use casper_js_sdk.Transaction.Target.{
  Runtime, runtime_tag, runtime_to_bytes, InvocationTarget, invocation_to_bytes,
  invocation_from_bytes,
}
use casper_js_sdk.Transaction.Target.RoundTrip.{IsTarget, invocation_from_bytes-to_bytes}

pub record StoredTarget : Type 0 where
  pub id : InvocationTarget
  pub runtime : Runtime

pub record SessionTarget : Type 0 where
  pub module_bytes : Bytes
  pub runtime : Runtime
  pub is_install_upgrade : Bool

-- `native` is an object or undefined.
pub record TransactionTarget : Type 0 where
  pub native : Bool
  pub stored : Option StoredTarget
  pub session : Option SessionTarget

abbrev pub native_target : TransactionTarget
native_target = record { native = true; stored = none; session = none }

abbrev pub stored_target : StoredTarget → TransactionTarget
stored_target s = record { native = false; stored = some s; session = none }

abbrev pub session_target : SessionTarget → TransactionTarget
session_target s = record { native = false; stored = none; session = some s }

module _ ⦃e : Ethers⦄ where
  -- `StoredTarget.toBytes`
  unfoldable pub stored_to_bytes : StoredTarget → Result Bytes
  stored_to_bytes s = do
    t ← add_field 0 (1 ∷ []) empty
    id ← invocation_to_bytes s.id
    t' ← add_field 1 id t
    runtime ← runtime_to_bytes s.runtime
    t'' ← add_field 2 runtime t'
    to_bytes t''

  -- `SessionTarget.toBytes`; a `Uint32Array` holds its numbers modulo 2 ^ 32, lowest byte first.
  unfoldable pub session_to_bytes : SessionTarget → Result Bytes
  session_to_bytes s =
      let module_bytes_length = le_bytes 4 (length s.module_bytes % 2 ^ 32) in
      do
        t ← add_field 0 (2 ∷ []) empty
        t' ← add_field 1 ((if s.is_install_upgrade then 1 else 0) ∷ []) t
        runtime ← runtime_to_bytes s.runtime
        t'' ← add_field 2 runtime t'
        t''' ← add_field 3 (e.concat (module_bytes_length ∷ s.module_bytes ∷ [])) t''
        to_bytes t'''

  -- `TransactionTarget.toBytes`
  unfoldable pub target_to_bytes : TransactionTarget → Result Bytes
  unfolding stored_to_bytes session_to_bytes
  target_to_bytes target =
      let native_bytes = do t ← add_field 0 (0 ∷ []) empty; to_bytes t
      in if target.native then native_bytes else elim target.stored [
        | some s ↦ stored_to_bytes s
        | none ↦ elim target.session [
          | some s ↦ session_to_bytes s
          | none ↦ err unable_to_serialize
        ]
      ]

runtime_encoding : Runtime → Bytes
runtime_encoding r = table_encoding ((runtime_tag r ∷ []) ∷ [])

length-runtime_encoding : (r : Runtime) → length (runtime_encoding r) ≡ 15
unfolding runtime_encoding table_encoding header_bytes payload le_bytes total
length-runtime_encoding r = refl

stored-Fits :
    (id : Bytes) (r : Runtime)
    → length id + 16 < 2 ^ 32
    → Fits ((1 ∷ []) ∷ id ∷ runtime_encoding r ∷ [])
unfolding total
stored-Fits id r h = record { count = omega arith; size = omega (arith, length-runtime_encoding r) }

session-Fits :
    (b : ℕ) (r : Runtime) (code : Bytes)
    → length code + 21 < 2 ^ 32
    → Fits ((2 ∷ []) ∷ (b ∷ []) ∷ runtime_encoding r ∷ (le_bytes 4 (length code) ++ code) ∷ [])
unfolding total
session-Fits b r code h = record {
  count = omega arith;
  size = omega (
    arith,
    length-runtime_encoding r,
    length-append (le_bytes 4 (length code)) code,
    length-le_bytes 4 (length code),
  );
}

module _ ⦃e : Ethers⦄ where
  runtime_to_bytes_lem : (r : Runtime) → runtime_to_bytes r ≡ ok (runtime_encoding r)
  unfolding runtime_to_bytes runtime_encoding
  runtime_to_bytes_lem r =
      write1_lem (runtime_tag r ∷ [])
        (record { count = unfold total in omega arith; size = unfold total in omega arith })

  -- A stored transaction target, whose invocation target is one that is read back from its bytes,
  -- is written as a table with the tag 1 in field 0 and the bytes of the invocation target in
  -- field 1, from which the target is read back.
  pub stored_target-from_bytes :
      (d : Decoder) {t : InvocationTarget} (r : Runtime) (id : Bytes)
      → IsTarget t
      → invocation_to_bytes t ≡ ok id
      → length id + 16 < 2 ^ 32
      → (bytes : Bytes) × (table : Calltable) × (target_to_bytes
            (stored_target (record { id = t; runtime = r }))
          ≡ ok bytes)
        × (from_bytes bytes ≡ ok table)
        × (get_field 0 table ≡ some (1 ∷ []))
        × (get_field 1 table ≡ some id)
        × (invocation_from_bytes d id ≡ ok t)
  unfolding target_to_bytes
  stored_target-from_bytes d {t} r id valid written small =
      let vs : List Bytes = (1 ∷ []) ∷ id ∷ runtime_encoding r ∷ [] in
      let (id', written', back) = invocation_from_bytes-to_bytes d valid in
      let same : id' ≡ id = cc in
      (
        table_encoding vs,
        of_values vs,
        rw (stored_to_bytes, written, runtime_to_bytes_lem r)
            (write3_lem (1 ∷ []) id (runtime_encoding r) (stored-Fits id r small)),
        read_table vs (stored-Fits id r small),
        get_field-of_values 0 vs,
        get_field-of_values 1 vs,
        rw same at back,
      )

  -- A session target is written as a table with its install flag in field 1 and the module bytes
  -- in field 3, behind their number, from which both are read.
  pub session_target-from_bytes :
      (r : Runtime) (code : Bytes) (install : Bool)
      → length code + 21 < 2 ^ 32
      → (bytes : Bytes) × (table : Calltable) × (field : Bytes) × (target_to_bytes (
            session_target
              (record { module_bytes = code; runtime = r; is_install_upgrade = install }))
          ≡ ok bytes)
        × (from_bytes bytes ≡ ok table)
        × (get_field 1 table ≡ some ((if install then 1 else 0) ∷ []))
        × (get_field 3 table ≡ some field)
        × (u32_from_bytes field ≡ ok (pos (length code), code))
  unfolding target_to_bytes
  session_target-from_bytes r code install small =
      let flag : ℕ = if install then 1 else 0 in
      let field = le_bytes 4 (length code) ++ code in
      let fits : length code % 2 ^ 32 ≡ length code = omega arith in
      let vs : List Bytes = (2 ∷ []) ∷ (flag ∷ []) ∷ runtime_encoding r ∷ field ∷ [] in
      (
        table_encoding vs,
        of_values vs,
        field,
        rw
            (
              session_to_bytes,
              runtime_to_bytes_lem r,
              fits,
              e.concat-cons,
              e.concat-cons,
              e.concat-nil,
              append-nil,
            )
            (write4_lem (2 ∷ []) (flag ∷ []) (runtime_encoding r) field
              (session-Fits flag r code small)),
        read_table vs (session-Fits flag r code small),
        get_field-of_values 1 vs,
        get_field-of_values 3 vs,
        u32_from_bytes-le_bytes (length code) code (omega arith),
      )
