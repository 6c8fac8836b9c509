-- ===== src/Transaction/Payload.antt =====
-- src/types/TransactionV1Payload.ts and InitiatorAddr.ts: the payload of a transaction, as bytes.
pub mod RuntimeArgs
pub mod Layout
use casper_js_sdk.Prelude.{
  ℕ, zero, suc, ◌+◌, ◌%◌, ◌^◌, List, [], ◌∷◌, ◌++◌, length, take, replicate, Option, none, some,
  Result, ok, err, ◌>>=◌, unable_to_serialize, type_error, invalid_number,
}
use casper_js_sdk.Prelude.Int.{ℤ}
use casper_js_sdk.Prelude.Words.{Bytes, le_bytes}
use casper_js_sdk.Ethers.{Ethers}
use casper_js_sdk.ByteConverters.{number_to_bytes_u64}
use casper_js_sdk.ByteConverters.Buffer.{set_at, write_integer}
use casper_js_sdk.Text.{Text, string_bytes}
use casper_js_sdk.Calltable.{empty, add_field, to_bytes}
use casper_js_sdk.ClValue.Keypair.{PublicKey, public_key_bytes}
use casper_js_sdk.Args.{NamedArg, Args}
use casper_js_sdk.Args.Buffered.{make_room, to_bytes_with_named_arg}
use casper_js_sdk.Transaction.Envelope.{write2}
use casper_js_sdk.Transaction.Scheduling.{
  Scheduling, Timestamp, missing, invalid, at, scheduling_to_bytes,
}
use casper_js_sdk.Transaction.EntryPoint.{EntryPoint, entry_point_to_bytes}
use casper_js_sdk.Transaction.Target.Stored.{TransactionTarget, target_to_bytes}
use casper_js_sdk.Transaction.PricingMode.{PricingMode, pricing_mode_to_bytes}

pub record InitiatorAddr : Type 0 where
  pub public_key : Option PublicKey
  pub account_hash : Option Bytes

-- A payload with its `PayloadFields`. A CLValue of the time to live is its number.
pub record Payload : Type 0 where
  pub initiator_addr : InitiatorAddr
  pub timestamp : Timestamp
  pub ttl : ℤ
  pub pricing_mode : PricingMode
  pub chain_name : Text
  pub args : Args
  pub target : TransactionTarget
  pub entry_point : EntryPoint
  pub scheduling : Scheduling

-- A buffer and the offset of what is written next: the buffer is expanded if it is too small.
abbrev pub Buffer : Type 0
Buffer = Bytes × ℕ

unfoldable pub write_next : Buffer → Bytes → Result Buffer
write_next (buffer, offset) bytes = do
  room ← make_room buffer (offset + length bytes)
  whole ← set_at offset bytes room
  ok (whole, offset + length bytes)

-- `new Uint8Array(buffer, 0, offset)`
abbrev pub written_part : Buffer → Bytes
written_part (buffer, offset) = take offset buffer

-- The loop of `PayloadFields.toBytes`: an index of 16 bits and a value.
unfoldable pub write_fields : List (ℕ × Bytes) → Buffer → Result Buffer
write_fields [] buffer = ok buffer
write_fields ((field, value) ∷ fields) buffer = do
  indexed ← write_next buffer (le_bytes 2 (field % 2 ^ 16))
  valued ← write_next indexed value
  write_fields fields valued

-- `PayloadFields.toBytes`
unfoldable pub fields_to_bytes : List (ℕ × Bytes) → Result Bytes
fields_to_bytes fields = do
  counted ← write_integer 0 (length fields) (replicate 1024 0)
  whole ← write_fields fields (counted, 4)
  ok (written_part whole)

-- The bytes of a part behind their size, of which `setUint32` keeps 32 bits.
unfoldable pub with_length : Bytes → Bytes
with_length bytes = le_bytes 4 (length bytes % 2 ^ 32) ++ bytes

module _ ⦃e : Ethers⦄ where
  -- `InitiatorAddr.toBytes`
  unfoldable pub initiator_to_bytes : InitiatorAddr → Result Bytes
  initiator_to_bytes a = elim a.account_hash [
    | some hash ↦ write2 (1 ∷ []) hash
    | none ↦ elim a.public_key [
      | some key ↦ write2 (0 ∷ []) (public_key_bytes key)
      | none ↦ err unable_to_serialize
    ]
  ]

  -- The loop over the arguments.
  unfoldable pub write_args : Args → Buffer → Result Buffer
  write_args [] buffer = ok buffer
  write_args (a ∷ args) buffer = do
    bytes ← to_bytes_with_named_arg a
    next ← write_next buffer bytes
    write_args args next

  -- `runtimeArgsBytes`: the byte 0, the number of the arguments, and each of them.
  unfoldable pub runtime_args_bytes : Args → Result Bytes
  runtime_args_bytes args = do
    marked ← set_at 0 (0 ∷ []) (replicate 1024 0)
    counted ← write_next (marked, 1) (le_bytes 4 (length args % 2 ^ 32))
    whole ← write_args args counted
    ok (written_part whole)

  -- `BigNumber.from` of the milliseconds of an invalid date, `NaN`, throws.
  unfoldable pub timestamp_bytes : Timestamp → Result Bytes
  timestamp_bytes missing = err type_error
  timestamp_bytes invalid = err invalid_number
  timestamp_bytes (at milliseconds) = number_to_bytes_u64 milliseconds

  -- The four fields of `PayloadFields`.
  unfoldable pub payload_fields : Payload → Result (List (ℕ × Bytes))
  payload_fields p = do
    args ← runtime_args_bytes p.args
    target ← target_to_bytes p.target
    entry_point ← entry_point_to_bytes p.entry_point
    scheduling ← scheduling_to_bytes p.scheduling
    ok (
        (0, with_length args)
        ∷ (1, with_length target)
        ∷ (2, with_length entry_point)
        ∷ (3, with_length scheduling)
        ∷ [])

  -- `TransactionV1Payload.toBytes`
  unfoldable pub payload_to_bytes : Payload → Result Bytes
  payload_to_bytes p = do
    fields ← payload_fields p
    initiator ← initiator_to_bytes p.initiator_addr
    t ← add_field 0 initiator empty
    timestamp ← timestamp_bytes p.timestamp
    t1 ← add_field 1 timestamp t
    ttl ← number_to_bytes_u64 p.ttl
    t2 ← add_field 2 ttl t1
    t3 ← add_field 3 (string_bytes p.chain_name) t2
    pricing ← pricing_mode_to_bytes p.pricing_mode
    t4 ← add_field 4 pricing t3
    bytes ← fields_to_bytes fields
    t5 ← add_field 5 bytes t4
    to_bytes t5
