-- ===== src/Key/Addresses.antt =====
-- src/types/key: ByteCode.ts, BlockGlobalAddr.ts, BalanceHoldAddr.ts and Era.ts.
pub mod RoundTrip
use casper_js_sdk.Prelude.{
  ℕ, [], ◌∷◌, ◌++◌, length, take, drop, slice, replicate, ltb, ◌==◌, ◌||◌, if◌then◌else◌, Bool,
  true, false, Option, none, some, Result, ok, err, ◌>>=◌, range_error, type_error, inl, inr,
  invalid_byte_code_kind, unexpected_byte_code, invalid_block_global_tag, invalid_balance_hold,
  invalid_balance_hold_tag,
}
use casper_js_sdk.Prelude.Int.{ℤ, pos, negsuc}
use casper_js_sdk.Prelude.Words.{Bytes, le_bytes, le_value}
use casper_js_sdk.Ethers.{Ethers}
use casper_js_sdk.ByteConverters.{to_bytes_u64}
use casper_js_sdk.Numeric.{Parsed}
use casper_js_sdk.Hash.{hash_from_bytes}
use casper_js_sdk.Transaction.Scheduling.{Timestamp, missing, invalid, at, new_date}

pub record ByteCode : Type 0 where
  pub v1_casper_wasm : Option Bytes
  pub is_empty : Bool

-- `ByteCode.fromBytes`; the tag of no bytes is undefined, no kind of byte code.
unfoldable pub byte_code_from_bytes : Bytes → Parsed ByteCode
byte_code_from_bytes [] = err invalid_byte_code_kind
byte_code_from_bytes (tag ∷ rem) =
    let wasm = do
      (hash, rest) ← hash_from_bytes (slice 1 33 (tag ∷ rem))
      ok (record { v1_casper_wasm = some hash; is_empty = false }, rest)
    in if tag == 0
      then ok (record { v1_casper_wasm = none; is_empty = true }, tag ∷ rem)
      else if tag == 1
      then wasm
      else err invalid_byte_code_kind

-- A class with two optional objects that are empty: what matters is whether they are there.
pub record BlockGlobalAddr : Type 0 where
  pub block_time : Bool
  pub message_count : Bool

-- `BlockGlobalAddr.fromBytes`
unfoldable pub block_global_from_bytes : Bytes → Parsed BlockGlobalAddr
block_global_from_bytes [] = err invalid_block_global_tag
block_global_from_bytes (tag ∷ rem) =
    if tag == 0
    then ok (record { block_time = true; message_count = false }, tag ∷ rem)
    else if tag == 1
    then ok (record { block_time = false; message_count = true }, tag ∷ rem)
    else err invalid_block_global_tag

-- `BlockGlobalAddr.toBytes`
unfoldable pub block_global_to_bytes : BlockGlobalAddr → Bytes
block_global_to_bytes a = (if a.message_count then 1 else 0) ∷ []

pub record Hold : Type 0 where
  pub purse_addr : Bytes
  pub block_time : Timestamp

pub record BalanceHoldAddr : Type 0 where
  pub gas : Option Hold
  pub processing : Option Hold

-- `writeBigUInt64LE` of `getTime`: an undefined date is a type error, an invalid or a negative one
-- a range error.
unfoldable pub time_bytes : Timestamp → Result Bytes
time_bytes missing = err type_error
time_bytes invalid = err range_error
time_bytes (at (pos milliseconds)) = ok (le_bytes 8 milliseconds)
time_bytes (at (negsuc n)) = err range_error

-- The array of 41 bytes: the purse is set at 1, and what is past its 32 bytes is overwritten.
unfoldable pub hold_bytes : ℕ → Hold → Result Bytes
hold_bytes tag hold = if ltb 40 (length hold.purse_addr) then err range_error else do
  time ← time_bytes hold.block_time
  ok (tag ∷ take 32 (hold.purse_addr ++ replicate 32 0) ++ time)

-- `BalanceHoldAddr.toBytes`
unfoldable pub balance_hold_to_bytes : BalanceHoldAddr → Result Bytes
balance_hold_to_bytes a = elim a.processing [
  | some hold ↦ hold_bytes 1 hold
  | none ↦ elim a.gas [ some hold ↦ hold_bytes 0 hold | none ↦ err type_error ]
]

-- The hold that `BalanceHoldAddr.fromBytes` reads. `Number` rounds a time over 2 ^ 53, which no date
-- has either way.
unfoldable pub read_hold : Bytes → Hold
read_hold bytes = record {
  purse_addr = slice 1 33 bytes;
  block_time = new_date (pos (le_value (slice 33 41 bytes)));
}

unfoldable pub balance_hold_from_bytes : Bytes → Parsed BalanceHoldAddr
balance_hold_from_bytes [] = err invalid_balance_hold
balance_hold_from_bytes (tag ∷ rem) =
    let hold = read_hold (tag ∷ rem) in
    if ltb (length (tag ∷ rem)) 41
    then err invalid_balance_hold
    else if tag == 0
    then ok (record { gas = some hold; processing = none }, drop 41 (tag ∷ rem))
    else if tag == 1
    then ok (record { gas = none; processing = some hold }, drop 41 (tag ∷ rem))
    else err invalid_balance_hold_tag

-- `Era.fromBytes`: the argument is the buffer behind the view, all of it.
unfoldable pub era_from_bytes : Bytes → Result ℕ
era_from_bytes buffer =
    if ltb (length buffer) 4 then err range_error else ok (le_value (take 4 buffer))

module _ ⦃e : Ethers⦄ where
  -- `ByteCode.toBytes`
  unfoldable pub byte_code_to_bytes : ByteCode → Result Bytes
  byte_code_to_bytes c = elim c.v1_casper_wasm [
    | some hash ↦ ok (e.concat ((1 ∷ []) ∷ hash ∷ []))
    | none ↦ if c.is_empty then ok (0 ∷ []) else err unexpected_byte_code
  ]
