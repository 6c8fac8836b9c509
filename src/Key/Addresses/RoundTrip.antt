-- ===== src/Key/Addresses/RoundTrip.antt =====
-- Balance holds are read back; what the readers of byte code, of block globals and of eras leave.
use casper_js_sdk.Prelude.{
  ℕ, ◌≤◌, ◌≡◌, refl, arith, [], ◌∷◌, ◌++◌, append_assoc, append-nil, length, take, drop, replicate,
  length-append, take-append, drop-append, drop-append_add, not, ltb, le→ltb, none, some, ok, false,
  true, Bool,
}
use casper_js_sdk.Prelude.Int.{pos, negsuc, ltb_ℤ}
use casper_js_sdk.Prelude.Words.{Bytes, le_bytes, length-le_bytes, le_value-le_bytes}
use casper_js_sdk.Prelude.Codec.{RoundTrip}
use casper_js_sdk.Ethers.{Ethers}
use casper_js_sdk.Ethers.Concat.{concat2}
use casper_js_sdk.Hash.{hash_from_bytes, hash_from_bytes-append}
use casper_js_sdk.Transaction.Scheduling.{at, new_date}
use casper_js_sdk.Key.Addresses.{
  ByteCode, byte_code_to_bytes, byte_code_from_bytes, BlockGlobalAddr, block_global_to_bytes,
  block_global_from_bytes, Hold, BalanceHoldAddr, time_bytes, hold_bytes, balance_hold_to_bytes,
  read_hold, balance_hold_from_bytes,
}

new_date-valid : (n : ℕ) → n ≤ 8640000000000000 → new_date (pos n) ≡ at (pos n)
unfolding new_date
new_date-valid n h =
    let early : ltb_ℤ (pos 8640000000000000) (pos n) ≡ false = ground arith in
    let late : ltb_ℤ (pos n) (negsuc 8639999999999999) ≡ false = ground arith in rw (early, late)

module _ (purse rest : Bytes) (n : ℕ) (l : length purse ≡ 32) (h : n ≤ 8640000000000000) where
  hold_of : Hold
  hold_of = record { purse_addr = purse; block_time = at (pos n) }

  hold_bytes_lem : (tag : ℕ) → hold_bytes tag hold_of ≡ ok (tag ∷ purse ++ le_bytes 8 n)
  unfolding hold_bytes time_bytes hold_of
  hold_bytes_lem tag =
      let short : ltb 40 (length purse) ≡ false = le→ltb _ _ (omega arith) in
      rw (short, take-append purse (replicate 32 0) 32 l)

  time-drop : drop 32 (purse ++ le_bytes 8 n ++ rest) ≡ le_bytes 8 n ++ rest
  time-drop =
      rw (append_assoc purse (le_bytes 8 n) rest, drop-append purse (le_bytes 8 n ++ rest) 32 l)

  read_hold_lem : (tag : ℕ) → read_hold (tag ∷ purse ++ le_bytes 8 n ++ rest) ≡ hold_of
  unfolding read_hold hold_of
  read_hold_lem tag =
      let purse_part : take 32 (purse ++ le_bytes 8 n ++ rest) ≡ purse =
        rw
          (append_assoc purse (le_bytes 8 n) rest, take-append purse (le_bytes 8 n ++ rest) 32 l) in
      rw (
        purse_part,
        time-drop,
        take-append (le_bytes 8 n) rest 8 (length-le_bytes 8 n),
        le_value-le_bytes 8 n (omega arith),
        new_date-valid n h,
      )

  rest_lem : (tag : ℕ) → drop 41 (tag ∷ purse ++ le_bytes 8 n ++ rest) ≡ rest
  rest_lem tag = rw (
    append_assoc purse (le_bytes 8 n) rest,
    drop-append_add purse (le_bytes 8 n ++ rest) 32 8 l,
    drop-append (le_bytes 8 n) rest 8 (length-le_bytes 8 n),
  )

  long : (tag : ℕ) → ltb (length (tag ∷ purse ++ le_bytes 8 n ++ rest)) 41 ≡ false
  long tag = le→ltb _ _ (
      omega (
        arith,
        length-append (purse ++ le_bytes 8 n) rest,
        length-append purse (le_bytes 8 n),
        length-le_bytes 8 n,
      ))

-- A hold of a 32-byte purse, at a time that a `Date` has and that is not before 1970.
pub data IsHold : Hold → Type 0 where
  hold :
      (purse : Bytes) (n : ℕ)
      → length purse ≡ 32
      → n ≤ 8640000000000000
      → IsHold (record { purse_addr = purse; block_time = at (pos n) })

pub data IsBalanceHold : BalanceHoldAddr → Type 0 where
  of_gas : (h : Hold) → IsHold h → IsBalanceHold (record { gas = some h; processing = none })
  of_processing : (h : Hold) → IsHold h → IsBalanceHold (record { gas = none; processing = some h })

-- A BalanceHoldAddr of one hold, with a 32-byte purse and a valid time from 1970 on, is written, and
-- read back with what follows left over.
pub balance_hold_from_bytes-to_bytes :
    (a : BalanceHoldAddr) (rest : Bytes)
    → IsBalanceHold a
    → RoundTrip balance_hold_to_bytes balance_hold_from_bytes a rest
unfolding balance_hold_to_bytes balance_hold_from_bytes hold_of
balance_hold_from_bytes-to_bytes a rest (of_gas h (hold purse n l b)) = (
  0 ∷ purse ++ le_bytes 8 n,
  hold_bytes_lem purse rest n l b 0,
  rw (long purse rest n l b 0, read_hold_lem purse rest n l b 0, rest_lem purse rest n l b 0),
)
balance_hold_from_bytes-to_bytes a rest (of_processing h (hold purse n l b)) = (
  1 ∷ purse ++ le_bytes 8 n,
  hold_bytes_lem purse rest n l b 1,
  rw (long purse rest n l b 1, read_hold_lem purse rest n l b 1, rest_lem purse rest n l b 1),
)

-- BlockGlobalAddr.fromBytes returns what BlockGlobalAddr.toBytes wrote, the tag included, with the
-- bytes that follow.
pub block_global_leftover :
    (time : Bool) (rest : Bytes)
    → let a : BlockGlobalAddr = record { block_time = time; message_count = not time } in
      block_global_from_bytes (block_global_to_bytes a ++ rest)
      ≡ ok (a, block_global_to_bytes a ++ rest)
unfolding block_global_to_bytes block_global_from_bytes
block_global_leftover true rest = refl
block_global_leftover false rest = refl

module _ ⦃e : Ethers⦄ where
  -- ByteCode.fromBytes reads the byte code of a 32-byte hash, and drops all that follows it.
  pub byte_code_drops_rest :
      (hash rest : Bytes)
      → length hash ≡ 32
      → let c : ByteCode = record { v1_casper_wasm = some hash; is_empty = false } in
        (byte_code_to_bytes c ≡ ok (1 ∷ hash))
        × (byte_code_from_bytes (1 ∷ hash ++ rest) ≡ ok (c, []))
  unfolding byte_code_to_bytes byte_code_from_bytes
  byte_code_drops_rest hash rest l =
      let read : hash_from_bytes hash ≡ ok (hash, []) =
        rw (append-nil) at (hash_from_bytes-append hash [] l) in
      (rw (concat2), rw (take-append hash rest 32 l, read))
