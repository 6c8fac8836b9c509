-- ===== src/Hash.antt =====
-- src/types/key/Hash.ts: 32-byte hashes. A `Hash` is its bytes; the constructor's guard is
-- `new_hash`.
use casper_js_sdk.Prelude.{
  ◌≡◌, ◌++◌, length, take, drop, take-append, drop-append, length-append, ltb, ◌==◌, not,
  if◌then◌else◌, le→ltb, arith, Result, ok, err, ◌>>=◌, invalid_hash_length,
}
use casper_js_sdk.Prelude.Words.{Bytes}
use casper_js_sdk.Numeric.{Parsed}

-- the constructor
unfoldable pub new_hash : Bytes → Result Bytes
new_hash hash_bytes =
    if not (length hash_bytes == 32) then err invalid_hash_length else ok hash_bytes

-- `fromBytes`
unfoldable pub hash_from_bytes : Bytes → Parsed Bytes
unfolding new_hash
hash_from_bytes source =
    if ltb (length source) 32
    then err invalid_hash_length
    else do hash ← new_hash (take 32 source); ok (hash, drop 32 source)

-- Hash.fromBytes takes a hash off its 32 bytes, and leaves what follows them.
pub hash_from_bytes-append :
    (hash rest : Bytes) → length hash ≡ 32 → hash_from_bytes (hash ++ rest) ≡ ok (hash, rest)
unfolding hash_from_bytes
hash_from_bytes-append hash rest h = rw (
  le→ltb (length (hash ++ rest)) 32 (omega (arith, length-append hash rest)),
  take-append hash rest 32 h,
  drop-append hash rest 32 h,
  h,
)
