-- ===== src/ByteConverters/Buffer.antt =====
-- src/types/ByteConverters.ts: writing into an `ArrayBuffer` that grows. A buffer is its bytes.
use casper_js_sdk.Prelude.{
  ℕ, zero, suc, ◌+◌, ◌-◌, ◌*◌, ◌%◌, ◌^◌, ◌≤◌, ◌<◌, ◌≡◌, ◌⊎◌, inl, inr, refl, arith, ◌++◌, length,
  take, drop, replicate, length-append, take-append, drop-append_add, ltb, le→ltb, false,
  Bool-cases, if◌then◌else◌, Result, ok, err, ◌>>=◌, out_of_fuel, range_error, ltb→lt,
}
use casper_js_sdk.Prelude.Words.{Bytes, le_bytes}

-- The loop of `expandBuffer`, at most `fuel` times. It doubles the size, so from a buffer that is
-- not empty the required size is more than enough fuel; from an empty one it never ends.
unfoldable pub expand_size : ℕ → ℕ → ℕ → Result ℕ
expand_size zero size required = err out_of_fuel
expand_size (suc fuel) size required =
    let more = expand_size fuel (size * 2) required in if ltb size required then more else ok size

-- `expandBuffer`
unfoldable pub expand_buffer : Bytes → ℕ → Result Bytes
expand_buffer buffer required = do
  size ← expand_size (suc required) (length buffer) required
  ok (buffer ++ replicate (size - length buffer) 0)

-- `new Uint8Array(buffer, offset).set(bytes)`, which throws where the bytes do not fit.
unfoldable pub set_at : ℕ → Bytes → Bytes → Result Bytes
set_at offset bytes buffer =
    if ltb (length buffer) (offset + length bytes)
    then err range_error
    else ok (take offset buffer ++ bytes ++ drop (offset + length bytes) buffer)

-- `writeInteger`: the buffer; the new offset is four more.
unfoldable pub write_integer : ℕ → ℕ → Bytes → Result Bytes
write_integer offset value buffer = set_at offset (le_bytes 4 (value % 2 ^ 32)) buffer

doubled :
    (n size required : ℕ) → size < required → (n ≡ size * 2) ⊎ (n < required * 2) → n < required * 2
doubled n size required h (inl same) = omega arith
doubled n size required h (inr less) = less

expand_size_lem :
    (fuel size required : ℕ)
    → 0 < size
    → required ≤ size + fuel
    → (n : ℕ) × (expand_size (suc fuel) size required ≡ ok n)
      × (size ≤ n)
      × (required ≤ n)
      × ((n ≡ size) ⊎ (n < required * 2))
unfolding expand_size
expand_size_lem zero size required h k =
    let large : ltb size required ≡ false = le→ltb _ _ (omega arith) in
    (size, rw (large), omega arith, omega arith, inl refl)
expand_size_lem (suc fuel) size required h k =
    let (n, run, above, enough, tight) =
      expand_size_lem fuel (size * 2) required (omega arith) (omega arith) in
    elim (Bool-cases (ltb size required)) [
      | inr large ↦ (size, rw (large), omega arith, ground arith, inl refl)
      | inl small ↦
          let lt : size < required = ltb→lt size required small in
          (n, rw (small, run), omega arith, enough, inr (doubled n size required lt tight))
    ]

-- expandBuffer of a buffer that is not empty ends. It keeps what is there and adds zeros behind
-- it, so that the new size is at least the required one; and it adds none, or the new size is less
-- than twice the required one.
pub expand_buffer_lem :
    (buffer : Bytes) (required : ℕ)
    → 0 < length buffer
    → (k : ℕ) × (expand_buffer buffer required ≡ ok (buffer ++ replicate k 0))
      × (required ≤ length buffer + k)
      × ((k ≡ 0) ⊎ (length buffer + k < required * 2))
unfolding expand_buffer
expand_buffer_lem buffer required h =
    let (n, run, above, enough, tight) =
      expand_size_lem required (length buffer) required h (omega arith) in
    (n - length buffer, rw (run), omega arith, grown n above tight)
  where
    grown :
        (n : ℕ)
        → length buffer ≤ n
        → (n ≡ length buffer) ⊎ (n < required * 2)
        → (n - length buffer ≡ 0) ⊎ (length buffer + (n - length buffer) < required * 2)
    grown n above (inl same) = inl (omega arith)
    grown n above (inr less) = inr (omega arith)

-- Bytes that are set right behind what is written already.
pub set_at-append :
    (written pad bytes : Bytes)
    → length bytes ≤ length pad
    → set_at (length written) bytes (written ++ pad)
      ≡ ok (written ++ bytes ++ drop (length bytes) pad)
unfolding set_at
set_at-append written pad bytes h =
    let fits : ltb (length (written ++ pad)) (length written + length bytes) ≡ false =
      le→ltb _ _ (omega (arith, length-append written pad)) in
    rw (
      fits,
      take-append written pad (length written) refl,
      drop-append_add written pad (length written) (length bytes) refl,
    )
