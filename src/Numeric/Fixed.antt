-- ===== src/Numeric/Fixed.antt =====
-- The readers of fixed width read back what the writers of `ByteConverters` wrote.
use casper_js_sdk.Prelude.{
  length-reverse, ℕ, suc, ◌*◌, ◌-◌, ◌%◌, ◌^◌, ◌<◌, ◌≡◌, refl, ap, ◌∙◌, arith, ◌++◌, length, reverse,
  length-append, take, take-append, drop-append, Bool, true, false, ok, le→ltb, Bool-cases, inl,
  inr, ltb,
}
use mathlib.Core.List.{reverse-reverse}
use casper_js_sdk.Prelude.Int.{ℤ, pos, negsuc}
use casper_js_sdk.Prelude.Words.{
  Bytes, AllByte-le_bytes, AllByte-reverse, le_bytes, length-le_bytes, le_value-le_bytes,
}
use casper_js_sdk.Ethers.{Ethers}
use casper_js_sdk.ByteConverters.{
  out_of_bounds, to_bytes_number, to_bytes_u8, to_bytes_u32, to_bytes_u64, to_bytes_i32,
  to_bytes_i64,
}
use casper_js_sdk.ByteConverters.Numbers.{
  twos_complement, to_bytes_number_guarded, to_bytes_number_bound,
}
use casper_js_sdk.Numeric.{
  u8_from_bytes, u32_from_bytes, u64_from_bytes, i32_from_bytes, i64_from_bytes,
}

module _ ⦃e : Ethers⦄ where
  pub little_endian-le_bytes :
      (k n : ℕ) (rest : Bytes)
      → 0 < k
      → n < 256 ^ k
      → e.from_bytes (reverse (take k (le_bytes k n ++ rest))) ≡ pos n
  little_endian-le_bytes k n rest some_bytes h = rw (
    take-append (le_bytes k n) rest k (length-le_bytes k n),
    e.from_bytes_lem (reverse (le_bytes k n)) (AllByte-reverse _ (AllByte-le_bytes k n))
        (omega (arith, length-reverse (le_bytes k n), length-le_bytes k n)),
    reverse-reverse (le_bytes k n),
    le_value-le_bytes k n h,
  )

  enough : (k n : ℕ) (rest : Bytes) → ltb (length (le_bytes k n ++ rest)) k ≡ false
  enough k n rest =
      le→ltb _ _ (omega (arith, length-append (le_bytes k n) rest, length-le_bytes k n))

  pub u32_from_bytes-le_bytes :
      (n : ℕ) (rest : Bytes)
      → n < 256 ^ 4
      → u32_from_bytes (le_bytes 4 n ++ rest) ≡ ok (pos n, rest)
  unfolding u32_from_bytes
  u32_from_bytes-le_bytes n rest h = rw (
    enough 4 n rest,
    little_endian-le_bytes 4 n rest (omega arith) h,
    drop-append (le_bytes 4 n) rest 4 (length-le_bytes 4 n),
  )

  pub u64_from_bytes-le_bytes :
      (n : ℕ) (rest : Bytes)
      → n < 256 ^ 8
      → u64_from_bytes (le_bytes 8 n ++ rest) ≡ ok (pos n, rest)
  unfolding u64_from_bytes
  u64_from_bytes-le_bytes n rest h = rw (
    enough 8 n rest,
    little_endian-le_bytes 8 n rest (omega arith) h,
    drop-append (le_bytes 8 n) rest 8 (length-le_bytes 8 n),
  )

  -- What a writer of at most 64 bits returned: the digits of the two's complement, of a number
  -- within the bounds.
  written :
      (k : ℕ) (signed : Bool) (v : ℤ) (bs : Bytes)
      → k < 8
      → to_bytes_number (8 * suc k) signed v ≡ ok bs
      → (bs ≡ le_bytes (suc k) (twos_complement (8 * suc k) v))
        × (out_of_bounds (8 * suc k) signed v ≡ false)
  written k signed v bs hk h = elim (Bool-cases (out_of_bounds (8 * suc k) signed v)) [
    | inl bad ↦ cc (rw bad at (to_bytes_number_guarded k signed v hk))
    | inr good ↦ (cc (rw good at (to_bytes_number_guarded k signed v hk)), good)
  ]

  from_twos-twos_complement_32 :
      (v : ℤ)
      → out_of_bounds 32 true v ≡ false
      → (twos_complement 32 v < 256 ^ 4) × (e.from_twos 32 (pos (twos_complement 32 v)) ≡ v)
  unfolding twos_complement out_of_bounds
  from_twos-twos_complement_32 (pos n) h = (ground arith, e.from_twos-low 32 n (ground arith))
  from_twos-twos_complement_32 (negsuc n) h =
      let back : 2 ^ 32 - (2 ^ 32 - suc n) - 1 ≡ n = ground arith in
      (
        ground arith,
        e.from_twos-high 32 (2 ^ 32 - suc n) (ground arith) (ground arith) ∙ ap negsuc back,
      )

  from_twos-twos_complement_64 :
      (v : ℤ)
      → out_of_bounds 64 true v ≡ false
      → (twos_complement 64 v < 256 ^ 8) × (e.from_twos 64 (pos (twos_complement 64 v)) ≡ v)
  unfolding twos_complement out_of_bounds
  from_twos-twos_complement_64 (pos n) h = (ground arith, e.from_twos-low 64 n (ground arith))
  from_twos-twos_complement_64 (negsuc n) h =
      let back : 2 ^ 64 - (2 ^ 64 - suc n) - 1 ≡ n = ground arith in
      (
        ground arith,
        e.from_twos-high 64 (2 ^ 64 - suc n) (ground arith) (ground arith) ∙ ap negsuc back,
      )

  unsigned_range :
      (k : ℕ) (v : ℤ) → out_of_bounds (8 * suc k) false v ≡ false → (n : ℕ) × (v ≡ pos n)
  unfolding out_of_bounds
  unsigned_range k (pos n) h = (n, refl)
  unsigned_range k (negsuc n) h = absurd (ground arith)

  unsigned_digits :
      (k : ℕ) (v : ℤ) (bs : Bytes)
      → k < 8
      → to_bytes_number (8 * suc k) false v ≡ ok bs
      → (n : ℕ) × (v ≡ pos n) × (bs ≡ le_bytes (suc k) n) × (n < 256 ^ suc k)
  unfolding twos_complement
  unsigned_digits k v bs hk h =
      let (digits, inside) = written k false v bs hk h in
      let (n, same) = unsigned_range k v inside in
      (n, same, rw same at digits, to_bytes_number_bound k n bs hk (rw same at h))

  -- What toBytesU8 writes, CLValueUInt8.fromBytes reads back, and leaves what follows.
  pub u8_from_bytes-to_bytes_u8 :
      (v : ℤ) (bs rest : Bytes) → to_bytes_u8 v ≡ ok bs → u8_from_bytes (bs ++ rest) ≡ ok (v, rest)
  unfolding u8_from_bytes le_bytes
  u8_from_bytes-to_bytes_u8 v bs rest h =
      let (n, same, digits, small) = unsigned_digits 0 v bs (omega arith) h in
      let byte : n % 256 ≡ n = omega arith in rw (same, digits, byte)

  -- What toBytesU32 writes, CLValueUInt32.fromBytes reads back, and leaves what follows.
  pub u32_from_bytes-to_bytes_u32 :
      (v : ℤ) (bs rest : Bytes)
      → to_bytes_u32 v ≡ ok bs
      → u32_from_bytes (bs ++ rest) ≡ ok (v, rest)
  u32_from_bytes-to_bytes_u32 v bs rest h =
      let (n, same, digits, small) = unsigned_digits 3 v bs (omega arith) h in
      rw (same, digits) (u32_from_bytes-le_bytes n rest small)

  -- What toBytesU64 writes, CLValueUInt64.fromBytes reads back, and leaves what follows.
  pub u64_from_bytes-to_bytes_u64 :
      (v : ℤ) (bs rest : Bytes)
      → to_bytes_u64 v ≡ ok bs
      → u64_from_bytes (bs ++ rest) ≡ ok (v, rest)
  u64_from_bytes-to_bytes_u64 v bs rest h =
      let (n, same, digits, small) = unsigned_digits 7 v bs (omega arith) h in
      rw (same, digits) (u64_from_bytes-le_bytes n rest small)

  -- What toBytesI32 writes, CLValueInt32.fromBytes reads back, and leaves what follows.
  pub i32_from_bytes-to_bytes_i32 :
      (v : ℤ) (bs rest : Bytes)
      → to_bytes_i32 v ≡ ok bs
      → i32_from_bytes (bs ++ rest) ≡ ok (v, rest)
  unfolding i32_from_bytes
  i32_from_bytes-to_bytes_i32 v bs rest h =
      let (digits, inside) = written 3 true v bs (omega arith) h in
      let (small, back) = from_twos-twos_complement_32 v inside in
      let n = twos_complement 32 v in
      rw (
        digits,
        enough 4 n rest,
        little_endian-le_bytes 4 n rest (omega arith) small,
        drop-append (le_bytes 4 n) rest 4 (length-le_bytes 4 n),
        back,
      )

  -- What toBytesI64 writes, CLValueInt64.fromBytes reads back, and leaves what follows.
  pub i64_from_bytes-to_bytes_i64 :
      (v : ℤ) (bs rest : Bytes)
      → to_bytes_i64 v ≡ ok bs
      → i64_from_bytes (bs ++ rest) ≡ ok (v, rest)
  unfolding i64_from_bytes
  i64_from_bytes-to_bytes_i64 v bs rest h =
      let (digits, inside) = written 7 true v bs (omega arith) h in
      let (small, back) = from_twos-twos_complement_64 v inside in
      let n = twos_complement 64 v in
      rw (
        digits,
        enough 8 n rest,
        little_endian-le_bytes 8 n rest (omega arith) small,
        drop-append (le_bytes 8 n) rest 8 (length-le_bytes 8 n),
        back,
      )
