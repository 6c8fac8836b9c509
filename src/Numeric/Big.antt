-- ===== src/Numeric/Big.antt =====
-- `fromBytesBigIntBase` reads back what the writers of more than 64 bits wrote.
use casper_js_sdk.Prelude.{
  ℕ, zero, suc, ◌+◌, ◌*◌, ◌%◌, ◌/◌, ◌^◌, ◌≤◌, ◌<◌, ◌≡◌, ◌≢◌, refl, sym, ap, ◌∙◌, arith, [], ◌∷◌,
  ◌++◌, length, reverse, length-append, length-reverse, take-append, drop-append, false, some, ok,
  le→ltb, lt→ltb, le→leb, Bool-cases, inl, inr, ◌==◌, ==_iff, if◌then◌else◌,
}
use mathlib.Core.List.{reverse-reverse, reverse-append}
use native.Mathlib.Nat.{mod-eq_of_lt, one-le-pow}
use casper_js_sdk.Prelude.Int.{pos}
use casper_js_sdk.Prelude.Words.{
  Bytes, AllByte, AllByte-reverse, le_value, le_bytes, le_bytes_unique,
}
use casper_js_sdk.Ethers.{Ethers}
use casper_js_sdk.ByteConverters.{out_of_bounds, number_layout, to_bytes_number}
use casper_js_sdk.ByteConverters.Numbers.{two_pow_bytes}
use casper_js_sdk.Numeric.{from_bytes_big_int_base, BigUint, big_uint_bytes, array_equals}

module _ ⦃e : Ethers⦄ where
  arrayify_zero : e.arrayify (pos 0) ≡ 0 ∷ []
  arrayify_zero =
      let bytes = e.arrayify (pos 0) in
      let short = e.length-arrayify_le 0 0 (omega arith) in
      let one_byte : length (reverse bytes) ≡ 1 =
        omega (arith, length-reverse bytes, e.length-arrayify_pos 0) in
      let digits =
        le_bytes_unique (reverse bytes) 1 0 (AllByte-reverse bytes (e.arrayify-AllByte 0)) one_byte
          (e.arrayify-value 0) in
      sym (reverse-reverse bytes) ∙ ap reverse digits ∙ unfold le_bytes in refl

  layout_zero : (w : ℕ) → 64 < w → number_layout w (pos 0) ≡ ok (0 ∷ [])
  unfolding number_layout
  layout_zero w h = rw (lt→ltb 64 w h, arrayify_zero)

  layout_big :
      (w n : ℕ)
      → 64 < w
      → n ≢ 0
      → length (e.arrayify (pos n)) < 256
      → number_layout w (pos n) ≡ ok (length (e.arrayify (pos n)) ∷ reverse (e.arrayify (pos n)))
  unfolding number_layout
  layout_big w n h nz few =
      let nonzero : (n + 0 == 0) ≡ false = ground arith in
      let count : length (e.arrayify (pos n)) % 256 ≡ length (e.arrayify (pos n)) =
        mod-eq_of_lt few in
      rw (
        le→leb 0 (n + 0) (omega arith),
        lt→ltb 64 w h,
        nonzero,
        count,
        e.concat-cons,
        e.concat-cons,
        e.concat-nil,
        reverse-append (e.arrayify (pos n)) (length (e.arrayify (pos n)) ∷ []),
      )

  big_layout :
      (k n : ℕ)
      → n < 256 ^ suc k
      → to_bytes_number (8 * suc k) false (pos n) ≡ number_layout (8 * suc k) (pos n)
  unfolding to_bytes_number
  big_layout k n h =
      let inside : out_of_bounds (8 * suc k) false (pos n) ≡ false =
        unfold out_of_bounds in ground (arith, two_pow_bytes (suc k)) in
      let fits : n % 2 ^ (8 * suc k) ≡ n = rw (two_pow_bytes (suc k)) (mod-eq_of_lt h) in
      rw (inside, e.to_twos-pos (8 * suc k) n, e.mask-pos (8 * suc k) n, fits)

  -- For a width of 72 to 2040 bits, toBytesNumber writes a number that fits as the count of its
  -- bytes, at most bitSize / 8, and then bytes whose little-endian value is the number.
  pub to_bytes_number_big :
      (k n : ℕ)
      → 8 ≤ k
      → k < 255
      → n < 256 ^ suc k
      → (digits : Bytes) × (to_bytes_number (8 * suc k) false (pos n) ≡ ok (length digits ∷ digits))
        × AllByte digits
        × (le_value digits ≡ n)
        × (length digits ≤ suc k)
  to_bytes_number_big k n hk hk' h = elim (Bool-cases (n == 0)) [
    | inl z ↦
        let zero_lem : n ≡ 0 = (==_iff n 0).0 z in
        (
          [],
          big_layout k n h ∙ rw zero_lem (layout_zero (8 * suc k) (omega arith)),
          tt,
          rw zero_lem (unfold le_value in refl),
          omega arith,
        )
    | inr nz ↦
        let bytes = e.arrayify (pos n) in
        let count = length-reverse bytes in
        (
          reverse bytes,
          big_layout k n h
              ∙ rw count (
                  layout_big (8 * suc k) n (omega arith) (ground arith)
                    (omega (arith, e.length-arrayify_le n k h))),
          AllByte-reverse bytes (e.arrayify-AllByte n),
          e.arrayify-value n,
          rw count (e.length-arrayify_le n k h),
        )
  ]

  read_digits :
      (k : ℕ) (digits rest : Bytes)
      → AllByte digits
      → length digits ≤ suc k
      → from_bytes_big_int_base ((length digits ∷ digits) ++ rest) (8 * suc k)
        ≡ ok (
          record {
            value = pos (le_value digits);
            original_bytes = some ((length digits ∷ digits) ++ rest);
          },
          rest,
        )
  unfolding from_bytes_big_int_base le_value
  read_digits k [] rest h l = rw (
    le→ltb (8 * suc k / 8) 0 (omega arith),
    le→ltb (suc (length rest)) 1 (omega arith),
    e.from_bytes_lem (0 ∷ []) (omega arith, tt) (omega arith),
  )
  read_digits k (d ∷ ds) rest h l =
      let size : 8 * suc k / 8 ≡ suc k = omega arith in
      let some_digits : (suc (length ds) == 0) ≡ false = ground arith in
      rw (
        size,
        le→ltb (suc k) (suc (length ds)) l,
        le→ltb (suc (suc (length (ds ++ rest)))) (suc (length ds) + 1)
            (omega (arith, length-append ds rest)),
        some_digits,
        take-append ds rest (length ds) refl,
        drop-append ds rest (length ds) refl,
        e.from_bytes_lem (reverse (d ∷ ds)) (AllByte-reverse (d ∷ ds) h)
            (omega (arith, length-reverse (d ∷ ds))),
        reverse-reverse (d ∷ ds),
      )

  -- What the writer of 8 * (k + 1) bits wrote for a number that fits, for 72 to 2040 bits,
  -- fromBytesBigIntBase of that width reads back, and leaves what follows; it keeps all bytes that
  -- it was given as the original ones.
  pub from_bytes_big_int_base-to_bytes :
      (k n : ℕ) (bs rest : Bytes)
      → 8 ≤ k
      → k < 255
      → n < 256 ^ suc k
      → to_bytes_number (8 * suc k) false (pos n) ≡ ok bs
      → from_bytes_big_int_base (bs ++ rest) (8 * suc k)
        ≡ ok (record { value = pos n; original_bytes = some (bs ++ rest) }, rest)
  from_bytes_big_int_base-to_bytes k n bs rest hk hk' h w =
      let (digits, written, all, value, short) = to_bytes_number_big k n hk hk' h in
      let same : length digits ∷ digits ≡ bs = cc in
      rw (← same, ← value) (read_digits k digits rest all short)

  zero_written : (k : ℕ) → 8 ≤ k → to_bytes_number (8 * suc k) false (pos 0) ≡ ok (0 ∷ [])
  zero_written k h =
      let positive = one-le-pow (suc k) 256 (omega arith) in
      big_layout k 0 (omega arith) ∙ layout_zero (8 * suc k) (omega arith)

  zero_again :
      (k : ℕ) (rest : Bytes)
      → 8 ≤ k
      → big_uint_bytes (8 * suc k) (record { value = pos 0; original_bytes = some (1 ∷ 0 ∷ rest) })
        ≡ (if length rest == 0 then ok (1 ∷ 0 ∷ []) else ok (0 ∷ []))
  unfolding big_uint_bytes array_equals
  zero_again k [] h = refl
  zero_again k (b ∷ rest) h =
      let more : (suc (length rest) == 0) ≡ false = ground arith in rw more (zero_written k h)

  -- A zero of 72 bits and more that comes with a zero byte, as 1, 0, is read as zero; bytes()
  -- writes it again as 1, 0 if nothing followed it when it was read, and as 0 otherwise.
  pub big_uint_bytes_of_long_zero :
      (k : ℕ) (rest : Bytes)
      → 8 ≤ k
      → (v : BigUint) × (from_bytes_big_int_base (1 ∷ 0 ∷ rest) (8 * suc k) ≡ ok (v, rest))
        × (big_uint_bytes (8 * suc k) v
            ≡ (if length rest == 0 then ok (1 ∷ 0 ∷ []) else ok (0 ∷ [])))
  unfolding le_value
  big_uint_bytes_of_long_zero k rest h = (
    record { value = pos 0; original_bytes = some (1 ∷ 0 ∷ rest) },
    read_digits k (0 ∷ []) rest (omega arith) (omega arith),
    zero_again k rest h,
  )

  -- What is read of a number that was made, not read, is written the same again.
  pub big_uint_bytes_again :
      (k n : ℕ) (digits rest : Bytes)
      → 8 ≤ k
      → to_bytes_number (8 * suc k) false (pos n) ≡ ok (length digits ∷ digits)
      → le_value digits ≡ n
      → big_uint_bytes
          (8 * suc k)
          (record { value = pos n; original_bytes = some (length digits ∷ digits ++ rest) })
        ≡ ok (length digits ∷ digits)
  unfolding big_uint_bytes array_equals le_value
  big_uint_bytes_again k n [] rest hk written same = written
  big_uint_bytes_again k n (zero ∷ []) rest hk written same =
      let none_left : n ≡ 0 = omega arith in
      let zero_bytes = zero_written k hk in absurd (cc (rw none_left at written))
  big_uint_bytes_again k n (suc c ∷ []) rest hk written same =
      let nonzero : (suc c == 0) ≡ false = ground arith in
      rw (big_uint_bytes, array_equals, nonzero) written
  big_uint_bytes_again k n (c ∷ c' ∷ ds) rest hk written same =
      let longer : (suc (suc (length ds)) == 1) ≡ false = ground arith in
      rw (big_uint_bytes, array_equals, longer) written
