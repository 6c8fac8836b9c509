-- ===== src/ByteConverters/Numbers.antt =====
-- What `toBytesNumber` writes, in plain arithmetic.
use casper_js_sdk.Prelude.{
  ℕ, zero, suc, ◌+◌, ◌-◌, ◌*◌, ◌/◌, ◌%◌, ◌^◌, ◌<◌, ◌≡◌, refl, ◌∙◌, ap, arith, inl, inr, Bool-cases,
  ◌++◌, length, reverse, replicate, append-nil, length-append, length-reverse, length-replicate,
  Bool, true, false, not, ltb, le→ltb, le→leb, if◌then◌else◌, ok, err, value_out_of_bounds,
}
use casper_js_sdk.Prelude.Int.{ℤ, pos, negsuc}
use casper_js_sdk.Prelude.Words.{
  Bytes, AllByte-append, AllByte-reverse, AllByte-zeros, le_bytes, le_value-append_zeros,
  le_bytes_unique,
}
use casper_js_sdk.Ethers.{Ethers}
use casper_js_sdk.ByteConverters.{
  out_of_bounds, number_layout, to_bytes_number, to_bytes_u8, to_bytes_u16, to_bytes_u32,
  to_bytes_u64, number_to_bytes, number_to_bytes_u32, number_to_bytes_u64,
}
use native.Mathlib.Nat.{pow-suc, mod-eq_of_lt, one-le-pow}

pub two_pow_bytes : (k : ℕ) → 2 ^ (8 * k) ≡ 256 ^ k
two_pow_bytes zero = refl
two_pow_bytes (suc k) =
    let shape : 8 * suc k ≡ suc (suc (suc (suc (suc (suc (suc (suc (8 * k)))))))) = omega arith in
    rw
      (
        shape,
        pow-suc,
        pow-suc,
        pow-suc,
        pow-suc,
        pow-suc,
        pow-suc,
        pow-suc,
        pow-suc,
        two_pow_bytes k,
      )
      (omega (arith, pow-suc 256 k))

half_pow : (k : ℕ) → (2 ^ (8 * suc k) ≡ 2 * 2 ^ (8 * suc k - 1)) × (0 < 2 ^ (8 * suc k - 1))
half_pow k =
    let shape : 8 * suc k ≡ suc (8 * suc k - 1) = omega arith in
    (
      ap (λ t. 2 ^ t) shape ∙ rw (pow-suc 2 (8 * suc k - 1)) (omega arith),
      one-le-pow (8 * suc k - 1) 2 (omega arith),
    )

-- The two's complement of `v` in `w` bits.
unfoldable pub twos_complement : ℕ → ℤ → ℕ
twos_complement w (pos n) = n
twos_complement w (negsuc n) = 2 ^ w - suc n

-- A number from 0 to below 2 ^ w, or, signed, from -2 ^ (w - 1) to below 2 ^ (w - 1): twice the number
-- below 2 ^ w.
unfoldable pub fits : ℕ → Bool → ℤ → Bool
fits w true (pos n) = ltb (2 * n) (2 ^ w)
fits w true (negsuc n) = ltb (2 * n) (2 ^ w)
fits w false (pos n) = ltb n (2 ^ w)
fits w false (negsuc n) = false

module _ ⦃e : Ethers⦄ where
  padded : Bytes → ℕ → Bytes
  padded bytes k = reverse bytes ++ replicate (k - length bytes) 0

  padded-le_bytes :
      (n k : ℕ) → n < 256 ^ suc k → padded (e.arrayify (pos n)) (suc k) ≡ le_bytes (suc k) n
  unfolding padded
  padded-le_bytes n k h =
      let bytes = e.arrayify (pos n) in
      le_bytes_unique (padded bytes (suc k)) (suc k) n
        (AllByte-append (reverse bytes) _ (AllByte-reverse bytes (e.arrayify-AllByte n))
          (AllByte-zeros _))
        (rw
          (
            length-append (reverse bytes) (replicate (suc k - length bytes) 0),
            length-reverse bytes,
            length-replicate {A = ℕ} (suc k - length bytes) 0,
          )
          (omega (arith, e.length-arrayify_le n k h)))
        (le_value-append_zeros (reverse bytes) _ ∙ e.arrayify-value n)

  number_layout_short :
      (n k : ℕ)
      → k < 8
      → n < 256 ^ suc k
      → number_layout (8 * suc k) (pos n) ≡ ok (le_bytes (suc k) n)
  unfolding number_layout padded
  number_layout_short n k hk h =
      let size : 8 * suc k / 8 ≡ suc k = omega arith in
      let few = e.length-arrayify_le n k h in
      rw
        (
          le→leb 0 (n + 0) (omega arith),
          le→ltb 64 (8 * suc k) (omega arith),
          size,
          le→ltb (suc k) (length (e.arrayify (pos n))) few,
          e.concat-cons,
          e.concat-cons,
          e.concat-nil,
          append-nil,
        )
        (ap (λ t. ok t) (padded-le_bytes n k h))

  in_bounds :
      (k : ℕ) (v : ℤ)
      → twos_complement (8 * suc k) v < 256 ^ suc k
      → k < 8
      → number_layout (8 * suc k) (e.mask (8 * suc k) (pos (twos_complement (8 * suc k) v)))
        ≡ ok (le_bytes (suc k) (twos_complement (8 * suc k) v))
  in_bounds k v h hk =
      let n = twos_complement (8 * suc k) v in
      let same : n % 2 ^ (8 * suc k) ≡ n = rw (two_pow_bytes (suc k)) (mod-eq_of_lt h) in
      rw (e.mask-pos (8 * suc k) n, same) (number_layout_short n k hk h)

  twos_lem :
      (k : ℕ) (signed : Bool) (v : ℤ)
      → out_of_bounds (8 * suc k) signed v ≡ false
      → (e.to_twos (8 * suc k) v ≡ pos (twos_complement (8 * suc k) v))
        × (twos_complement (8 * suc k) v < 256 ^ suc k)
  unfolding twos_complement out_of_bounds
  twos_lem k true (pos n) h = (e.to_twos-pos _ n, ground (arith, two_pow_bytes (suc k), half_pow k))
  twos_lem k true (negsuc n) h = (
    e.to_twos-negsuc _ n (ground (arith, half_pow k)),
    ground (arith, two_pow_bytes (suc k), half_pow k),
  )
  twos_lem k false (pos n) h =
      (e.to_twos-pos _ n, ground (arith, two_pow_bytes (suc k), half_pow k))
  twos_lem k false (negsuc n) h = absurd (ground arith)

  pub to_bytes_number_guarded :
      (k : ℕ) (signed : Bool) (v : ℤ)
      → k < 8
      → to_bytes_number (8 * suc k) signed v ≡ (
          if out_of_bounds (8 * suc k) signed v
          then err value_out_of_bounds
          else ok (le_bytes (suc k) (twos_complement (8 * suc k) v)))
  unfolding to_bytes_number
  to_bytes_number_guarded k signed v hk = elim (Bool-cases (out_of_bounds (8 * suc k) signed v)) [
    | inl bad ↦ rw bad
    | inr good ↦
        rw good (let (same, small) = twos_lem k signed v good in rw same (in_bounds k v small hk))
  ]

  -- The guards let through exactly the numbers that fit.
  out_of_bounds_lem :
      (k : ℕ) (signed : Bool) (v : ℤ)
      → out_of_bounds (8 * suc k) signed v ≡ not (fits (8 * suc k) signed v)
  unfolding out_of_bounds fits
  out_of_bounds_lem k true (pos n) = ground (arith, half_pow k)
  out_of_bounds_lem k true (negsuc n) = ground (arith, half_pow k)
  out_of_bounds_lem k false (pos n) = ground (arith, half_pow k)
  out_of_bounds_lem k false (negsuc n) = ground (arith, half_pow k)

  -- For a width w of 8 to 64 bits, toBytesNumber writes a number from 0 to below 2 ^ w or, signed,
  -- from -2 ^ (w - 1) to below 2 ^ (w - 1), as exactly w / 8 bytes, the little-endian digits of
  -- its two's complement, and refuses every other number as out of bounds.
  pub to_bytes_number-le_bytes :
      (k : ℕ) (signed : Bool) (v : ℤ)
      → k < 8
      → to_bytes_number (8 * suc k) signed v ≡ (
          if fits (8 * suc k) signed v
          then ok (le_bytes (suc k) (twos_complement (8 * suc k) v))
          else err value_out_of_bounds)
  to_bytes_number-le_bytes k signed v hk = elim (Bool-cases (fits (8 * suc k) signed v)) [
    | inl good ↦
        to_bytes_number_guarded k signed v hk ∙ rw (out_of_bounds_lem k signed v, good) refl
    | inr bad ↦ to_bytes_number_guarded k signed v hk ∙ rw (out_of_bounds_lem k signed v, bad) refl
  ]

  pub to_bytes_number-unsigned :
      (k n : ℕ)
      → k < 8
      → n < 256 ^ suc k
      → to_bytes_number (8 * suc k) false (pos n) ≡ ok (le_bytes (suc k) n)
  unfolding twos_complement
  to_bytes_number-unsigned k n hk h =
      let inside : out_of_bounds (8 * suc k) false (pos n) ≡ false =
        unfold out_of_bounds in ground (arith, two_pow_bytes (suc k)) in
      to_bytes_number_guarded k false (pos n) hk ∙ rw inside

  -- A number that an unsigned writer of at most 64 bits accepts fits its width.
  pub to_bytes_number_bound :
      (k n : ℕ) (bs : Bytes)
      → k < 8
      → to_bytes_number (8 * suc k) false (pos n) ≡ ok bs
      → n < 256 ^ suc k
  unfolding twos_complement
  to_bytes_number_bound k n bs hk h = elim (Bool-cases (out_of_bounds (8 * suc k) false (pos n))) [
    | inl bad ↦ cc (rw bad at (to_bytes_number_guarded k false (pos n) hk))
    | inr good ↦ (twos_lem k false (pos n) good).1
  ]

  pub to_bytes_u8-le_bytes : (n : ℕ) → n < 256 → to_bytes_u8 (pos n) ≡ ok (le_bytes 1 n)
  to_bytes_u8-le_bytes n h = to_bytes_number-unsigned 0 n (omega arith) h

  pub to_bytes_u16-le_bytes : (n : ℕ) → n < 2 ^ 16 → to_bytes_u16 (pos n) ≡ ok (le_bytes 2 n)
  to_bytes_u16-le_bytes n h = to_bytes_number-unsigned 1 n (omega arith) h

  pub to_bytes_u32-le_bytes : (n : ℕ) → n < 2 ^ 32 → to_bytes_u32 (pos n) ≡ ok (le_bytes 4 n)
  to_bytes_u32-le_bytes n h = to_bytes_number-unsigned 3 n (omega arith) h

  pub to_bytes_u64-le_bytes : (n : ℕ) → n < 2 ^ 64 → to_bytes_u64 (pos n) ≡ ok (le_bytes 8 n)
  to_bytes_u64-le_bytes n h = to_bytes_number-unsigned 7 n (omega arith) h

  pub number_to_bytes_u32-le_bytes :
      (n : ℕ) → n < 2 ^ 32 → number_to_bytes_u32 (pos n) ≡ ok (le_bytes 4 n)
  unfolding number_to_bytes
  number_to_bytes_u32-le_bytes n h =
      rw (e.from_number-safe n (omega arith)) (to_bytes_u32-le_bytes n h)

  pub number_to_bytes_u64-le_bytes :
      (n : ℕ) → n < 2 ^ 53 - 1 → number_to_bytes_u64 (pos n) ≡ ok (le_bytes 8 n)
  unfolding number_to_bytes
  number_to_bytes_u64-le_bytes n h =
      rw (e.from_number-safe n h) (to_bytes_u64-le_bytes n (omega arith))
