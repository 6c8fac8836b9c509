-- ===== src/Key/Leftover.antt =====
-- Keys that are written but not read back.
use casper_js_sdk.Prelude.{
  ◌-◌, ℕ, ◌+◌, ◌%◌, ◌^◌, ◌<◌, ◌≡◌, refl, arith, [], ◌∷◌, ◌++◌, length, take, drop, length-append,
  leb, ltb, ◌==◌, le→ltb, le→leb, gt→leb, ne→==, some, ok, err, false, true, early_end_of_stream,
  invalid_uref_length,
}
use casper_js_sdk.Prelude.Int.{pos}
use casper_js_sdk.Prelude.Words.{Bytes, le_bytes, le_value, length-le_bytes}
use casper_js_sdk.Ethers.{Ethers}
use casper_js_sdk.Ethers.Concat.{concat2}
use casper_js_sdk.ByteConverters.Numbers.{number_to_bytes_u64-le_bytes}
use casper_js_sdk.Key.{
  era_id_key, uref_key, chainspec_registry_key, key_bytes, key_from_bytes, field_bytes,
  concat_bytes, read_content, read_era, read_chainspec, split_at,
}
use casper_js_sdk.Key.Reference.{URef, uref_bytes, uref_from_bytes}
use casper_js_sdk.Key.Addresses.{era_from_bytes}

-- The first four of eight digits, whatever follows.
low_half : (n : ℕ) (rest : Bytes) → le_value (take 4 (le_bytes 8 n ++ rest)) ≡ n % 2 ^ 32
unfolding le_bytes le_value
low_half n rest = omega arith

module _ ⦃e : Ethers⦄ where
  -- The key of an era below 2 ^ 53 - 1 is written in nine bytes, but what Key.fromBytes reads from
  -- them is the era of the lowest 32 bits, and all but one of the eight bytes of the era are left
  -- over.
  pub era_key_leftover :
      (n : ℕ) (rest : Bytes)
      → n < 2 ^ 53 - 1
      → (key_bytes true (era_id_key (some (pos n))) ≡ ok (5 ∷ le_bytes 8 n))
        × (key_from_bytes (5 ∷ le_bytes 8 n ++ rest)
            ≡ ok (era_id_key (some (pos (n % 2 ^ 32))), drop 1 (le_bytes 8 n ++ rest)))
  unfolding key_bytes key_from_bytes field_bytes concat_bytes read_content read_era split_at
      era_from_bytes
  era_key_leftover n rest h =
      let size : length (le_bytes 8 n ++ rest) ≡ 8 + length rest =
        rw (length-append (le_bytes 8 n) rest, length-le_bytes 8 n) in
      let more : leb (length (le_bytes 8 n ++ rest)) 1 ≡ false = gt→leb _ _ (omega arith) in
      let enough : ltb (length (le_bytes 8 n ++ rest)) 4 ≡ false = le→ltb _ _ (omega arith) in
      (rw (number_to_bytes_u64-le_bytes n h), rw (more, enough, low_half n rest))

  -- The key of a chainspec registry, of 32 bytes, is written, but is not read back when nothing
  -- follows it.
  pub chainspec_key_rejected :
      (hash : Bytes)
      → length hash ≡ 32
      → (key_bytes true (chainspec_registry_key (some hash)) ≡ ok (13 ∷ hash))
        × (key_from_bytes (13 ∷ hash) ≡ err early_end_of_stream)
  unfolding key_bytes key_from_bytes field_bytes concat_bytes read_content read_chainspec split_at
  chainspec_key_rejected hash l = (refl, rw (le→leb (length hash) 32 (omega arith)))

  -- The key of a URef of 32 bytes is written, but is not read back when anything follows it.
  pub uref_key_rejected :
      (u : URef) (rest : Bytes)
      → length u.data_ ≡ 32
      → 0 < length rest
      → (key_bytes true (uref_key (some u)) ≡ ok (2 ∷ u.data_ ++ u.access ∷ []))
        × (key_from_bytes (2 ∷ u.data_ ++ u.access ∷ rest) ≡ err invalid_uref_length)
  unfolding key_bytes key_from_bytes field_bytes concat_bytes read_content uref_bytes
      uref_from_bytes
  uref_key_rejected u rest l h =
      let other : (length (u.data_ ++ u.access ∷ rest) == 33) ≡ false =
        ne→== _ _ (omega (arith, length-append u.data_ (u.access ∷ rest))) in
      (rw (concat2), rw (other))
