-- ===== src/Transaction/PricingMode/Fields.antt =====
-- The tables that pricing modes are written as, and what is read from their fields.
use casper_js_sdk.Prelude.{
  ◌-◌, ℕ, ◌%◌, ◌^◌, ◌<◌, ◌≡◌, arith, List, [], ◌∷◌, length, append-nil, Bool, if◌then◌else◌, Option,
  none, some, ok,
}
use casper_js_sdk.Prelude.Int.{pos}
use casper_js_sdk.Prelude.Words.{Bytes, le_bytes, length-le_bytes}
use casper_js_sdk.Ethers.{Ethers}
use casper_js_sdk.ByteConverters.Numbers.{to_bytes_u8-le_bytes, number_to_bytes_u64-le_bytes}
use casper_js_sdk.Numeric.{u8_from_bytes, u64_from_bytes}
use casper_js_sdk.Numeric.Fixed.{u64_from_bytes-le_bytes}
use casper_js_sdk.Hash.{hash_from_bytes, hash_from_bytes-append}
use casper_js_sdk.Calltable.{Calltable, get_field, from_bytes}
use casper_js_sdk.Calltable.Layout.{of_values, total, Fits, table_encoding, get_field-of_values}
use casper_js_sdk.Transaction.Envelope.{write2_lem, write3_lem, write4_lem, read_table}
use casper_js_sdk.Transaction.PricingMode.{
  FixedMode, payment_limited_to_bytes, fixed_to_bytes, prepaid_to_bytes, pricing_mode_to_bytes,
}

module _ ⦃e : Ethers⦄ where
  read_u64 : (n : ℕ) → n < 2 ^ 64 → u64_from_bytes (le_bytes 8 n) ≡ ok (pos n, [])
  read_u64 n h = rw append-nil at (u64_from_bytes-le_bytes n [] (omega arith))

  read_u8 : (n : ℕ) → n < 256 → u8_from_bytes (le_bytes 1 n) ≡ ok (pos n, [])
  unfolding u8_from_bytes le_bytes
  read_u8 n h = let byte : n % 256 ≡ n = omega arith in rw byte

  -- A pricing mode with a payment limit, of an amount below 2 ^ 53 - 1 and an
  -- 8-bit tolerance, is written,
  -- whatever the other modes are, as a table with the tag 0, from whose fields 1 and 2 the readers
  -- of numbers read the amount and the tolerance, and whose field 3 is the flag of a standard
  -- payment.
  pub payment_limited-from_bytes :
      (fixed : Option FixedMode) (prepaid : Option Bytes) (amount tolerance : ℕ) (standard : Bool)
      → amount < 2 ^ 53 - 1
      → tolerance < 256
      → (bytes amount_field tolerance_field : Bytes) × (table : Calltable) × (pricing_mode_to_bytes
            (record {
              payment_limited = some (record {
                gas_price_tolerance = pos tolerance;
                payment_amount = pos amount;
                standard_payment = standard;
              });
              fixed = fixed;
              prepaid = prepaid;
            })
          ≡ ok bytes)
        × (from_bytes bytes ≡ ok table)
        × (get_field 0 table ≡ some (0 ∷ []))
        × (get_field 1 table ≡ some amount_field)
        × (u64_from_bytes amount_field ≡ ok (pos amount, []))
        × (get_field 2 table ≡ some tolerance_field)
        × (u8_from_bytes tolerance_field ≡ ok (pos tolerance, []))
        × (get_field 3 table ≡ some ((if standard then 1 else 0) ∷ []))
  unfolding pricing_mode_to_bytes le_bytes
  payment_limited-from_bytes fixed prepaid amount tolerance standard ha ht =
      let flag : ℕ = if standard then 1 else 0 in
      let a = le_bytes 8 amount in
      let t = le_bytes 1 tolerance in
      let vs : List Bytes = (0 ∷ []) ∷ a ∷ t ∷ (flag ∷ []) ∷ [] in
      let fits : Fits vs = record {
        count = unfold total in omega arith;
        size = unfold total in omega (arith, length-le_bytes 8 amount, length-le_bytes 1 tolerance);
      } in
      (
        table_encoding vs,
        a,
        t,
        of_values vs,
        rw
            (
              payment_limited_to_bytes,
              to_bytes_u8-le_bytes 0 (omega arith),
              number_to_bytes_u64-le_bytes amount ha,
              to_bytes_u8-le_bytes tolerance ht,
            )
            (write4_lem (0 ∷ []) a t (flag ∷ []) fits),
        read_table vs fits,
        get_field-of_values 0 vs,
        get_field-of_values 1 vs,
        read_u64 amount (omega arith),
        get_field-of_values 2 vs,
        read_u8 tolerance ht,
        get_field-of_values 3 vs,
      )

  -- A fixed pricing mode, of an 8-bit tolerance and an 8-bit factor, is written, if no payment
  -- limit is there, as a table with the tag 1, from whose fields 1 and 2 the readers of numbers
  -- read the tolerance and the factor.
  pub fixed-from_bytes :
      (prepaid : Option Bytes) (tolerance factor : ℕ)
      → tolerance < 256
      → factor < 256
      → (bytes tolerance_field factor_field : Bytes) × (table : Calltable) × (pricing_mode_to_bytes
            (record {
              payment_limited = none;
              fixed = some (record {
                gas_price_tolerance = pos tolerance;
                additional_computation_factor = pos factor;
              });
              prepaid = prepaid;
            })
          ≡ ok bytes)
        × (from_bytes bytes ≡ ok table)
        × (get_field 0 table ≡ some (1 ∷ []))
        × (get_field 1 table ≡ some tolerance_field)
        × (u8_from_bytes tolerance_field ≡ ok (pos tolerance, []))
        × (get_field 2 table ≡ some factor_field)
        × (u8_from_bytes factor_field ≡ ok (pos factor, []))
  unfolding pricing_mode_to_bytes le_bytes
  fixed-from_bytes prepaid tolerance factor ht hf =
      let t = le_bytes 1 tolerance in
      let f = le_bytes 1 factor in
      let vs : List Bytes = (1 ∷ []) ∷ t ∷ f ∷ [] in
      let fits : Fits vs = record {
        count = unfold total in omega arith;
        size = unfold total in omega (arith, length-le_bytes 1 tolerance, length-le_bytes 1 factor);
      } in
      (
        table_encoding vs,
        t,
        f,
        of_values vs,
        rw
            (
              fixed_to_bytes,
              to_bytes_u8-le_bytes 1 (omega arith),
              to_bytes_u8-le_bytes tolerance ht,
              to_bytes_u8-le_bytes factor hf,
            )
            (write3_lem (1 ∷ []) t f fits),
        read_table vs fits,
        get_field-of_values 0 vs,
        get_field-of_values 1 vs,
        read_u8 tolerance ht,
        get_field-of_values 2 vs,
        read_u8 factor hf,
      )

  -- A prepaid pricing mode, if no other mode is there, is written as a table with the tag 2, from
  -- whose field 1 Hash.fromBytes reads the receipt of 32 bytes.
  pub prepaid-from_bytes :
      (receipt : Bytes)
      → length receipt ≡ 32
      → (bytes field : Bytes) × (table : Calltable) × (pricing_mode_to_bytes
            (record { payment_limited = none; fixed = none; prepaid = some receipt })
          ≡ ok bytes)
        × (from_bytes bytes ≡ ok table)
        × (get_field 0 table ≡ some (2 ∷ []))
        × (get_field 1 table ≡ some field)
        × (hash_from_bytes field ≡ ok (receipt, []))
  unfolding pricing_mode_to_bytes le_bytes
  prepaid-from_bytes receipt h =
      let vs : List Bytes = (2 ∷ []) ∷ receipt ∷ [] in
      let fits : Fits vs = record {
        count = unfold total in omega arith;
        size = unfold total in omega arith;
      } in
      (
        table_encoding vs,
        receipt,
        of_values vs,
        rw (prepaid_to_bytes, to_bytes_u8-le_bytes 2 (omega arith))
            (write2_lem (2 ∷ []) receipt fits),
        read_table vs fits,
        get_field-of_values 0 vs,
        get_field-of_values 1 vs,
        rw append-nil at (hash_from_bytes-append receipt [] h),
      )
