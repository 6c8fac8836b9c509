-- ===== src/Transaction/PricingMode.antt =====
-- src/types/PricingMode.ts: how a transaction is paid for. The numbers are taken for integers.
pub mod Fields
use casper_js_sdk.Prelude.{
  ℕ, List, [], ◌∷◌, Bool, true, false, if◌then◌else◌, Option, none, some, Result, ok, err, ◌>>=◌,
  unable_to_serialize,
}
use casper_js_sdk.Prelude.Int.{ℤ, pos}
use casper_js_sdk.Prelude.Words.{Bytes}
use casper_js_sdk.Ethers.{Ethers}
use casper_js_sdk.ByteConverters.{to_bytes_u8, number_to_bytes_u64}
use casper_js_sdk.Calltable.{Calltable, empty, add_field, to_bytes}

pub record PaymentLimitedMode : Type 0 where
  pub gas_price_tolerance : ℤ
  pub payment_amount : ℤ
  pub standard_payment : Bool

pub record FixedMode : Type 0 where
  pub gas_price_tolerance : ℤ
  pub additional_computation_factor : ℤ

-- `PrepaidMode` is its receipt, a hash. At most one of the modes is meant to be there.
pub record PricingMode : Type 0 where
  pub payment_limited : Option PaymentLimitedMode
  pub fixed : Option FixedMode
  pub prepaid : Option Bytes

module _ ⦃e : Ethers⦄ where
  -- `PaymentLimitedMode.toBytes`
  unfoldable pub payment_limited_to_bytes : PaymentLimitedMode → Result Bytes
  payment_limited_to_bytes mode = do
    tag ← to_bytes_u8 (pos 0)
    t ← add_field 0 tag empty
    amount ← number_to_bytes_u64 mode.payment_amount
    t' ← add_field 1 amount t
    tolerance ← to_bytes_u8 mode.gas_price_tolerance
    t'' ← add_field 2 tolerance t'
    t''' ← add_field 3 ((if mode.standard_payment then 1 else 0) ∷ []) t''
    to_bytes t'''

  -- `FixedMode.toBytes`
  unfoldable pub fixed_to_bytes : FixedMode → Result Bytes
  fixed_to_bytes mode = do
    tag ← to_bytes_u8 (pos 1)
    t ← add_field 0 tag empty
    tolerance ← to_bytes_u8 mode.gas_price_tolerance
    t' ← add_field 1 tolerance t
    factor ← to_bytes_u8 mode.additional_computation_factor
    t'' ← add_field 2 factor t'
    to_bytes t''

  -- `PrepaidMode.toBytes`
  unfoldable pub prepaid_to_bytes : Bytes → Result Bytes
  prepaid_to_bytes receipt = do
    tag ← to_bytes_u8 (pos 2)
    t ← add_field 0 tag empty
    t' ← add_field 1 receipt t
    to_bytes t'

  -- `PricingMode.toBytes`
  unfoldable pub pricing_mode_to_bytes : PricingMode → Result Bytes
  unfolding payment_limited_to_bytes fixed_to_bytes prepaid_to_bytes
  pricing_mode_to_bytes mode = elim mode.payment_limited [
    | some m ↦ payment_limited_to_bytes m
    | none ↦ elim mode.fixed [
      | some m ↦ fixed_to_bytes m
      | none ↦ elim mode.prepaid [
        | some receipt ↦ prepaid_to_bytes receipt
        | none ↦ err unable_to_serialize
      ]
    ]
  ]
