-- ===== src/Builder/Transfer/Faults.antt =====
-- What the builder of a transfer makes of its options.
use casper_js_sdk.Prelude.{
  ℕ, ◌^◌, ◌-◌, ◌<◌, Option, ◌≡◌, inl, inr, none, some, err, Result-cases, Option-cases, Error,
  type_error,
}
use casper_js_sdk.Prelude.Int.{ℤ, pos}
use casper_js_sdk.Ethers.{Ethers}
use casper_js_sdk.ClValue.{ClValue}
use casper_js_sdk.Args.{Args}
use casper_js_sdk.Transaction.Origin.{AmountTexts}
use casper_js_sdk.Deploy.{Crypto}
use casper_js_sdk.Deploy.Item.Arguments.{new_transfer}
use casper_js_sdk.Builder.{default_deploy_header, build_deploy}
use casper_js_sdk.Builder.Transfer.{TransferBuilder, destination_of, build_transfer_for_1_5}

-- An id that is undefined, or a number that is an exact integer.
pub data IsId : Option ℤ → Type 0 where
  no_id : IsId none
  an_id : (n : ℕ) → n < 2 ^ 53 - 1 → IsId (some (pos n))

module _ ⦃e : Ethers⦄ (c : Crypto) where
  -- A transfer for version 1.5 without a payment is never built, though a default payment is
  -- chosen for it: the header of the deploy asks for the pricing mode that only a payment sets.
  pub build_transfer_for_1_5_needs_payment :
      (texts : AmountTexts) (b : TransferBuilder)
      → b.base.pricing_mode ≡ none
      → (x : Error) × (build_transfer_for_1_5 c texts b ≡ err x)
  unfolding build_transfer_for_1_5 build_deploy default_deploy_header
  build_transfer_for_1_5_needs_payment texts b unpaid =
      elim (Result-cases (new_transfer b.amount (destination_of b.public_key) none b.id_transfer)) [
        | inr (x, thrown) ↦ (x, rw (thrown))
        | inl (args, made) ↦ elim (Option-cases b.base.initiator_addr) [
          | inl unset ↦ (type_error, rw (made, unset))
          | inr (initiator, set) ↦ (type_error, rw (made, set, unpaid))
        ]
      ]
