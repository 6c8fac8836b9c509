-- ===== src/Examples/Pricing.antt =====
-- Runs of the pricing modes.
use casper_js_sdk.Prelude.{replicate, true, some, none}
use casper_js_sdk.Prelude.Int.{pos}
use casper_js_sdk.Ethers.Model.{ethers_model}
use casper_js_sdk.Transaction.PricingMode.{PricingMode}

abbrev limited : PricingMode
limited = record {
  payment_limited = some (record {
    gas_price_tolerance = pos 1;
    payment_amount = pos 2500000000;
    standard_payment = true;
  });
  fixed = none;
  prepaid = none;
}

abbrev fixed : PricingMode
fixed = record {
  payment_limited = none;
  fixed = some (record { gas_price_tolerance = pos 5; additional_computation_factor = pos 0 });
  prepaid = none;
}

abbrev prepaid : PricingMode
prepaid = record { payment_limited = none; fixed = none; prepaid = some (replicate 32 7) }
