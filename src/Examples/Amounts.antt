-- ===== src/Examples/Amounts.antt =====
-- Runs of the amounts.
use casper_js_sdk.Prelude.{◌≡◌, refl, ok, ◌>>=◌}
use casper_js_sdk.Prelude.Int.{pos}
use casper_js_sdk.Text.{codes}
use casper_js_sdk.Conversions.{
  digits_from, all_zeros, matches_end, strip_end, integer_part, decimal_part, motes_to_cspr,
  cspr_to_motes,
}
use casper_js_sdk.Conversions.RoundTrip.{cspr_to_motes-motes_to_cspr}

twelve_motes : motes_to_cspr (pos 12) ≡ ok (codes "0.000000012")
unfolding digits_from all_zeros matches_end strip_end integer_part decimal_part motes_to_cspr
twelve_motes = refl

cspr_to_motes-motes_to_cspr_example : (motes_to_cspr (pos 12) >>= cspr_to_motes) ≡ ok 12
cspr_to_motes-motes_to_cspr_example = cspr_to_motes-motes_to_cspr 12
