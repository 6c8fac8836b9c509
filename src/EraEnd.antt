-- ===== src/EraEnd.antt =====
-- src/types/EraEnd.ts: what the last block of an era says of it, in both versions.
pub mod Rewards
use casper_js_sdk.Prelude.{
  List, [], ◌∷◌, ◌++◌, Bool, true, false, ◌||◌, if◌then◌else◌, Option, none, some, Result, ok, err,
  ◌>>=◌,
}
use casper_js_sdk.Prelude.Int.{ℤ, pos}
use casper_js_sdk.Numeric.{BigUint}
use casper_js_sdk.Text.{Text}
use casper_js_sdk.Args.{text_eq}
use casper_js_sdk.ClValue.Keypair.{PublicKey}
use casper_js_sdk.Transaction.V1.{public_key_hex}

pub record EraReward : Type 0 where
  pub validator : PublicKey
  pub amount : BigUint

pub record ValidatorWeight : Type 0 where
  pub validator : PublicKey
  pub weight : BigUint

pub record EraReport : Type 0 where
  pub equivocators : List PublicKey
  pub inactive_validators : List PublicKey
  pub rewards : List EraReward

-- The map of rewards, in the order of insertion
abbrev pub RewardMap : Type 0
RewardMap = List (Text × List BigUint)

pub record EraEndV1 : Type 0 where
  pub era_report : EraReport
  pub next_era_validator_weights : List ValidatorWeight

pub record EraEndV2 : Type 0 where
  pub equivocators : List PublicKey
  pub inactive_validators : List PublicKey
  pub next_era_validator_weights : List ValidatorWeight
  pub rewards : RewardMap
  pub next_era_gas_price : ℤ

pub record EraEnd : Type 0 where
  pub equivocators : List PublicKey
  pub inactive_validators : List PublicKey
  pub next_era_validator_weights : List ValidatorWeight
  pub rewards : RewardMap
  pub next_era_gas_price : ℤ

-- `EraEnd.fromV2`
unfoldable pub from_v2 : Option EraEndV2 → Option EraEnd
from_v2 none = none
from_v2 (some e) = some (record {
  equivocators = e.equivocators;
  inactive_validators = e.inactive_validators;
  next_era_validator_weights = e.next_era_validator_weights;
  rewards = e.rewards;
  next_era_gas_price = e.next_era_gas_price;
})

-- `has`
unfoldable pub has_rewards : Text → RewardMap → Bool
has_rewards hex [] = false
has_rewards hex ((key, amounts) ∷ rewards) = text_eq key hex || has_rewards hex rewards

-- The empty list of rewards of a validator that has none
unfoldable pub with_rewards : Text → RewardMap → RewardMap
unfolding has_rewards
with_rewards hex rewards = if has_rewards hex rewards then rewards else rewards ++ (hex, []) ∷ []

-- `get(hex)?.push(amount)`
unfoldable pub push_reward : Text → BigUint → RewardMap → RewardMap
push_reward hex amount [] = []
push_reward hex amount ((key, amounts) ∷ rewards) =
    if text_eq key hex
    then (key, amounts ++ amount ∷ []) ∷ rewards
    else (key, amounts) ∷ push_reward hex amount rewards

-- The loop over the rewards of a report
unfoldable pub add_rewards : List EraReward → RewardMap → Result RewardMap
unfolding with_rewards push_reward
add_rewards [] rewards = ok rewards
add_rewards (r ∷ report) rewards = do
  validator_hex ← public_key_hex r.validator
  add_rewards report (push_reward validator_hex r.amount (with_rewards validator_hex rewards))

-- `EraEnd.fromV1`
unfoldable pub from_v1 : Option EraEndV1 → Result (Option EraEnd)
unfolding add_rewards
from_v1 none = ok none
from_v1 (some e) = do
  rewards ← add_rewards e.era_report.rewards []
  ok (
      some (record {
        equivocators = e.era_report.equivocators;
        inactive_validators = e.era_report.inactive_validators;
        next_era_validator_weights = e.next_era_validator_weights;
        rewards = rewards;
        next_era_gas_price = pos 1;
      }))
