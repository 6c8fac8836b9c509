-- ===== src/Examples/Blocks.antt =====
-- Runs of the blocks: the rewards of an era, and a body in JSON.
use casper_js_sdk.Prelude.{
  ℕ, ◌≡◌, refl, arith, List, [], ◌∷◌, replicate, none, some, ok, err, undefined_transaction_hash,
}
use casper_js_sdk.Prelude.Int.{pos}
use casper_js_sdk.Prelude.Words.{Bytes}
use casper_js_sdk.Numeric.{BigUint}
use casper_js_sdk.Text.{Text}
use casper_js_sdk.Hex.{to_hex}
use casper_js_sdk.ClValue.Keypair.{PublicKey, ed25519}
use casper_js_sdk.Transaction.V1.{public_key_hex}
use casper_js_sdk.EraEnd.{EraReward, EraEndV1, EraEnd, from_v1}
use casper_js_sdk.EraEnd.Rewards.{amounts_in, Keyed, none_left, another, paid, from_v1_rewards}
use casper_js_sdk.Block.{mint, auction, large, v1, deploy, BlockTransaction}
use casper_js_sdk.Block.Json.{body_to_json, transactions_from_json}
use casper_js_sdk.Block.Json.Lost.{
  AllDeploys, last_from, transactions_from_json-body_to_json, transactions_from_json_rejects_v1,
}

abbrev validator : ℕ → PublicKey
validator n = record { crypto_alg = ed25519; key = some (n ∷ []) }

abbrev reward : ℕ → ℕ → EraReward
reward n amount = record {
  validator = validator n;
  amount = record { value = pos amount; original_bytes = none };
}

abbrev era : EraEndV1
era = record {
  era_report = record {
    equivocators = [];
    inactive_validators = [];
    rewards = reward 1 10 ∷ reward 2 20 ∷ reward 1 30 ∷ [];
  };
  next_era_validator_weights = [];
}

abbrev keyed_reward : ℕ → ℕ → Text × BigUint
keyed_reward n amount = (to_hex (1 ∷ n ∷ []), record { value = pos amount; original_bytes = none })

era-Keyed :
    Keyed era.era_report.rewards (keyed_reward 1 10 ∷ keyed_reward 2 20 ∷ keyed_reward 1 30 ∷ [])
unfolding public_key_hex
era-Keyed = another (reward 1 10) (to_hex (1 ∷ 1 ∷ [])) refl (
    another (reward 2 20) (to_hex (1 ∷ 2 ∷ [])) refl
      (another (reward 1 30) (to_hex (1 ∷ 1 ∷ [])) refl none_left))

from_v1_rewards_example :
    (result : EraEnd) × (from_v1 (some era) ≡ ok (some result))
    × ((hex : Text)
        → amounts_in hex result.rewards
          ≡ paid hex (keyed_reward 1 10 ∷ keyed_reward 2 20 ∷ keyed_reward 1 30 ∷ []))
from_v1_rewards_example =
    from_v1_rewards era (keyed_reward 1 10 ∷ keyed_reward 2 20 ∷ keyed_reward 1 30 ∷ []) era-Keyed

abbrev hash_of : ℕ → Bytes
hash_of n = replicate 32 n

abbrev three_deploys : List BlockTransaction
three_deploys =
    record { category = large; version = deploy; hash = hash_of 7 }
    ∷ record { category = mint; version = deploy; hash = hash_of 8 }
    ∷ record { category = large; version = deploy; hash = hash_of 9 }
    ∷ []

three_deploys-AllDeploys : AllDeploys three_deploys
three_deploys-AllDeploys =
    (refl, (omega arith, refl), (refl, (omega arith, refl), (refl, (omega arith, refl), tt)))

transactions_from_json-body_to_json_example :
    transactions_from_json (body_to_json three_deploys)
    ≡ ok (
        record { category = mint; version = deploy; hash = hash_of 8 }
        ∷ record { category = large; version = deploy; hash = hash_of 9 }
        ∷ [])
unfolding last_from
transactions_from_json-body_to_json_example =
    transactions_from_json-body_to_json three_deploys three_deploys-AllDeploys

transactions_from_json_rejects_v1_example :
    transactions_from_json
      (body_to_json (record { category = auction; version = v1; hash = hash_of 7 } ∷ []))
    ≡ err undefined_transaction_hash
transactions_from_json_rejects_v1_example = transactions_from_json_rejects_v1 auction (hash_of 7)
