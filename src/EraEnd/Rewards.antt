-- ===== src/EraEnd/Rewards.antt =====
-- What the map of rewards holds for a validator.
use casper_js_sdk.Prelude.{
  ◌≡◌, sym, inl, inr, refl, List, [], ◌∷◌, ◌++◌, append-nil, append_assoc, ◌∙◌, true, Bool-cases,
  if◌then◌else◌, some, ok,
}
use casper_js_sdk.Prelude.Int.{pos}
use casper_js_sdk.Numeric.{BigUint}
use casper_js_sdk.Text.{Text}
use casper_js_sdk.Args.{text_eq, text_eq_refl, text_eq-≡}
use casper_js_sdk.Transaction.V1.{public_key_hex}
use casper_js_sdk.EraEnd.{
  EraReward, EraEndV1, EraEnd, RewardMap, has_rewards, with_rewards, push_reward, add_rewards,
  from_v1,
}

-- The amounts that a map has for a validator
unfoldable pub amounts_in : Text → RewardMap → List BigUint
amounts_in hex [] = []
amounts_in hex ((key, amounts) ∷ rewards) =
    if text_eq key hex then amounts else amounts_in hex rewards

-- Each reward of a report, with the text of its validator's key
pub data Keyed : List EraReward → List (Text × BigUint) → Type 0 where
  none_left : Keyed [] []
  another :
      {report : List EraReward} {keyed : List (Text × BigUint)} (r : EraReward) (hex : Text)
      → public_key_hex r.validator ≡ ok hex
      → Keyed report keyed
      → Keyed (r ∷ report) ((hex, r.amount) ∷ keyed)

-- The amounts of a validator, in the order of the report
unfoldable pub paid : Text → List (Text × BigUint) → List BigUint
paid hex [] = []
paid hex ((key, amount) ∷ keyed) =
    let rest = paid hex keyed in if text_eq key hex then amount ∷ rest else rest

-- What a reward adds to the amounts of a validator
abbrev share : Text → Text → BigUint → List BigUint
share hex key amount = if text_eq key hex then amount ∷ [] else []

pushed :
    (hex k key : Text) (amount : BigUint) (amounts : List BigUint) (m : RewardMap)
    → k ≡ key
    → text_eq k key ≡ true
    → amounts_in hex (push_reward key amount ((k, amounts) ∷ m))
      ≡ amounts_in hex ((k, amounts) ∷ m) ++ share hex key amount
unfolding amounts_in push_reward
pushed hex k key amount amounts m same found = elim (Bool-cases (text_eq k hex)) [
  | inl this ↦ rw (found, this, sym same, this)
  | inr that ↦ rw (found, that, sym same, that, append-nil (amounts_in hex m))
]

amounts_in-push_reward :
    (hex key : Text) (amount : BigUint) (m : RewardMap)
    → has_rewards key m ≡ true
    → amounts_in hex (push_reward key amount m) ≡ amounts_in hex m ++ share hex key amount
unfolding amounts_in push_reward has_rewards
amounts_in-push_reward hex key amount [] there = absurd (cc)
amounts_in-push_reward hex key amount ((k, amounts) ∷ m) there = elim (Bool-cases (text_eq k key)) [
  | inl same ↦ pushed hex k key amount amounts m (text_eq-≡ k key same) same
  | inr other ↦ elim (Bool-cases (text_eq k hex)) [
    | inl this ↦ elim (Bool-cases (text_eq key hex)) [
      | inl named ↦
          let one : k ≡ hex = text_eq-≡ k hex this in
          let two : key ≡ hex = text_eq-≡ key hex named in
          let all : k ≡ key = cc in
          let found : text_eq k key ≡ true = rw (all) (text_eq_refl key) in absurd (cc)
      | inr apart ↦ rw (other, this, apart, append-nil amounts)
    ]
    | inr that ↦ rw (other, that) (amounts_in-push_reward hex key amount m (rw (other) at there))
  ]
]

has_rewards-append : (key : Text) (m : RewardMap) → has_rewards key (m ++ (key, []) ∷ []) ≡ true
unfolding has_rewards
has_rewards-append key [] = rw (text_eq_refl key)
has_rewards-append key ((k, amounts) ∷ m) = elim (Bool-cases (text_eq k key)) [
  | inl same ↦ rw (same)
  | inr other ↦ rw (other) (has_rewards-append key m)
]

amounts_in-append :
    (hex key : Text) (m : RewardMap) → amounts_in hex (m ++ (key, []) ∷ []) ≡ amounts_in hex m
unfolding amounts_in
amounts_in-append hex key [] = elim (Bool-cases (text_eq key hex)) [
  | inl this ↦ rw (this)
  | inr that ↦ rw (that)
]
amounts_in-append hex key ((k, amounts) ∷ m) = elim (Bool-cases (text_eq k hex)) [
  | inl this ↦ rw (this)
  | inr that ↦ rw (that) (amounts_in-append hex key m)
]

-- A round of the loop adds its amount to those of its validator.
round_amounts :
    (hex key : Text) (amount : BigUint) (m : RewardMap)
    → amounts_in hex (push_reward key amount (with_rewards key m))
      ≡ amounts_in hex m ++ share hex key amount
unfolding with_rewards
round_amounts hex key amount m = elim (Bool-cases (has_rewards key m)) [
  | inl there ↦ rw (there) (amounts_in-push_reward hex key amount m there)
  | inr new ↦ rw (
    new,
    amounts_in-push_reward hex key amount _ (has_rewards-append key m),
    amounts_in-append hex key m,
  )
]

add_rewards_lem :
    (report : List EraReward) (keyed : List (Text × BigUint)) (m : RewardMap)
    → Keyed report keyed
    → (result : RewardMap) × (add_rewards report m ≡ ok result)
      × ((hex : Text) → amounts_in hex result ≡ amounts_in hex m ++ paid hex keyed)
unfolding add_rewards paid
add_rewards_lem _ _ m none_left = (m, refl, λ hex. rw (append-nil (amounts_in hex m)))
add_rewards_lem _ _ m (another {report} {keyed} r key has_key rest) =
    let (result, made, amounts) =
      add_rewards_lem report keyed (push_reward key r.amount (with_rewards key m)) rest in
    (
      result,
      rw (has_key) made,
      λ hex. elim (Bool-cases (text_eq key hex)) [
        | inl this ↦
            amounts hex
            ∙ rw (round_amounts hex key r.amount m, this)
                (append_assoc (amounts_in hex m) (r.amount ∷ []) (paid hex keyed))
        | inr that ↦
            amounts hex
            ∙ rw (round_amounts hex key r.amount m, that, append-nil (amounts_in hex m)) refl
      ],
    )

-- EraEnd.fromV1 of an era whose rewards are for validators with keys: for each validator, the map
-- of rewards has the amounts of the report that are for it, in their order, and none for any
-- other.
pub from_v1_rewards :
    (e : EraEndV1) (keyed : List (Text × BigUint))
    → Keyed e.era_report.rewards keyed
    → (result : EraEnd) × (from_v1 (some e) ≡ ok (some result))
      × ((hex : Text) → amounts_in hex result.rewards ≡ paid hex keyed)
unfolding from_v1 amounts_in
from_v1_rewards e keyed k =
    let (m, made, amounts) = add_rewards_lem e.era_report.rewards keyed [] k in
    (
      record {
        equivocators = e.era_report.equivocators;
        inactive_validators = e.era_report.inactive_validators;
        next_era_validator_weights = e.next_era_validator_weights;
        rewards = m;
        next_era_gas_price = pos 1;
      },
      rw (made),
      amounts,
    )
