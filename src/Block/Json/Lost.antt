-- ===== src/Block/Json/Lost.antt =====
-- Which transactions of a block's body are read back from its JSON.
use casper_js_sdk.Prelude.{
  ◌==◌, ◌≡◌, refl, List, [], ◌∷◌, ◌++◌, length, Option, none, some, Bool-cases, inl, inr,
  if◌then◌else◌, ok, err, undefined_transaction_hash,
}
use casper_js_sdk.Prelude.Words.{Bytes, AllByte}
use casper_js_sdk.Text.{codes}
use casper_js_sdk.Hex.{to_hex, hash_from_hex-to_hex}
use casper_js_sdk.Args.{text_eq}
use casper_js_sdk.Transaction.EntryPoint.{truthy}
use casper_js_sdk.Transaction.Origin.{TransactionHash, from_deploy_hash}
use casper_js_sdk.Block.{
  TransactionCategory, mint, auction, install_upgrade, large, medium, small, v1, deploy,
  BlockTransaction, deploys_of,
}
use casper_js_sdk.Block.Json.{
  HashJson, BodyJson, category_number, spread_all, body_to_json, member, optional_hash,
  parse_transaction_hash, block_transaction, parse_hashes, get_block_transactions, parse_category,
  transactions_from_json,
}

abbrev pub IsHash : Bytes → Type 0
IsHash hash = AllByte hash × (length hash ≡ 32)

-- Only deploys, each with a hash of 32 bytes
abbrev pub AllDeploys : List BlockTransaction → Type 0
AllDeploys [] = Unit
AllDeploys (t ∷ transactions) = (t.version ≡ deploy) × IsHash t.hash × AllDeploys transactions

-- The hash of the last transaction of a category, behind what was there before.
unfoldable pub last_from : List Bytes → TransactionCategory → List BlockTransaction → List Bytes
last_from hashes category [] = hashes
last_from hashes category (t ∷ transactions) =
    last_from
      (if category_number t.category == category_number category then t.hash ∷ [] else hashes)
      category transactions

-- The last transaction of a category, if there is any
abbrev pub last_in : TransactionCategory → List BlockTransaction → List BlockTransaction
last_in category transactions = deploys_of category (last_from [] category transactions)

abbrev json_of : List Bytes → Option (List HashJson)
json_of [] = none
json_of (hash ∷ hashes) = some (((codes "Deploy", to_hex hash) ∷ []) ∷ [])

spread_all_lem :
    (category : TransactionCategory) (transactions : List BlockTransaction) (acc : BodyJson)
    (hashes : List Bytes)
    → AllDeploys transactions
    → acc (category_number category) ≡ json_of hashes
    → spread_all acc transactions (category_number category)
      ≡ json_of (last_from hashes category transactions)
unfolding spread_all last_from
spread_all_lem category [] acc hashes all before = before
spread_all_lem category (t ∷ transactions) acc hashes (is_deploy, is_hash, all) before =
    elim (Bool-cases (category_number t.category == category_number category)) [
      | inl same ↦
          rw (same)
            (spread_all_lem category transactions _ (t.hash ∷ []) all (rw (same, is_deploy) refl))
      | inr other ↦
          rw (other) (spread_all_lem category transactions _ hashes all (rw (other) before))
    ]

-- At most one hash, of 32 bytes
abbrev AtMostOne : List Bytes → Type 0
AtMostOne [] = Unit
AtMostOne (hash ∷ hashes) = IsHash hash × (hashes ≡ [])

last_from-AtMostOne :
    (category : TransactionCategory) (transactions : List BlockTransaction) (hashes : List Bytes)
    → AllDeploys transactions
    → AtMostOne hashes
    → AtMostOne (last_from hashes category transactions)
unfolding last_from
last_from-AtMostOne category [] hashes all one = one
last_from-AtMostOne category (t ∷ transactions) hashes (is_deploy, is_hash, all) one =
    elim (Bool-cases (category_number t.category == category_number category)) [
      | inl same ↦
          rw (same) (last_from-AtMostOne category transactions (t.hash ∷ []) all (is_hash, refl))
      | inr other ↦ rw (other) (last_from-AtMostOne category transactions hashes all one)
    ]

parse_transaction_hash_lem :
    (hash : Bytes)
    → IsHash hash
    → parse_transaction_hash ((codes "Deploy", to_hex hash) ∷ []) ≡ ok (from_deploy_hash hash)
unfolding parse_transaction_hash optional_hash member text_eq truthy to_hex
parse_transaction_hash_lem [] (all, size) = absurd (cc)
parse_transaction_hash_lem (b ∷ hash) (all, size) = rw (hash_from_hex-to_hex (b ∷ hash) all size)

-- The hashes that are parsed for a category, and the transactions that they are made into
record Recovered (json : BodyJson) (category : TransactionCategory) (found : List BlockTransaction)
    : Type 0 where
  hashes : List TransactionHash
  parsed : parse_category json category ≡ ok hashes
  made : get_block_transactions category hashes ≡ ok found

hashes_lem :
    (json : BodyJson) (category : TransactionCategory) (hashes : List Bytes)
    → json (category_number category) ≡ json_of hashes
    → AtMostOne hashes
    → Recovered json category (deploys_of category hashes)
unfolding parse_category parse_hashes get_block_transactions block_transaction
hashes_lem json category [] is one = record {
  hashes = [];
  parsed = rw (parse_category, is);
  made = refl;
}
hashes_lem json category (hash ∷ hashes) is (is_hash, only) = record {
  hashes = from_deploy_hash hash ∷ [];
  parsed = rw (parse_category, is, parse_transaction_hash_lem hash is_hash);
  made = rw (only);
}

category_lem :
    (category : TransactionCategory) (transactions : List BlockTransaction)
    → AllDeploys transactions
    → Recovered (body_to_json transactions) category (last_in category transactions)
category_lem category transactions all =
    hashes_lem (body_to_json transactions) category (last_from [] category transactions)
      (spread_all_lem category transactions (λ number. none) [] all refl)
      (last_from-AtMostOne category transactions [] all tt)

-- A body of deploys that is written as JSON is read back by BlockTransaction.fromJSON, but only
-- the last transaction of each category is: the categories come in their order, and every other
-- transaction is lost.
pub transactions_from_json-body_to_json :
    (transactions : List BlockTransaction)
    → AllDeploys transactions
    → transactions_from_json (body_to_json transactions)
      ≡ ok (
          last_in mint transactions
          ++ last_in auction transactions
          ++ last_in install_upgrade transactions
          ++ last_in large transactions
          ++ last_in medium transactions
          ++ last_in small transactions)
unfolding transactions_from_json
transactions_from_json-body_to_json ts all =
    let a = category_lem mint ts all in
    let b = category_lem auction ts all in
    let c = category_lem install_upgrade ts all in
    let d = category_lem large ts all in
    let e = category_lem medium ts all in
    let f = category_lem small ts all in
    rw (
      a.parsed, b.parsed, c.parsed, d.parsed, e.parsed, f.parsed, a.made, b.made, c.made, d.made,
      e.made, f.made,
    )

-- A body of one transaction of version 1 is never read back from its JSON: the version is written
-- under the name V1, and read under Version1.
pub transactions_from_json_rejects_v1 :
    (category : TransactionCategory) (hash : Bytes)
    → transactions_from_json
        (body_to_json (record { category = category; version = v1; hash = hash } ∷ []))
      ≡ err undefined_transaction_hash
unfolding transactions_from_json spread_all parse_category parse_hashes parse_transaction_hash
    optional_hash member text_eq truthy get_block_transactions block_transaction
transactions_from_json_rejects_v1 mint hash = refl
transactions_from_json_rejects_v1 auction hash = refl
transactions_from_json_rejects_v1 install_upgrade hash = refl
transactions_from_json_rejects_v1 large hash = refl
transactions_from_json_rejects_v1 medium hash = refl
transactions_from_json_rejects_v1 small hash = refl
