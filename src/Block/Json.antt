-- ===== src/Block/Json.antt =====
-- src/types/Block.ts: the transactions of a block's body in JSON, both ways.
pub mod Lost
use casper_js_sdk.Prelude.{
  ℕ, ◌==◌, List, [], ◌∷◌, ◌++◌, Option, none, some, if◌then◌else◌, Result, ok, err, ◌>>=◌,
  undefined_transaction_hash,
}
use casper_js_sdk.Prelude.Words.{Bytes}
use casper_js_sdk.Text.{Text, codes}
use casper_js_sdk.Hex.{to_hex, hash_from_hex}
use casper_js_sdk.Args.{text_eq}
use casper_js_sdk.Transaction.EntryPoint.{truthy}
use casper_js_sdk.Transaction.Origin.{TransactionHash}
use casper_js_sdk.Block.{
  TransactionCategory, mint, auction, install_upgrade, large, medium, small, TransactionVersion, v1,
  deploy, BlockTransaction,
}

-- The members of an object whose values are texts, and the object of the body: the arrays of such
-- objects under the numbers of the categories.
abbrev pub HashJson : Type 0
HashJson = List (Text × Text)

abbrev pub BodyJson : Type 0
BodyJson = ℕ → Option (List HashJson)

-- The members of the enums.
abbrev pub category_number : TransactionCategory → ℕ
category_number mint = 0
category_number auction = 1
category_number install_upgrade = 2
category_number large = 3
category_number medium = 4
category_number small = 5

abbrev pub version_name : TransactionVersion → Text
version_name v1 = codes "V1"
version_name deploy = codes "Deploy"

-- `BlockTransaction.toJSON`, parsed again: the one key of the object, and its array
abbrev pub transaction_to_json : BlockTransaction → ℕ × List HashJson
transaction_to_json t =
    (category_number t.category, ((version_name t.version, to_hex t.hash) ∷ []) ∷ [])

-- `{ ...acc, ...json }`, for an object of one key
abbrev pub spread : BodyJson → ℕ × List HashJson → BodyJson
spread acc (key, hashes) = λ number. if key == number then some hashes else acc number

-- The serializer of `BlockBodyV2.transactions`, from an accumulator on
unfoldable pub spread_all : BodyJson → List BlockTransaction → BodyJson
spread_all acc [] = acc
spread_all acc (t ∷ transactions) = spread_all (spread acc (transaction_to_json t)) transactions

abbrev pub body_to_json : List BlockTransaction → BodyJson
body_to_json transactions = spread_all (λ number. none) transactions

unfoldable pub member : Text → HashJson → Option Text
member name [] = none
member name ((key, value) ∷ members) = if text_eq key name then some value else member name members

-- A hash of a class for typedjson: missing or empty texts are undefined.
unfoldable pub optional_hash : Option Text → Result (Option Bytes)
optional_hash given = elim (truthy given) [
  | none ↦ ok none
  | some text ↦ hash_from_hex text >>= (λ hash. ok (some hash))
]

-- What typedjson makes of an object by the members of `TransactionHash`
unfoldable pub parse_transaction_hash : HashJson → Result TransactionHash
unfolding optional_hash member
parse_transaction_hash json = do
  deploy_hash ← optional_hash (member (codes "Deploy") json)
  transaction_hash ← optional_hash (member (codes "Version1") json)
  ok (record { deploy = deploy_hash; transaction_v1 = transaction_hash })

-- The function of `getBlockTransactionsFromTransactionHashes`
unfoldable pub block_transaction : TransactionCategory → TransactionHash → Result BlockTransaction
block_transaction category hash = elim hash.transaction_v1 [
  | some bytes ↦ ok (record { category = category; version = v1; hash = bytes })
  | none ↦ elim hash.deploy [
    | some bytes ↦ ok (record { category = category; version = deploy; hash = bytes })
    | none ↦ err undefined_transaction_hash
  ]
]

unfoldable pub parse_hashes : List HashJson → Result (List TransactionHash)
unfolding parse_transaction_hash
parse_hashes [] = ok []
parse_hashes (json ∷ hashes) = do
  hash ← parse_transaction_hash json
  rest ← parse_hashes hashes
  ok (hash ∷ rest)

-- `getBlockTransactionsFromTransactionHashes`
unfoldable pub get_block_transactions :
    TransactionCategory → List TransactionHash → Result (List BlockTransaction)
unfolding block_transaction
get_block_transactions category [] = ok []
get_block_transactions category (hash ∷ hashes) = do
  transaction ← block_transaction category hash
  rest ← get_block_transactions category hashes
  ok (transaction ∷ rest)

-- `(data[number] || []).map(...)`
unfoldable pub parse_category : BodyJson → TransactionCategory → Result (List TransactionHash)
unfolding parse_hashes
parse_category json category = elim (json (category_number category)) [
  | none ↦ ok []
  | some hashes ↦ parse_hashes hashes
]

-- `BlockTransaction.fromJSON`
unfoldable pub transactions_from_json : BodyJson → Result (List BlockTransaction)
unfolding parse_category get_block_transactions
transactions_from_json json = do
  mint_hashes ← parse_category json mint
  auction_hashes ← parse_category json auction
  install_hashes ← parse_category json install_upgrade
  large_hashes ← parse_category json large
  medium_hashes ← parse_category json medium
  small_hashes ← parse_category json small
  mints ← get_block_transactions mint mint_hashes
  auctions ← get_block_transactions auction auction_hashes
  installs ← get_block_transactions install_upgrade install_hashes
  larges ← get_block_transactions large large_hashes
  mediums ← get_block_transactions medium medium_hashes
  smalls ← get_block_transactions small small_hashes
  ok (mints ++ auctions ++ installs ++ larges ++ mediums ++ smalls)
