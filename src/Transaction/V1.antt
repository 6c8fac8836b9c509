-- ===== src/Transaction/V1.antt =====
-- The class `TransactionV1` of src/types/Transaction.ts, and the bytes of its approvals.
use casper_js_sdk.Prelude.{
  List, [], ◌∷◌, ◌++◌, length, Bool, not, if◌then◌else◌, none, some, Result, ok, err, ◌>>=◌,
  missing_key, invalid_transaction_hash,
}
use casper_js_sdk.Prelude.Int.{pos}
use casper_js_sdk.Prelude.Words.{Bytes}
use casper_js_sdk.Ethers.{Ethers}
use casper_js_sdk.ByteConverters.{to_bytes_u32}
use casper_js_sdk.Hex.{to_hex, decode_hex}
use casper_js_sdk.Hash.{new_hash}
use casper_js_sdk.Text.{Text}
use casper_js_sdk.ClValue.Keypair.{algorithm_code, PublicKey}
use casper_js_sdk.Calltable.{empty, add_field, to_bytes}
use casper_js_sdk.Deploy.{
  Crypto, PrivateKey, Approval, hash_equals, check_approvals, sign_and_add_algorithm_bytes,
}
use casper_js_sdk.Transaction.Payload.{Payload, payload_to_bytes}

pub record TransactionV1 : Type 0 where
  pub hash : Bytes
  pub payload : Payload
  pub approvals : List Approval

-- `PublicKey.toHex`, which starts with the digits 0 and the algorithm's code; the error is that of
-- a missing key.
unfoldable pub public_key_hex : PublicKey → Result Text
public_key_hex k = elim k.key [
  | none ↦ err missing_key
  | some key ↦ ok (to_hex (algorithm_code k.crypto_alg ∷ key))
]

-- `setSignature`
unfoldable pub set_signature : TransactionV1 → Bytes → PublicKey → TransactionV1
set_signature t signature public_key = record t {
  approvals = t.approvals ++ record { signer = public_key; signature = signature } ∷ [];
}

module _ ⦃e : Ethers⦄ where
  -- The part of `Approval.toBytes` for each approval: both texts are read as hexadecimal digits.
  unfoldable pub each_approval : List Approval → Result (List Bytes)
  each_approval [] = ok []
  each_approval (a ∷ approvals) = do
    signer ← public_key_hex a.signer
    parts ← each_approval approvals
    ok (e.concat (decode_hex signer ∷ decode_hex (to_hex a.signature) ∷ []) ∷ parts)

  -- `Approval.toBytes`
  unfoldable pub approvals_to_bytes : List Approval → Result Bytes
  approvals_to_bytes approvals = do
    len ← to_bytes_u32 (pos (length approvals))
    parts ← each_approval approvals
    ok (e.concat (len ∷ e.concat parts ∷ []))

  -- `sign`
  unfoldable pub sign_v1 : PrivateKey → TransactionV1 → TransactionV1
  unfolding set_signature
  sign_v1 keys t = set_signature t (sign_and_add_algorithm_bytes keys t.hash) keys.public_key

  -- `toBytes`
  unfoldable pub v1_to_bytes : TransactionV1 → Result Bytes
  v1_to_bytes t = do
    t0 ← add_field 0 t.hash empty
    payload ← payload_to_bytes t.payload
    t1 ← add_field 1 payload t0
    approvals ← approvals_to_bytes t.approvals
    t2 ← add_field 2 approvals t1
    to_bytes t2

  module _ (c : Crypto) where
    -- `makeTransactionV1`
    unfoldable pub make_transaction_v1 : Payload → Result TransactionV1
    make_transaction_v1 payload = do
      payload_bytes ← payload_to_bytes payload
      hash ← new_hash (c.byte_hash payload_bytes)
      ok (record { hash = hash; payload = payload; approvals = [] })

    -- `validate`
    unfoldable pub validate_v1 : TransactionV1 → Result Bool
    validate_v1 t = do
      payload_bytes ← payload_to_bytes t.payload
      calculated_hash ← new_hash (c.byte_hash payload_bytes)
      if not (hash_equals t.hash calculated_hash)
          then err invalid_transaction_hash
          else check_approvals c t.hash t.approvals
