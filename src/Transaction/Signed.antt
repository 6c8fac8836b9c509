-- ===== src/Transaction/Signed.antt =====
-- What is made and signed is valid, whichever class of src/types/Transaction.ts it stands in.
use casper_js_sdk.Prelude.{◌≡◌, inl, inr, true, none, some, ok, ◌>>=◌, Result-cases, >>=-eq-ok}
use casper_js_sdk.Ethers.{Ethers}
use casper_js_sdk.Deploy.{Crypto, PrivateKey, Deploy, check_approvals, validate, sign_deploy}
use casper_js_sdk.Deploy.Change.{set_deploy_signature}
use casper_js_sdk.Deploy.Item.Arguments.{get_args}
use casper_js_sdk.Deploy.Valid.{hash_equals_refl, calculated, Signs, signature_verified}
use casper_js_sdk.Transaction.Payload.{Payload, payload_to_bytes}
use casper_js_sdk.Transaction.V1.{set_signature, make_transaction_v1, validate_v1, sign_v1}
use casper_js_sdk.Transaction.Origin.{
  Transaction, AmountTexts, new_transaction, from_deploy_hash, entry_point_of_session, from_deploy,
  hash_to_bytes, get_hash, add_signature, sign_transaction, validate_transaction,
}

-- A transaction that was made from a deploy.
pub record DeployOrigin (d : Deploy) (t : Transaction) : Type 0 where
  pub hash : t.hash ≡ from_deploy_hash d.hash
  pub no_v1 : t.origin_transaction_v1 ≡ none
  pub is_deploy : t.origin_deploy_v1 ≡ some d

pub from_deploy-DeployOrigin :
    (texts : AmountTexts) (d : Deploy) (t : Transaction)
    → from_deploy texts d ≡ ok t
    → DeployOrigin d t
unfolding from_deploy new_transaction
from_deploy-DeployOrigin texts d t converted =
    let (entry_point, _, rest) = >>=-eq-ok (entry_point_of_session d.session) _ converted in
    let (payment_args, _, rest1) = >>=-eq-ok (get_args d.payment) _ rest in
    let (session_args, _, made) = >>=-eq-ok (get_args d.session) _ rest1 in
    record { hash = cc; no_v1 = cc; is_deploy = cc }

module _ ⦃e : Ethers⦄ (c : Crypto) where
  -- TransactionV1.validate accepts a transaction that makeTransactionV1 made and TransactionV1.sign
  -- signed, and throws only what makeTransactionV1 throws, if the key of the signer verifies what the
  -- signer signed and no signature is empty.
  pub validate_v1-sign_v1 :
      (keys : PrivateKey) (p : Payload)
      → Signs c keys
      → (do t ← make_transaction_v1 c p; validate_v1 c (sign_v1 keys t))
        ≡ (do t ← make_transaction_v1 c p; ok true)
  unfolding make_transaction_v1 validate_v1 sign_v1 set_signature check_approvals
  validate_v1-sign_v1 keys p s = elim (Result-cases (payload_to_bytes p)) [
    | inr (x, thrown) ↦ rw (thrown)
    | inl (bytes, written) ↦ rw (
      written,
      calculated c bytes,
      written,
      calculated c bytes,
      hash_equals_refl (c.byte_hash bytes),
      signature_verified c keys (c.byte_hash bytes) s,
    )
  ]

  pub validate_transaction-DeployOrigin :
      (keys : PrivateKey) (d : Deploy) (t : Transaction)
      → DeployOrigin d t
      → validate c (sign_deploy keys d) ≡ ok true
      → (do signed ← sign_transaction keys t; validate_transaction c signed) ≡ ok true
  unfolding sign_transaction add_signature hash_to_bytes get_hash validate_transaction
      set_deploy_signature sign_deploy
  validate_transaction-DeployOrigin keys d t o valid = rw (o.no_v1, o.is_deploy, o.hash) valid
