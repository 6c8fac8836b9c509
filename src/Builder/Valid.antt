-- ===== src/Builder/Valid.antt =====
-- What is built, and signed, is valid.
use casper_js_sdk.Prelude.{◌≡◌, inl, inr, true, ok, ◌>>=◌, Result-cases}
use casper_js_sdk.Ethers.{Ethers}
use casper_js_sdk.Deploy.{Crypto, PrivateKey, make_deploy}
use casper_js_sdk.Deploy.Item.{DeployItem}
use casper_js_sdk.Deploy.Valid.{Signs, validate-sign_deploy}
use casper_js_sdk.Transaction.V1.{make_transaction_v1, sign_v1}
use casper_js_sdk.Transaction.Origin.{
  AmountTexts, new_transaction, from_transaction_v1, hash_to_bytes, get_hash, add_signature,
  sign_transaction, validate_transaction, from_deploy,
}
use casper_js_sdk.Transaction.Signed.{
  validate_v1-sign_v1, from_deploy-DeployOrigin, validate_transaction-DeployOrigin,
}
use casper_js_sdk.Builder.{Builder, build_payload, build, default_deploy_header, build_deploy}

module _ ⦃e : Ethers⦄ (c : Crypto) where
  -- Transaction.validate accepts what a builder's build() made and Transaction.sign signed, and
  -- throws only what build() throws, if the key of the signer verifies what the signer signed and
  -- no signature is empty.
  pub validate_transaction-build :
      (keys : PrivateKey) (b : Builder)
      → Signs c keys
      → (do t ← build c b; signed ← sign_transaction keys t; validate_transaction c signed)
        ≡ (do t ← build c b; ok true)
  unfolding build from_transaction_v1 new_transaction sign_transaction add_signature hash_to_bytes
      get_hash validate_transaction
  validate_transaction-build keys b s = elim (Result-cases (build_payload b)) [
    | inr (x, thrown) ↦ rw (thrown)
    | inl (p, made) ↦ elim (Result-cases (make_transaction_v1 c p)) [
      | inr (x, thrown) ↦ rw (made, thrown)
      | inl (v1, run) ↦
          rw (made, run) (unfold sign_v1 in (rw run at (validate_v1-sign_v1 c keys p s)))
    ]
  ]

  -- Transaction.validate accepts a transaction that was made from a deploy of a builder's header,
  -- as every buildFor1_5() makes it, and that Transaction.sign signed, whatever the payment and
  -- the session are, and throws only what the making throws, if the key of the signer verifies
  -- what the signer signed and no signature is empty.
  pub validate_transaction-build_deploy :
      (keys : PrivateKey) (texts : AmountTexts) (b : Builder) (payment session : DeployItem)
      → Signs c keys
      → (do
        t ← build_deploy c texts b payment session
        signed ← sign_transaction keys t
        validate_transaction c signed)
        ≡ (do t ← build_deploy c texts b payment session; ok true)
  unfolding build_deploy
  validate_transaction-build_deploy keys texts b payment session s =
      elim (Result-cases (default_deploy_header b)) [
        | inr (x, thrown) ↦ rw (thrown)
        | inl (header, made) ↦ elim (Result-cases (make_deploy c header payment session)) [
          | inr (x, thrown) ↦ rw (made, thrown)
          | inl (d, run) ↦
              let valid = rw run at (validate-sign_deploy c keys header payment session s) in
              elim (Result-cases (from_deploy texts d)) [
                | inr (x, thrown) ↦ rw (made, run, thrown)
                | inl (t, converted) ↦
                    rw (made, run, converted)
                      (validate_transaction-DeployOrigin c keys d t
                        (from_deploy-DeployOrigin texts d t converted) valid)
              ]
        ]
      ]
