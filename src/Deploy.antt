-- ===== src/Deploy.antt =====
-- src/types/Deploy.ts: deploys, made, signed and validated.
pub mod Item
pub mod Valid
pub mod Change
use casper_js_sdk.Prelude.{
  ℕ, ◌≡◌, List, [], ◌∷◌, ◌++◌, length, drop, ltb, ◌==◌, Bool, true, false, ◌&&◌, ◌||◌, not,
  if◌then◌else◌, Option, none, some, Result, ok, err, ◌>>=◌, type_error, invalid_date,
  invalid_deploy_hash, empty_signature, empty_public_key, invalid_signature,
}
use casper_js_sdk.Prelude.Int.{ℤ, pos}
use casper_js_sdk.Prelude.Words.{Bytes}
use casper_js_sdk.Ethers.{Ethers}
use casper_js_sdk.ByteConverters.{to_bytes_u32, number_to_bytes_u64}
use casper_js_sdk.Text.{Text, to_bytes_string}
use casper_js_sdk.Hash.{new_hash}
use casper_js_sdk.Transaction.Scheduling.{Timestamp, missing, invalid, at}
use casper_js_sdk.ClValue.Keypair.{KeyAlgorithm, algorithm_code, PublicKey, public_key_bytes}
use casper_js_sdk.Deploy.Item.{DeployItem, item_to_bytes}

-- The packages that hash and check signatures. `byte_hash` is `blake2b` of 32 bytes, and `verify`
-- is `verifySignature` of the class of an algorithm, of the bytes of a key.
pub record Crypto : Type 0 where
  pub byte_hash : Bytes → Bytes
  pub length-byte_hash : (bytes : Bytes) → length (byte_hash bytes) ≡ 32
  pub verify : KeyAlgorithm → Bytes → Bytes → Bytes → Bool

-- `sign` of the private key's own class is a field.
pub record PrivateKey : Type 0 where
  pub alg : KeyAlgorithm
  pub public_key : PublicKey
  pub sign : Bytes → Bytes

pub record Approval : Type 0 where
  pub signer : PublicKey
  pub signature : Bytes

pub record DeployHeader : Type 0 where
  pub account : Option PublicKey
  pub body_hash : Option Bytes
  pub chain_name : Text
  pub dependencies : List Bytes
  pub gas_price : ℤ
  pub timestamp : Timestamp
  pub ttl : ℤ

pub record Deploy : Type 0 where
  pub approvals : List Approval
  pub hash : Bytes
  pub header : DeployHeader
  pub payment : DeployItem
  pub session : DeployItem

-- `Hash.equals`: as many bytes, and the same
unfoldable pub hash_equals : Bytes → Bytes → Bool
hash_equals [] [] = true
hash_equals (b ∷ ours) (b' ∷ theirs) = b == b' && hash_equals ours theirs
hash_equals _ _ = false

-- `this.header.bodyHash?.equals(...)`, which an undefined hash does not satisfy
abbrev pub has_hash : Option Bytes → Bytes → Bool
has_hash none calculated = false
has_hash (some hash) calculated = hash_equals hash calculated

abbrev pub required {ℓ} : {A : Type ℓ} → Option A → Result A
required none = err type_error
required (some a) = ok a

-- `Date.parse(this.timestamp.toJSON())`
abbrev pub parsed_time : Timestamp → Result ℤ
parsed_time missing = err type_error
parsed_time invalid = err invalid_date
parsed_time (at milliseconds) = ok milliseconds

module _ ⦃e : Ethers⦄ where
  -- `DeployHeader.toBytes`
  unfoldable pub header_to_bytes : DeployHeader → Result Bytes
  header_to_bytes h = do
    count ← to_bytes_u32 (pos (length h.dependencies))
    account ← required h.account
    milliseconds ← parsed_time h.timestamp
    timestamp ← number_to_bytes_u64 milliseconds
    ttl ← number_to_bytes_u64 h.ttl
    gas_price ← number_to_bytes_u64 h.gas_price
    body_hash ← required h.body_hash
    chain_name ← to_bytes_string h.chain_name
    ok (
        e.concat (
          public_key_bytes account
          ∷ timestamp
          ∷ ttl
          ∷ gas_price
          ∷ body_hash
          ∷ e.concat (count ∷ h.dependencies)
          ∷ chain_name
          ∷ []))

  -- The payment and the session, one behind the other.
  unfoldable pub body_bytes : DeployItem → DeployItem → Result Bytes
  body_bytes payment session = do
    payment_bytes ← item_to_bytes payment
    session_bytes ← item_to_bytes session
    ok (e.concat (payment_bytes ∷ session_bytes ∷ []))

  module _ (c : Crypto) where
    -- `PublicKey.verifySignature`: the first byte of a signature is its algorithm.
    unfoldable pub verify_signature : PublicKey → Bytes → Bytes → Result Bool
    verify_signature key message signature =
        let checked : Result Bool = elim key.key [
          | none ↦ err empty_public_key
          | some k ↦
              if c.verify key.crypto_alg k message (drop 1 signature)
              then ok true
              else err invalid_signature
        ] in
        if not (ltb 1 (length signature)) then err empty_signature else checked

    -- `makeDeploy`. The header that it changes is that of the new deploy.
    unfoldable pub make_deploy : DeployHeader → DeployItem → DeployItem → Result Deploy
    make_deploy header payment session = do
      body ← body_bytes payment session
      body_hash ← new_hash (c.byte_hash body)
      let header' = record header { body_hash = some body_hash }
      header_bytes ← header_to_bytes header'
      hash ← new_hash (c.byte_hash header_bytes)
      ok (record {
        approvals = [];
        hash = hash;
        header = header';
        payment = payment;
        session = session;
      })

    -- The loop of `validate` over the approvals.
    unfoldable pub check_approvals : Bytes → List Approval → Result Bool
    check_approvals hash [] = ok true
    check_approvals hash (a ∷ approvals) =
        verify_signature a.signer hash a.signature >>= λ _. check_approvals hash approvals

    -- `validate`
    unfoldable pub validate : Deploy → Result Bool
    validate d = do
      body ← body_bytes d.payment d.session
      calculated_body_hash ← new_hash (c.byte_hash body)
      header_bytes ← header_to_bytes d.header
      calculated_hash ← new_hash (c.byte_hash header_bytes)
      if not (has_hash d.header.body_hash calculated_body_hash)
            || not (hash_equals d.hash calculated_hash)
          then err invalid_deploy_hash
          else check_approvals d.hash d.approvals

  -- `signAndAddAlgorithmBytes`
  unfoldable pub sign_and_add_algorithm_bytes : PrivateKey → Bytes → Bytes
  sign_and_add_algorithm_bytes keys message =
      e.concat ((algorithm_code keys.alg ∷ []) ∷ keys.sign message ∷ [])

  -- `sign`
  unfoldable pub sign_deploy : PrivateKey → Deploy → Deploy
  sign_deploy keys d = record d {
    approvals =
        d.approvals
        ++ record { signer = keys.public_key; signature = sign_and_add_algorithm_bytes keys d.hash }
          ∷ [];
  }
