-- ===== src/Deploy/Valid.antt =====
-- What a valid deploy is, and that a deploy that was made and signed is one.
use casper_js_sdk.Prelude.{
  ℕ, suc, ◌<◌, ◌≡◌, refl, ap, ◌∙◌, arith, List, [], ◌∷◌, length, drop, ltb, lt→ltb, ltb→lt,
  invalid_deploy_hash, ◌==◌, ==_iff, ==_refl, Bool, true, false, ◌||◌, not, if◌then◌else◌,
  Bool-cases, inl, inr, Option, none, some, Result, ok, err, ◌>>=◌, >>=-eq-ok, Result-cases,
  Option-cases,
}
use casper_js_sdk.Prelude.Words.{Bytes}
use casper_js_sdk.Ethers.{Ethers}
use casper_js_sdk.Ethers.Concat.{concat2}
use casper_js_sdk.Hash.{new_hash}
use casper_js_sdk.ClValue.Keypair.{algorithm_code, PublicKey}
use casper_js_sdk.Deploy.Item.{DeployItem}
use casper_js_sdk.Deploy.{
  Crypto, PrivateKey, Approval, DeployHeader, Deploy, hash_equals, has_hash, header_to_bytes,
  body_bytes, verify_signature, make_deploy, check_approvals, validate,
  sign_and_add_algorithm_bytes, sign_deploy,
}

pub hash_equals_refl : (hash : Bytes) → hash_equals hash hash ≡ true
unfolding hash_equals
hash_equals_refl [] = refl
hash_equals_refl (b ∷ hash) = rw (==_refl b, hash_equals_refl hash)

hash_equals→≡ : (ours theirs : Bytes) → hash_equals ours theirs ≡ true → ours ≡ theirs
unfolding hash_equals
hash_equals→≡ [] [] h = refl
hash_equals→≡ [] (b ∷ theirs) h = cc
hash_equals→≡ (b ∷ ours) [] h = cc
hash_equals→≡ (b ∷ ours) (b' ∷ theirs) h = elim (Bool-cases (b == b')) [
  | inl same ↦ rw ((==_iff b b').0 same, hash_equals→≡ ours theirs (rw (same) at h))
  | inr other ↦ absurd (cc (rw (other) at h))
]

module _ ⦃e : Ethers⦄ (c : Crypto) where
  pub calculated : (bytes : Bytes) → new_hash (c.byte_hash bytes) ≡ ok (c.byte_hash bytes)
  unfolding new_hash
  calculated bytes = rw (c.length-byte_hash bytes)

  -- A key that checks what its owner signs.
  pub record Signs (keys : PrivateKey) : Type 0 where
    pub key : Bytes
    pub is_key : keys.public_key.key ≡ some key
    pub not_empty : (message : Bytes) → 0 < length (keys.sign message)
    pub verified :
        (message : Bytes)
        → c.verify keys.public_key.crypto_alg key message (keys.sign message) ≡ true

  tagged_verified :
      (keys : PrivateKey) (tag : ℕ) (message : Bytes)
      → Signs keys
      → verify_signature c keys.public_key message (tag ∷ keys.sign message) ≡ ok true
  unfolding verify_signature
  tagged_verified keys tag message s =
      let long : ltb 1 (suc (length (keys.sign message))) ≡ true =
        lt→ltb _ _ (omega (arith, s.not_empty message)) in
      rw (long, s.is_key, s.verified message)

  pub signature_verified :
      (keys : PrivateKey) (message : Bytes)
      → Signs keys
      → verify_signature c keys.public_key message (sign_and_add_algorithm_bytes keys message)
        ≡ ok true
  unfolding sign_and_add_algorithm_bytes
  signature_verified keys message s =
      ap (λ t. verify_signature c keys.public_key message t)
        (concat2 (algorithm_code keys.alg ∷ []) (keys.sign message))
      ∙ tagged_verified keys (algorithm_code keys.alg) message s

  -- Deploy.validate accepts a deploy that Deploy.makeDeploy made and Deploy.sign signed, and
  -- throws only what makeDeploy throws, if the key of the signer verifies what the signer signed
  -- and no signature is empty.
  pub validate-sign_deploy :
      (keys : PrivateKey) (header : DeployHeader) (payment session : DeployItem)
      → Signs keys
      → (do d ← make_deploy c header payment session; validate c (sign_deploy keys d))
        ≡ (do d ← make_deploy c header payment session; ok true)
  unfolding make_deploy validate sign_deploy check_approvals
  validate-sign_deploy keys header payment session s =
      elim (Result-cases (body_bytes payment session)) [
        | inr (x, thrown) ↦ rw (thrown)
        | inl (body, run) ↦
            let header' = record header { body_hash = some (c.byte_hash body) } in
            elim (Result-cases (header_to_bytes header')) [
              | inr (x, thrown) ↦ rw (run, calculated body, thrown)
              | inl (bytes, written) ↦ rw (
                run,
                calculated body,
                written,
                calculated bytes,
                run,
                calculated body,
                written,
                calculated bytes,
                hash_equals_refl (c.byte_hash body),
                hash_equals_refl (c.byte_hash bytes),
                signature_verified keys (c.byte_hash bytes) s,
              )
            ]
      ]

  -- The approvals, each with a signature of the hash that its signer verifies.
  abbrev pub AllVerified : Bytes → List Approval → Type 0
  AllVerified hash [] = Unit
  AllVerified hash (a ∷ approvals) =
      (key : Bytes) × (a.signer.key ≡ some key)
      × (1 < length a.signature)
      × (c.verify a.signer.crypto_alg key hash (drop 1 a.signature) ≡ true)
      × AllVerified hash approvals

  -- The hashes of a deploy are those of its body and of its header.
  pub record Hashed (d : Deploy) : Type 0 where
    pub body : Bytes
    pub is_body : body_bytes d.payment d.session ≡ ok body
    pub header : Bytes
    pub is_header : header_to_bytes d.header ≡ ok header
    pub body_hash : d.header.body_hash ≡ some (c.byte_hash body)
    pub hash : d.hash ≡ c.byte_hash header

  has_hash-some :
      (hash : Option Bytes) (bytes : Bytes) → has_hash hash bytes ≡ true → hash ≡ some bytes
  has_hash-some none bytes h = cc
  has_hash-some (some hash) bytes h = ap (λ t. some t) (hash_equals→≡ hash bytes h)

  guarded :
      (p q : Bool) (r : Result Bool)
      → (if not p || not q then err invalid_deploy_hash else r) ≡ ok true
      → (p ≡ true) × (q ≡ true) × (r ≡ ok true)
  guarded true true r h = (refl, refl, h)
  guarded true false r h = cc
  guarded false q r h = cc

  verify_signature_sound :
      (k : PublicKey) (message signature : Bytes) (v : Bool)
      → verify_signature c k message signature ≡ ok v
      → (key : Bytes) × (k.key ≡ some key)
        × (1 < length signature)
        × (c.verify k.crypto_alg key message (drop 1 signature) ≡ true)
  unfolding verify_signature
  verify_signature_sound k message signature v h = elim (Bool-cases (ltb 1 (length signature))) [
    | inr short ↦ absurd (cc (rw (short) at h))
    | inl long ↦ elim (Option-cases k.key) [
      | inl missing ↦ absurd (cc (rw (long, missing) at h))
      | inr (key, is_key) ↦
          elim (Bool-cases (c.verify k.crypto_alg key message (drop 1 signature))) [
            | inr wrong ↦ absurd (cc (rw (long, is_key, wrong) at h))
            | inl right ↦ (key, is_key, ltb→lt 1 (length signature) long, right)
          ]
    ]
  ]

  check_approvals_sound :
      (hash : Bytes) (approvals : List Approval)
      → check_approvals c hash approvals ≡ ok true
      → AllVerified hash approvals
  unfolding check_approvals
  check_approvals_sound hash [] h = tt
  check_approvals_sound hash (a ∷ approvals) h =
      let (v, verified, rest) = >>=-eq-ok (verify_signature c a.signer hash a.signature) _ h in
      let (key, is_key, long, right) =
        verify_signature_sound a.signer hash a.signature v verified in
      (key, is_key, long, right, check_approvals_sound hash approvals rest)

  -- A deploy that Deploy.validate accepts has the hash of its header for its hash, its header has
  -- the hash of the payment and the session for its body hash, and each of its approvals holds a
  -- signature that is not empty and that its signer's key verifies for the hash of the deploy.
  pub validate_sound :
      (d : Deploy) → validate c d ≡ ok true → Hashed d × AllVerified d.hash d.approvals
  unfolding validate
  validate_sound d accepted =
      let (body, is_body, rest) = >>=-eq-ok (body_bytes d.payment d.session) _ accepted in
      let rest1 = rw (calculated body) at rest in
      let (header, is_header, rest2) = >>=-eq-ok (header_to_bytes d.header) _ rest1 in
      let rest3 = rw (calculated header) at rest2 in
      let (body_hash, hash, approved) =
        guarded (has_hash d.header.body_hash (c.byte_hash body))
          (hash_equals d.hash (c.byte_hash header)) _ rest3 in
      (
        record {
          body = body;
          is_body = is_body;
          header = header;
          is_header = is_header;
          body_hash = has_hash-some d.header.body_hash (c.byte_hash body) body_hash;
          hash = hash_equals→≡ d.hash (c.byte_hash header) hash;
        },
        check_approvals_sound d.hash d.approvals approved,
      )
