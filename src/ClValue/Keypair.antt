-- ===== src/ClValue/Keypair.antt =====
-- src/types/keypair/PublicKey.ts: public keys as bytes, an algorithm and the bytes of a key. What the
-- algorithms do with a key is not modelled; the classes of both only keep its bytes.
use casper_js_sdk.Prelude.{
  ℕ, ◌≡◌, [], ◌∷◌, ◌++◌, length, drop, take, take-append, drop-append, ◌==◌, if◌then◌else◌, Option,
  none, some, ok, err, invalid_public_key_algo,
}
use casper_js_sdk.Prelude.Words.{Bytes}
use casper_js_sdk.Ethers.{Ethers}
use casper_js_sdk.Ethers.Concat.{concat2}
use casper_js_sdk.Numeric.{Parsed}

pub data KeyAlgorithm : Type 0 where
  ed25519 secp256k1 : KeyAlgorithm

abbrev pub algorithm_code : KeyAlgorithm → ℕ
algorithm_code ed25519 = 1
algorithm_code secp256k1 = 2

pub record PublicKey : Type 0 where
  pub crypto_alg : KeyAlgorithm
  pub key : Option Bytes

-- `toKeyAlgorithm`
unfoldable pub to_key_algorithm : ℕ → Option KeyAlgorithm
to_key_algorithm tag = if tag == 1 then some ed25519 else if tag == 2 then some secp256k1 else none

-- `expectedPublicKeySize`
abbrev pub expected_size : KeyAlgorithm → ℕ
expected_size ed25519 = 32
expected_size secp256k1 = 33

-- `fromBytes`
unfoldable pub public_key_from_bytes : Bytes → Parsed PublicKey
public_key_from_bytes [] = err invalid_public_key_algo
public_key_from_bytes (tag ∷ rest) = elim (to_key_algorithm tag) [
  | none ↦ err invalid_public_key_algo
  | some alg ↦ ok (
    record { crypto_alg = alg; key = some (take (expected_size alg) rest) },
    drop (expected_size alg) rest,
  )
]

module _ ⦃e : Ethers⦄ where
  -- `bytes`
  unfoldable pub public_key_bytes : PublicKey → Bytes
  public_key_bytes k = elim k.key [
    | none ↦ []
    | some key ↦ e.concat ((algorithm_code k.crypto_alg ∷ []) ∷ key ∷ [])
  ]

  -- PublicKey.fromBytes takes a key of 32 or 33 bytes, as the algorithm asks, off what
  -- PublicKey.bytes wrote, and leaves what follows.
  pub public_key_from_bytes-bytes :
      (alg : KeyAlgorithm) (key rest : Bytes)
      → length key ≡ expected_size alg
      → let k : PublicKey = record { crypto_alg = alg; key = some key } in
        public_key_from_bytes (public_key_bytes k ++ rest) ≡ ok (k, rest)
  unfolding public_key_bytes public_key_from_bytes to_key_algorithm
  public_key_from_bytes-bytes ed25519 key rest l =
      rw (concat2, take-append key rest 32 l, drop-append key rest 32 l)
  public_key_from_bytes-bytes secp256k1 key rest l =
      rw (concat2, take-append key rest 33 l, drop-append key rest 33 l)
