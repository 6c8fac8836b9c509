-- ===== src/Key/RoundTrip.antt =====
-- Keys that are written are read back, as far as they are.
use casper_js_sdk.Key.Kind.{
  KeyTypeId, key_type_ids, key_type_code, account_id, hash_id, uref_id, transfer_id, deploy_info_id,
  balance_id, bid_id, withdraw_id, dictionary_id, system_contract_registry_id, era_summary_id,
  unbond_id, checksum_registry_id, bid_addr_id, package_id, addressable_entity_id, message_id,
  named_key_id, balance_hold_id, entry_point_id, state_id,
}
use casper_js_sdk.Prelude.{
  ℕ, ◌<◌, ◌≡◌, refl, arith, [], ◌∷◌, ◌++◌, append-nil, length, replicate, get_elem?, length-append,
  length-replicate, take-append, drop-append, drop-append_add, get_elem?-append, gt→leb, ltb, leb,
  le→ltb, lt→ltb, Option, none, some, Result, ok, false, true,
}
use casper_js_sdk.Prelude.Words.{Bytes}
use casper_js_sdk.Prelude.Codec.{RoundTrip}
use casper_js_sdk.Ethers.{Ethers}
use casper_js_sdk.Ethers.Concat.{concat2}
use casper_js_sdk.Numeric.{Parsed}
use casper_js_sdk.Hash.{hash_from_bytes, hash_from_bytes-append}
use casper_js_sdk.Key.{
  Key, key_type, optional_bytes, field_from_bytes, concat_bytes, split_at, read_padding,
  read_chainspec, field_bytes, key_bytes, read_content, key_from_bytes, account_key, hash_key,
  uref_key, transfer_key, deploy_info_key, era_id_key, balance_key, bid_key, withdraw_key,
  dictionary_key, system_contract_registry_key, era_summary_key, unbond_key, chainspec_registry_key,
  checksum_registry_key, bid_addr_key, package_key, addressable_entity_key, byte_code_key,
  message_key, named_key_key, block_global_key, balance_hold_key, entry_point_key, state_key,
  rewards_handling_key,
}
use casper_js_sdk.Key.Reference.{URef, new_uref, uref_bytes, uref_from_bytes}
use casper_js_sdk.Key.Entity.{
  entity_to_bytes, message_to_bytes, named_key_to_bytes, entry_point_addr_to_bytes,
}
use casper_js_sdk.Key.Entity.RoundTrip.{
  entity_from_bytes-to_bytes, named_key_from_bytes-to_bytes, message_from_bytes-to_bytes,
  entry_point_addr_from_bytes-to_bytes,
}
use casper_js_sdk.Key.Addresses.{balance_hold_to_bytes}
use casper_js_sdk.Key.Addresses.RoundTrip.{balance_hold_from_bytes-to_bytes}
use casper_js_sdk.Key.Bid.{bid_to_bytes}
use casper_js_sdk.Key.Bid.RoundTrip.{bid_from_bytes-to_bytes}
use casper_js_sdk.Key.ReadBack.{IsHash, IsUref, Present, ReadBack}

key_type_ids-code : (t : KeyTypeId) → get_elem? key_type_ids (key_type_code t) ≡ some t
key_type_ids-code account_id = refl
key_type_ids-code _ = refl

hash_RoundTrip : (hash rest : Bytes) → IsHash hash → RoundTrip (λ h. ok h) hash_from_bytes hash rest
hash_RoundTrip hash rest h = (hash, refl, hash_from_bytes-append hash rest h)

module _ ⦃e : Ethers⦄ where
  uref_RoundTrip : (u : URef) → IsUref u → RoundTrip (λ u. ok (uref_bytes u)) uref_from_bytes u []
  unfolding uref_bytes uref_from_bytes new_uref
  uref_RoundTrip u (l, r) =
      let size : length (u.data_ ++ u.access ∷ []) ≡ 33 =
        omega (arith, length-append u.data_ (u.access ∷ [])) in
      (
        u.data_ ++ u.access ∷ [],
        rw (concat2),
        rw (
          append-nil,
          size,
          get_elem?-append u.data_ [] u.access 32 l,
          append-nil,
          take-append u.data_ (u.access ∷ []) 32 l,
          new_uref,
          l,
          lt→ltb u.access 8 r,
          drop-append_add u.data_ (u.access ∷ []) 32 1 l,
        ),
      )

  -- The first byte of the key is the type's number, the others are those of the field.
  field_RoundTrip {ℓ} :
      {A : Type ℓ} (key : Option A → Key) (t : KeyTypeId) (write : A → Result Bytes)
      (read : Bytes → Parsed A) (a : A) (rest : Bytes)
      → key_type (key (some a)) ≡ t
      → field_bytes (key (some a)) ≡ optional_bytes write (some a)
      → ((content : Bytes) → read_content t content ≡ field_from_bytes key (read content))
      → RoundTrip write read a rest
      → RoundTrip (key_bytes true) key_from_bytes (key (some a)) rest
  unfolding key_bytes key_from_bytes concat_bytes
  field_RoundTrip key t write read a rest same fields contents (bytes, written, back) = (
    key_type_code t ∷ bytes,
    rw (fields, written, same),
    rw (key_from_bytes, key_type_ids-code t, contents, back),
  )

  each_field_RoundTrip {ℓ} :
      {A : Type ℓ} (key : Option A → Key) (t : KeyTypeId) (write : A → Result Bytes)
      (read : Bytes → Parsed A) (P : A → Type 0) (field : Option A) (rest : Bytes)
      → ((a : A) → key_type (key (some a)) ≡ t)
      → ((a : A) → field_bytes (key (some a)) ≡ optional_bytes write (some a))
      → ((content : Bytes) → read_content t content ≡ field_from_bytes key (read content))
      → ((a : A) → P a → RoundTrip write read a rest)
      → Present P field
      → RoundTrip (key_bytes true) key_from_bytes (key field) rest
  each_field_RoundTrip key t write read P none rest same fields contents trip h = absurd h
  each_field_RoundTrip key t write read P (some a) rest same fields contents trip h =
      field_RoundTrip key t write read a rest (same a) (fields a) contents (trip a h)

  hash_key_RoundTrip :
      (key : Option Bytes → Key) (t : KeyTypeId) (field : Option Bytes) (rest : Bytes)
      → ((a : Bytes) → key_type (key (some a)) ≡ t)
      → ((a : Bytes) → field_bytes (key (some a)) ≡ ok (some a))
      → ((content : Bytes)
          → read_content t content ≡ field_from_bytes key (hash_from_bytes content))
      → Present IsHash field
      → RoundTrip (key_bytes true) key_from_bytes (key field) rest
  hash_key_RoundTrip key t field rest same fields contents =
      each_field_RoundTrip key t (λ h. ok h) hash_from_bytes IsHash field rest same fields contents
        (λ a h. hash_RoundTrip a rest h)

  padding_RoundTrip :
      (rest : Bytes) → RoundTrip (key_bytes true) key_from_bytes rewards_handling_key rest
  unfolding key_bytes key_from_bytes concat_bytes field_bytes read_content read_padding
  padding_RoundTrip rest = (
    25 ∷ replicate 32 0,
    refl,
    let long : ltb (length (replicate 32 0 ++ rest)) 32 ≡ false =
          le→ltb _ _
            (omega (arith, length-append (replicate 32 0) rest, length-replicate {A = ℕ} 32 0)) in
        rw (long, drop-append (replicate 32 0) rest 32 (length-replicate {A = ℕ} 32 0)),
  )

  chainspec_RoundTrip :
      (hash rest : Bytes)
      → IsHash hash
      → 0 < length rest
      → RoundTrip (key_bytes true) key_from_bytes (chainspec_registry_key (some hash)) rest
  unfolding key_bytes key_from_bytes concat_bytes field_bytes read_content read_chainspec split_at
  chainspec_RoundTrip hash rest l h = (
    13 ∷ hash,
    refl,
    let longer : leb (length (hash ++ rest)) 32 ≡ false =
          gt→leb _ _ (omega (arith, length-append hash rest)) in
        let read : hash_from_bytes hash ≡ ok (hash, []) =
          rw (append-nil) at (hash_from_bytes-append hash [] l) in
        rw (longer, take-append hash rest 32 l, read, drop-append hash rest 32 l),
  )

  -- A key that is well formed, as its type asks, is written, and Key.fromBytes takes it off the
  -- bytes and leaves what follows: the keys of 32-byte hashes, entities, named keys, entry points,
  -- balance holds and bids (but those of credits and purses) always; that of a message without an
  -- index if fewer than four bytes follow, that of a URef if none do, that of a chainspec registry
  -- if some do.
  pub key_from_bytes-key_bytes :
      (key : Key) (rest : Bytes)
      → ReadBack key rest
      → RoundTrip (key_bytes true) key_from_bytes key rest
  unfolding field_bytes read_content
  key_from_bytes-key_bytes (account_key field) rest h =
      hash_key_RoundTrip account_key account_id field rest (λ a. refl) (λ a. refl) (λ c. refl) h
  key_from_bytes-key_bytes (hash_key field) rest h =
      hash_key_RoundTrip hash_key hash_id field rest (λ a. refl) (λ a. refl) (λ c. refl) h
  key_from_bytes-key_bytes (uref_key field) rest (l, h) = rw (h) (
      each_field_RoundTrip uref_key uref_id (λ u. ok (uref_bytes u)) uref_from_bytes IsUref field []
        (λ a. refl) (λ a. refl) (λ c. refl) uref_RoundTrip l)
  key_from_bytes-key_bytes (transfer_key field) rest h =
      hash_key_RoundTrip transfer_key transfer_id field rest (λ a. refl) (λ a. refl) (λ c. refl) h
  key_from_bytes-key_bytes (deploy_info_key field) rest h =
      hash_key_RoundTrip deploy_info_key deploy_info_id field rest (λ a. refl) (λ a. refl)
        (λ c. refl) h
  key_from_bytes-key_bytes (era_id_key field) rest h = absurd h
  key_from_bytes-key_bytes (balance_key field) rest h =
      hash_key_RoundTrip balance_key balance_id field rest (λ a. refl) (λ a. refl) (λ c. refl) h
  key_from_bytes-key_bytes (bid_key field) rest h =
      hash_key_RoundTrip bid_key bid_id field rest (λ a. refl) (λ a. refl) (λ c. refl) h
  key_from_bytes-key_bytes (withdraw_key field) rest h =
      hash_key_RoundTrip withdraw_key withdraw_id field rest (λ a. refl) (λ a. refl) (λ c. refl) h
  key_from_bytes-key_bytes (dictionary_key field) rest h =
      hash_key_RoundTrip dictionary_key dictionary_id field rest (λ a. refl) (λ a. refl) (λ c. refl)
        h
  key_from_bytes-key_bytes (system_contract_registry_key field) rest h =
      hash_key_RoundTrip system_contract_registry_key system_contract_registry_id field rest
        (λ a. refl) (λ a. refl) (λ c. refl) h
  key_from_bytes-key_bytes (era_summary_key field) rest h =
      hash_key_RoundTrip era_summary_key era_summary_id field rest (λ a. refl) (λ a. refl)
        (λ c. refl) h
  key_from_bytes-key_bytes (unbond_key field) rest h =
      hash_key_RoundTrip unbond_key unbond_id field rest (λ a. refl) (λ a. refl) (λ c. refl) h
  key_from_bytes-key_bytes (chainspec_registry_key none) rest (l, h) = absurd l
  key_from_bytes-key_bytes (chainspec_registry_key (some a)) rest (l, h) =
      chainspec_RoundTrip a rest l h
  key_from_bytes-key_bytes (checksum_registry_key field) rest h =
      hash_key_RoundTrip checksum_registry_key checksum_registry_id field rest (λ a. refl)
        (λ a. refl) (λ c. refl) h
  key_from_bytes-key_bytes (bid_addr_key field) rest h =
      each_field_RoundTrip bid_addr_key bid_addr_id bid_to_bytes _ _ field rest (λ a. refl)
        (λ a. refl) (λ c. refl) (λ a h. bid_from_bytes-to_bytes a rest h) h
  key_from_bytes-key_bytes (package_key field) rest h =
      hash_key_RoundTrip package_key package_id field rest (λ a. refl) (λ a. refl) (λ c. refl) h
  key_from_bytes-key_bytes (addressable_entity_key field) rest h =
      each_field_RoundTrip addressable_entity_key addressable_entity_id entity_to_bytes _ _ field
        rest (λ a. refl) (λ a. refl) (λ c. refl) (λ a h. entity_from_bytes-to_bytes a rest h) h
  key_from_bytes-key_bytes (byte_code_key field) rest h = absurd h
  key_from_bytes-key_bytes (message_key field) rest h =
      each_field_RoundTrip message_key message_id message_to_bytes _ _ field rest (λ a. refl)
        (λ a. refl) (λ c. refl) (λ a (l, m, h). message_from_bytes-to_bytes a rest l m h) h
  key_from_bytes-key_bytes (named_key_key field) rest h =
      each_field_RoundTrip named_key_key named_key_id named_key_to_bytes _ _ field rest (λ a. refl)
        (λ a. refl) (λ c. refl) (λ a (l, h). named_key_from_bytes-to_bytes a rest l h) h
  key_from_bytes-key_bytes (block_global_key field) rest h = absurd h
  key_from_bytes-key_bytes (balance_hold_key field) rest h =
      each_field_RoundTrip balance_hold_key balance_hold_id balance_hold_to_bytes _ _ field rest
        (λ a. refl) (λ a. refl) (λ c. refl) (λ a h. balance_hold_from_bytes-to_bytes a rest h) h
  key_from_bytes-key_bytes (entry_point_key field) rest h =
      each_field_RoundTrip entry_point_key entry_point_id entry_point_addr_to_bytes _ _ field rest
        (λ a. refl) (λ a. refl) (λ c. refl) (λ a h. entry_point_addr_from_bytes-to_bytes a rest h) h
  key_from_bytes-key_bytes (state_key field) rest h =
      each_field_RoundTrip state_key state_id entity_to_bytes _ _ field rest (λ a. refl) (λ a. refl)
        (λ c. refl) (λ a h. entity_from_bytes-to_bytes a rest h) h
  key_from_bytes-key_bytes rewards_handling_key rest h = padding_RoundTrip rest
