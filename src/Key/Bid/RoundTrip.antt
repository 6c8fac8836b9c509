-- ===== src/Key/Bid/RoundTrip.antt =====
-- Which addresses of bids are read back, and what the readers of the others leave over.
use casper_js_sdk.Prelude.{
  ℕ, ◌^◌, ◌<◌, ◌≡◌, refl, ap, ◌∙◌, arith, ◌∷◌, ◌++◌, append_assoc, length, get_elem?, length-append,
  ltb, le→ltb, lt→ltb, some, ok, false,
}
use casper_js_sdk.Prelude.Int.{pos}
use casper_js_sdk.Prelude.Words.{Bytes, le_bytes}
use casper_js_sdk.Prelude.Codec.{RoundTrip}
use casper_js_sdk.Ethers.{Ethers}
use casper_js_sdk.Numeric.Fixed.{little_endian-le_bytes}
use casper_js_sdk.Hash.{hash_from_bytes-append}
use casper_js_sdk.Key.Bid.{
  BidAddrTag, unified_tag, validator_tag, delegated_account_tag, delegated_purse_tag, credit_tag,
  reserved_delegation_account_tag, unbond_account_tag, validator_rev_tag, BidAddr, bid_addr_tags,
  bid_addr_code, unified_bid, validator_bid, account_bid, purse_bid, credit_bid, one_hash,
  with_account, with_purse, era_id_bytes, with_era, with_validator, bid_to_bytes, parse_hash_pair,
  parse_hex_bytes_pair, read_credit, era_of, read_bid, bid_from_bytes,
}

bid_addr_tags-code : (t : BidAddrTag) → get_elem? bid_addr_tags (bid_addr_code t) ≡ some t
bid_addr_tags-code unified_tag = refl
bid_addr_tags-code _ = refl

long_enough :
    (t : ℕ) (hash rest : Bytes) → length hash ≡ 32 → ltb (length (t ∷ hash ++ rest)) 33 ≡ false
long_enough t hash rest l = le→ltb _ _ (omega (arith, length-append hash rest))

-- The addresses of one 32-byte hash, and those of a validator and a delegator's account.
pub data IsAccountBid : BidAddr → Type 0 where
  unified : (h : Bytes) → length h ≡ 32 → IsAccountBid (unified_bid h)
  validator : (h : Bytes) → length h ≡ 32 → IsAccountBid (validator_bid validator_tag h)
  validator_rev : (h : Bytes) → length h ≡ 32 → IsAccountBid (validator_bid validator_rev_tag h)
  delegated :
      (v d : Bytes)
      → length v ≡ 32
      → length d ≡ 32
      → IsAccountBid (account_bid delegated_account_tag v d)
  reserved :
      (v d : Bytes)
      → length v ≡ 32
      → length d ≡ 32
      → IsAccountBid (account_bid reserved_delegation_account_tag v d)
  unbond :
      (v d : Bytes)
      → length v ≡ 32
      → length d ≡ 32
      → IsAccountBid (account_bid unbond_account_tag v d)

module _ ⦃e : Ethers⦄ where
  -- The tag and the first hash: the branch of the tag reads what follows the tag.
  bid_from_bytes_lem :
      (t : BidAddrTag) (hash rest : Bytes)
      → length hash ≡ 32
      → bid_from_bytes (bid_addr_code t ∷ hash ++ rest) ≡ read_bid t (hash ++ rest)
  unfolding bid_from_bytes
  bid_from_bytes_lem t hash rest l =
      rw (long_enough (bid_addr_code t) hash rest l, bid_addr_tags-code t)

  parse_hash_pair-append :
      (v d rest : Bytes)
      → length v ≡ 32
      → length d ≡ 32
      → parse_hash_pair (v ++ (d ++ rest)) ≡ ok ((v, d), rest)
  unfolding parse_hash_pair
  parse_hash_pair-append v d rest l m =
      rw (hash_from_bytes-append v (d ++ rest) l, hash_from_bytes-append d rest m)

  -- A BidAddr of a 32-byte hash, or of a validator and a delegator's account of 32 bytes each, is
  -- written, and read back with what follows left over.
  pub bid_from_bytes-to_bytes :
      (a : BidAddr) (rest : Bytes) → IsAccountBid a → RoundTrip bid_to_bytes bid_from_bytes a rest
  unfolding bid_to_bytes one_hash with_account with_validator
  bid_from_bytes-to_bytes a rest (unified h l) =
      (0 ∷ h, refl, rw (bid_from_bytes_lem unified_tag h rest l, hash_from_bytes-append h rest l))
  bid_from_bytes-to_bytes a rest (validator h l) =
      (1 ∷ h, refl, rw (bid_from_bytes_lem validator_tag h rest l, hash_from_bytes-append h rest l))
  bid_from_bytes-to_bytes a rest (validator_rev h l) = (
    9 ∷ h,
    refl,
    rw (bid_from_bytes_lem validator_rev_tag h rest l, hash_from_bytes-append h rest l),
  )
  bid_from_bytes-to_bytes a rest (delegated v d l m) = (
    2 ∷ v ++ d,
    refl,
    rw (
      append_assoc v d rest,
      bid_from_bytes_lem delegated_account_tag v (d ++ rest) l,
      parse_hash_pair-append v d rest l m,
    ),
  )
  bid_from_bytes-to_bytes a rest (reserved v d l m) = (
    5 ∷ v ++ d,
    refl,
    rw (
      append_assoc v d rest,
      bid_from_bytes_lem reserved_delegation_account_tag v (d ++ rest) l,
      parse_hash_pair-append v d rest l m,
    ),
  )
  bid_from_bytes-to_bytes a rest (unbond v d l m) = (
    7 ∷ v ++ d,
    refl,
    rw (
      append_assoc v d rest,
      bid_from_bytes_lem unbond_account_tag v (d ++ rest) l,
      parse_hash_pair-append v d rest l m,
    ),
  )

  era_of-le_bytes : (n : ℕ) (rest : Bytes) → n < 2 ^ 53 → era_of (le_bytes 8 n ++ rest) ≡ ok (pos n)
  unfolding era_of le_bytes
  era_of-le_bytes n rest h =
      ap e.to_number (little_endian-le_bytes 8 n rest (omega arith) (omega arith))
      ∙ e.to_number-safe n h

  -- The address of a credit, of a 32-byte validator and an era that is not 0 and below 2 ^ 53, is
  -- written and read back, but the eight bytes of its era are left over too.
  pub bid_credit_leftover :
      (v rest : Bytes) (n : ℕ)
      → length v ≡ 32
      → 0 < n
      → n < 2 ^ 53
      → (bid_to_bytes (credit_bid v (pos n)) ≡ ok (4 ∷ v ++ le_bytes 8 n))
        × (bid_from_bytes (4 ∷ v ++ le_bytes 8 n ++ rest)
            ≡ ok (credit_bid v (pos n), le_bytes 8 n ++ rest))
  unfolding bid_to_bytes with_era era_id_bytes read_credit
  bid_credit_leftover v rest n l some_era fits =
      let small : n < 2 ^ 64 = omega arith in
      (
        rw (lt→ltb 0 n some_era, lt→ltb n (2 ^ 64) small),
        rw (
          append_assoc v (le_bytes 8 n) rest,
          bid_from_bytes_lem credit_tag v (le_bytes 8 n ++ rest) l,
          hash_from_bytes-append v (le_bytes 8 n ++ rest) l,
          era_of-le_bytes n rest fits,
        ),
      )

  -- The address of a purse, of a 32-byte validator and a purse that is not empty, takes all that
  -- follows the validator for the purse, and leaves all of that too.
  pub bid_purse_leftover :
      (v rest : Bytes) (b : ℕ) (purse : Bytes)
      → length v ≡ 32
      → (bid_to_bytes (purse_bid delegated_purse_tag v (b ∷ purse)) ≡ ok (3 ∷ v ++ b ∷ purse))
        × (bid_from_bytes (3 ∷ v ++ (b ∷ purse) ++ rest)
            ≡ ok (purse_bid delegated_purse_tag v (b ∷ purse ++ rest), b ∷ purse ++ rest))
  unfolding bid_to_bytes with_purse parse_hex_bytes_pair
  bid_purse_leftover v rest b purse l = (
    refl,
    rw (
      append_assoc v (b ∷ purse) rest,
      bid_from_bytes_lem delegated_purse_tag v (b ∷ purse ++ rest) l,
      hash_from_bytes-append v (b ∷ purse ++ rest) l,
    ),
  )
