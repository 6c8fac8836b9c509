-- ===== src/Prelude/Errors.antt =====
-- The outcome of code that may throw, with one constructor for each error that the source throws.
use mathlib.Core.Path.{◌≡◌, refl}
use mathlib.Core.Logic.{◌⊎◌, inl, inr}

pub data Error : Type 0 where
  -- ByteConverters.ts, and the length of a typed array
  value_out_of_bounds invalid_typed_array_length : Error
  invalid_u16_array invalid_u32_array invalid_u64_length : Error
  -- CalltableSerialization.ts
  wrong_field_order : Error
  -- the parsers of types
  buffer_constructor_not_detected : Error
  complex_type_format_invalid complex_type_format_not_detected : Error
  json_constructor_not_found type_name_not_registered : Error
  invalid_byte_array_json invalid_result_json invalid_map_json invalid_tuple_json : Error
  -- the parsers of values
  buffer_too_small early_end_of_stream byte_length_exceeds_size : Error
  empty_byte_array invalid_bool : Error
  -- the parts of a transaction
  unable_to_serialize invalid_tag_bytes unknown_tag missing_field invalid_custom_flag : Error
  missing_custom_entry_point unknown_entry_point invalid_json : Error
  -- a hash of the wrong length; `toNumber` over 53 bits; a property of `undefined` is read;
  -- the text of an invalid date; `BigNumber.from` of the empty text
  invalid_hash_length number_overflow type_error invalid_date invalid_number : Error
  -- the keys; `range_error` is what the runtime throws past the bounds of an array or a number
  missing_key_type invalid_uref_length unsupported_access_rights : Error
  empty_buffer invalid_entity_kind unexpected_entity_addr insufficient_name_bytes : Error
  invalid_byte_code_kind unexpected_byte_code invalid_block_global_tag : Error
  invalid_balance_hold invalid_balance_hold_tag : Error
  invalid_entry_point_tag unexpected_entry_point_addr : Error
  invalid_bid_addr invalid_bid_addr_tag missing_bid_field range_error : Error
  -- the values; `map_entry` is the error of a map's entry, whatever its cause
  invalid_public_key_algo unit_not_empty result_type_mismatch map_entry invalid_value_length : Error
  -- deploys and signatures
  invalid_deploy_hash empty_signature empty_public_key invalid_signature : Error
  invalid_string_length signed_deploy no_deploy_item missing_key : Error
  -- transactions and their builders
  invalid_transaction_hash missing_origin two_origins missing_payload_fields : Error
  payment_amount_not_specified target_not_specified initiator_not_specified : Error
  missing_contract_hash entry_point_not_specified : Error
  -- blocks
  missing_block undefined_transaction_hash : Error
  -- amounts
  invalid_cspr negative_motes : Error
  -- no error of the program: the model ran out of fuel
  out_of_fuel : Error

pub data Result {ℓ} (A : Type ℓ) : Type ℓ where
  err : Error → Result A
  ok : A → Result A

-- A throw skips the rest.
infixl 5 ◌>>=◌
abbrev pub ◌>>=◌ {ℓ ℓ'} : {A : Type ℓ} {B : Type ℓ'} → Result A → (A → Result B) → Result B
err x >>= k = err x
ok a >>= k = k a

-- The steps of code that returned.
pub >>=-eq-ok {ℓ ℓ'} :
    {A : Type ℓ} {B : Type ℓ'} (r : Result A) (k : A → Result B) {b : B}
    → (r >>= k) ≡ ok b
    → (a : A) × (r ≡ ok a) × (k a ≡ ok b)
>>=-eq-ok (err x) k returned = cc
>>=-eq-ok (ok a) k returned = (a, refl, returned)

pub Result-cases {ℓ} :
    {A : Type ℓ} (r : Result A) → ((a : A) × (r ≡ ok a)) ⊎ ((x : Error) × (r ≡ err x))
Result-cases (ok a) = inl (a, refl)
Result-cases (err x) = inr (x, refl)
