-- ===== src/Examples/Composites.antt =====
-- Runs of the composite values.
use casper_js_sdk.Prelude.{
  ◌≡◌, refl, arith, [], ◌∷◌, ◌++◌, true, false, none, some, Result, ok, err, buffer_too_small,
  empty_byte_array, type_error, invalid_value_length,
}
use casper_js_sdk.Prelude.Int.{pos}
use casper_js_sdk.Prelude.Words.{Bytes, le_bytes}
use casper_js_sdk.Ethers.Model.{ethers_model}
use casper_js_sdk.ByteConverters.{to_bytes_u8}
use casper_js_sdk.ByteConverters.Numbers.{to_bytes_u8-le_bytes}
use casper_js_sdk.Numeric.{u8_from_bytes}
use casper_js_sdk.Text.{Text, codes}
use casper_js_sdk.Hex.{to_hex}
use casper_js_sdk.Key.{Key, account_key, hash_key}
use casper_js_sdk.ClValue.Texts.{to_string, value_texts}
use casper_js_sdk.Text.Utf8.{utf8_decoder}
use casper_js_sdk.ClType.{ClType, SimpleType, simple, list, option, map, get_type_id}
use casper_js_sdk.ClType.Encoding.{encodable, erase}
use casper_js_sdk.ClValue.{
  ClValue, ClValues, nil, cons, end, entry, cl_bool, cl_u8, cl_u512, cl_unit, cl_some, cl_list,
  cl_map, cl_tuple3, type_of, value_bytes, size, entry_count,
}
use casper_js_sdk.ClValue.Plain.{plain}
use casper_js_sdk.ClValue.Parser.{
  KeyTexts, has_text, bool_from_bytes, read_simple, from_bytes_by_type, from_bytes_with_type,
  to_bytes_with_type,
}
use casper_js_sdk.ClValue.Readable.{Accepted, NeedsBytes, Readable}
use casper_js_sdk.ClValue.RoundTrip.{from_bytes_by_type-value_bytes}
use casper_js_sdk.ClValue.WithType.{
  from_bytes_with_type-to_bytes_with_type, from_bytes_with_type_rejects_empty,
}
use casper_js_sdk.ClValue.Empty.{list_of_empty_lost}
use casper_js_sdk.Args.{text_eq}

-- The texts of keys, of which the account hashes and the hashes are enough here
abbrev pub key_text : Key → Result Text
key_text (account_key (some hash)) = ok (codes "account-hash-" ++ to_hex hash)
key_text (hash_key (some hash)) = ok (codes "hash-" ++ to_hex hash)
key_text _ = err type_error

abbrev pub sample_texts : KeyTexts
sample_texts = value_texts key_text (λ bytes. utf8_decoder.decode bytes)

abbrev bool_type : ClType
bool_type = simple SimpleType.bool

abbrev u8_type : ClType
u8_type = simple SimpleType.u8

abbrev u512_type : ClType
u512_type = simple SimpleType.u512

abbrev unit_type : ClType
unit_type = simple SimpleType.unit

-- [5, 6], some 7 and {true: 5, false: 6}, as a tuple
abbrev sample : ClValue
sample =
    cl_tuple3 (list u8_type) (option u512_type) (map bool_type u8_type)
      (cl_list u8_type (cons (cl_u8 (pos 5)) (cons (cl_u8 (pos 6)) nil)))
      (cl_some u512_type (cl_u512 (record { value = pos 7; original_bytes = none })))
      (cl_map bool_type u8_type
        (entry (cl_bool true) (cl_u8 (pos 5)) (entry (cl_bool false) (cl_u8 (pos 6)) end)))

pub u8_NeedsBytes : NeedsBytes utf8_decoder sample_texts u8_type
unfolding from_bytes_by_type read_simple u8_from_bytes
u8_NeedsBytes = (buffer_too_small, refl)

bool_NeedsBytes : NeedsBytes utf8_decoder sample_texts bool_type
unfolding from_bytes_by_type read_simple bool_from_bytes
bool_NeedsBytes = (empty_byte_array, refl)

sample-Readable : Readable utf8_decoder sample_texts sample
unfolding Readable size entry_count has_text text_eq get_type_id to_string
sample-Readable =
    let five : Accepted (to_bytes_u8 (pos 5)) =
      (le_bytes 1 5, to_bytes_u8-le_bytes 5 (omega arith)) in
    let six : Accepted (to_bytes_u8 (pos 6)) =
      (le_bytes 1 6, to_bytes_u8-le_bytes 6 (omega arith)) in
    (
      refl,
      (refl, omega arith, u8_NeedsBytes, (refl, five, (refl, six, tt))),
      refl,
      (refl, (7, omega arith, refl)),
      refl,
      (
        refl,
        refl,
        omega arith,
        bool_NeedsBytes,
        (
          refl,
          tt,
          refl,
          five,
          (codes "true", refl, refl, (refl, tt, refl, six, (codes "false", refl, refl, tt))),
        ),
      ),
    )

from_bytes_by_type-value_bytes_example :
    (bytes : Bytes) × (v' : ClValue) × (value_bytes sample ≡ ok bytes)
    × (from_bytes_by_type utf8_decoder sample_texts (type_of sample) (bytes ++ 9 ∷ [])
        ≡ ok (v', 9 ∷ []))
    × (plain v' ≡ sample)
    × (value_bytes v' ≡ ok bytes)
from_bytes_by_type-value_bytes_example =
    from_bytes_by_type-value_bytes utf8_decoder sample_texts sample (9 ∷ []) sample-Readable

from_bytes_with_type-to_bytes_with_type_example :
    (bytes : Bytes) × (v' : ClValue) × (to_bytes_with_type (cl_u8 (pos 5)) ≡ ok bytes)
    × (from_bytes_with_type utf8_decoder sample_texts (bytes ++ 9 ∷ []) ≡ ok (v', 9 ∷ []))
    × (plain v' ≡ cl_u8 (pos 5))
    × (to_bytes_with_type v' ≡ ok bytes)
from_bytes_with_type-to_bytes_with_type_example =
    from_bytes_with_type-to_bytes_with_type utf8_decoder sample_texts (cl_u8 (pos 5)) (le_bytes 1 5)
      (9 ∷ []) (unfold Readable in (le_bytes 1 5, to_bytes_u8-le_bytes 5 (omega arith)))
      u8_NeedsBytes (unfold encodable in refl) (unfold erase in refl)
      (unfold value_bytes in to_bytes_u8-le_bytes 5 (omega arith)) (unfold le_bytes in omega arith)

from_bytes_with_type_rejects_empty_example :
    (bytes : Bytes) × (to_bytes_with_type cl_unit ≡ ok bytes)
    × (from_bytes_with_type utf8_decoder sample_texts (bytes ++ 9 ∷ []) ≡ err invalid_value_length)
from_bytes_with_type_rejects_empty_example =
    from_bytes_with_type_rejects_empty utf8_decoder sample_texts cl_unit (9 ∷ [])
      (unfold value_bytes in refl) (unfold encodable in refl)

abbrev units : ClValues
units = cons cl_unit (cons cl_unit nil)

list_of_empty_lost_example :
    (value_bytes (cl_list unit_type units) ≡ ok (le_bytes 4 (size units)))
    × (from_bytes_by_type utf8_decoder sample_texts (list unit_type) (le_bytes 4 (size units))
        ≡ ok (cl_list unit_type nil, []))
list_of_empty_lost_example =
    list_of_empty_lost utf8_decoder sample_texts unit_type units (unfold get_type_id in refl)
      (unfold size in omega arith) (unfold value_bytes in (refl, (refl, tt)))
