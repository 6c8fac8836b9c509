-- ===== src/Examples/Types.antt =====
-- Runs of the code for types.
use casper_js_sdk.Prelude.{
  ◌≡◌, ◌≢◌, refl, arith, true, [], ◌∷◌, ◌++◌, ok, err, out_of_fuel, type_name_not_registered,
}
use casper_js_sdk.Prelude.Int.{pos}
use casper_js_sdk.Prelude.Words.{Bytes, le_value, le_bytes}
use casper_js_sdk.Ethers.Model.{ethers_model, digits}
use casper_js_sdk.ByteConverters.Numbers.{twos_complement}
use casper_js_sdk.ByteConverters.{to_bytes_number, number_to_bytes, out_of_bounds, number_layout}
use casper_js_sdk.Numeric.{u32_from_bytes}
use casper_js_sdk.ClType.{
  ClType, TypeId, SimpleType, simple, option, byte_array, map, dynamic, to_bytes,
}
use casper_js_sdk.ClType.Encoding.{WritesOrThrows, encodable, encoding, erase, to_bytes-encoding}
use casper_js_sdk.ClType.Parser.{
  to_cl_type_tag, find_type_id, match_tag, match_first, match_fuel, match_bytes_to_cl_type,
}
use casper_js_sdk.ClType.Parser.Complete.{match_bytes_to_cl_type-to_bytes}
use casper_js_sdk.ClType.Parser.Sound.{match_bytes_to_cl_type_sound}
use casper_js_sdk.ClType.Parser.Fuel.{match_bytes_to_cl_type-ne-out_of_fuel}
use casper_js_sdk.ClType.Json.{
  Json, to_json, from_interface, find_simple_type, get_simple_type_by_name,
}
use casper_js_sdk.ClType.Json.RoundTrip.{from_interface-to_json}

-- Map(String, Option(ByteArray(32))), its parts wrapped once
abbrev sample : ClType
sample = map (simple SimpleType.string) (dynamic TypeId.option (option (byte_array (pos 32))))

abbrev plain : ClType
plain = map (simple SimpleType.string) (option (byte_array (pos 32)))

abbrev sample_bytes : Bytes
sample_bytes = 17 ∷ 10 ∷ 13 ∷ 15 ∷ 32 ∷ 0 ∷ 0 ∷ 0 ∷ []

sample_written : to_bytes sample ≡ ok sample_bytes
unfolding to_bytes to_bytes_number number_to_bytes out_of_bounds number_layout digits
sample_written = refl

sample_read : match_bytes_to_cl_type (sample_bytes ++ 9 ∷ []) ≡ ok (plain, 9 ∷ [])
unfolding match_bytes_to_cl_type match_fuel match_first match_tag to_cl_type_tag find_type_id
    u32_from_bytes le_value
sample_read = refl

match_bytes_to_cl_type-to_bytes_example :
    match_bytes_to_cl_type (sample_bytes ++ 9 ∷ []) ≡ ok (erase sample, 9 ∷ [])
match_bytes_to_cl_type-to_bytes_example =
    match_bytes_to_cl_type-to_bytes sample sample_bytes (9 ∷ []) sample_written

match_bytes_to_cl_type_sound_example :
    (written : Bytes) × (to_bytes plain ≡ ok written)
    × (sample_bytes ++ 9 ∷ [] ≡ written ++ 9 ∷ [])
    × (erase plain ≡ plain)
match_bytes_to_cl_type_sound_example =
    match_bytes_to_cl_type_sound (sample_bytes ++ 9 ∷ []) (9 ∷ []) plain (omega arith) sample_read

match_bytes_to_cl_type-ne-out_of_fuel_example :
    (match_fuel 9 (13 ∷ 13 ∷ 13 ∷ []) ≢ err out_of_fuel)
    × (match_fuel 9 (13 ∷ 13 ∷ 13 ∷ []) ≡ match_bytes_to_cl_type (13 ∷ 13 ∷ 13 ∷ []))
match_bytes_to_cl_type-ne-out_of_fuel_example =
    match_bytes_to_cl_type-ne-out_of_fuel (13 ∷ 13 ∷ 13 ∷ []) 9 (omega arith) (omega arith)

to_bytes-encoding_example :
    WritesOrThrows (to_bytes (byte_array (pos 0xffffffff))) true (15 ∷ 255 ∷ 255 ∷ 255 ∷ 255 ∷ [])
unfolding encodable encoding twos_complement le_bytes
to_bytes-encoding_example = to_bytes-encoding (byte_array (pos 0xffffffff))

from_interface-to_json_example : from_interface (to_json sample) ≡ ok (erase sample)
from_interface-to_json_example = from_interface-to_json sample

unknown_name : from_interface (Json.str "u64") ≡ err type_name_not_registered
unfolding from_interface get_simple_type_by_name find_simple_type
unknown_name = refl
