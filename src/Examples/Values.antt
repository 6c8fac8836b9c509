-- ===== src/Examples/Values.antt =====
-- Runs of the number, string and table code.
use casper_js_sdk.Prelude.{
  ◌≡◌, refl, arith, ◌<◌, List, [], ◌∷◌, ◌++◌, length, true, if◌then◌else◌, some, ok, err,
  value_out_of_bounds,
}
use casper_js_sdk.Prelude.Int.{pos, negsuc}
use casper_js_sdk.Prelude.Words.{Bytes, le_bytes}
use casper_js_sdk.Ethers.Model.{ethers_model, digits}
use casper_js_sdk.ByteConverters.{
  out_of_bounds, number_layout, to_bytes_number, to_bytes_u8, to_bytes_u32, to_bytes_u64,
  to_bytes_i32, to_bytes_i64, to_bytes_u512,
}
use casper_js_sdk.ByteConverters.Numbers.{fits, twos_complement, to_bytes_number-le_bytes}
use casper_js_sdk.Numeric.{from_bytes_big_int_base}
use casper_js_sdk.Numeric.Big.{from_bytes_big_int_base-to_bytes}
use casper_js_sdk.Text.{utf8, utf8_char, utf16_length, Text, string_bytes, string_from_bytes}
use casper_js_sdk.Text.Utf8.{utf8_decoder}
use casper_js_sdk.Text.RoundTrip.{string_bytes_leftover}
use casper_js_sdk.Calltable.{add_field, get_field, to_bytes, from_bytes}
use casper_js_sdk.Calltable.Layout.{
  of_values, total, fields_of, header_bytes, payload, Fits, table_encoding,
}
use casper_js_sdk.Calltable.RoundTrip.{Built, start, added, from_bytes-to_bytes}

to_bytes_number-le_bytes_example : to_bytes_number 32 true (negsuc 1) ≡ (
    if fits 32 true (negsuc 1)
    then ok (le_bytes 4 (twos_complement 32 (negsuc 1)))
    else err value_out_of_bounds)
to_bytes_number-le_bytes_example = to_bytes_number-le_bytes 3 true (negsuc 1) (omega arith)

minus_two_bytes : to_bytes_i32 (negsuc 1) ≡ ok (254 ∷ 255 ∷ 255 ∷ 255 ∷ [])
unfolding to_bytes_number out_of_bounds number_layout digits
minus_two_bytes = refl

big_bytes : to_bytes_u512 (pos 300) ≡ ok (2 ∷ 44 ∷ 1 ∷ [])
unfolding to_bytes_number out_of_bounds number_layout digits
big_bytes = refl

u8_written : to_bytes_u8 (pos 7) ≡ ok (7 ∷ [])
unfolding to_bytes_number out_of_bounds number_layout digits
u8_written = refl

u32_written : to_bytes_u32 (pos 258) ≡ ok (2 ∷ 1 ∷ 0 ∷ 0 ∷ [])
unfolding to_bytes_number out_of_bounds number_layout digits
u32_written = refl

u64_written : to_bytes_u64 (pos 258) ≡ ok (2 ∷ 1 ∷ 0 ∷ 0 ∷ 0 ∷ 0 ∷ 0 ∷ 0 ∷ [])
unfolding to_bytes_number out_of_bounds number_layout digits
u64_written = refl

i64_written : to_bytes_i64 (negsuc 0) ≡ ok (255 ∷ 255 ∷ 255 ∷ 255 ∷ 255 ∷ 255 ∷ 255 ∷ 255 ∷ [])
unfolding to_bytes_number out_of_bounds number_layout digits
i64_written = refl

from_bytes_big_int_base-to_bytes_example :
    from_bytes_big_int_base (2 ∷ 44 ∷ 1 ∷ 9 ∷ []) 512
    ≡ ok (record { value = pos 300; original_bytes = some (2 ∷ 44 ∷ 1 ∷ 9 ∷ []) }, 9 ∷ [])
from_bytes_big_int_base-to_bytes_example =
    from_bytes_big_int_base-to_bytes 63 300 (2 ∷ 44 ∷ 1 ∷ []) (9 ∷ []) (omega arith) (omega arith)
      (omega arith) big_bytes

abbrev ab : Text
ab = 97 ∷ 98 ∷ []

-- "aéb"
abbrev accented : Text
accented = 97 ∷ 233 ∷ 98 ∷ []

string_bytes_leftover_example :
    (s : Text) × (left : Bytes) × (string_from_bytes utf8_decoder (string_bytes accented ++ [])
      ≡ ok (s, left))
    × (0 < length left)
string_bytes_leftover_example =
    string_bytes_leftover utf8_decoder (97 ∷ []) (98 ∷ []) 233 [] (omega arith)
      (unfold utf16_length in omega arith)

accented_bytes : string_bytes accented ≡ 3 ∷ 0 ∷ 0 ∷ 0 ∷ 97 ∷ 195 ∷ 169 ∷ 98 ∷ []
unfolding string_bytes utf8 utf8_char utf16_length le_bytes
accented_bytes = refl

-- A table with the fields [1, 2] and [3].
abbrev two_values : List Bytes
two_values = (1 ∷ 2 ∷ []) ∷ (3 ∷ []) ∷ []

two_values-Built : Built (of_values two_values) two_values
unfolding add_field of_values fields_of total
two_values-Built = added 1 (3 ∷ []) (added 0 (1 ∷ 2 ∷ []) start refl) refl

two_values-Fits : Fits two_values
unfolding total
two_values-Fits = record { count = omega arith; size = omega arith }

from_bytes-to_bytes_example :
    (bytes : Bytes) × (to_bytes (of_values two_values) ≡ ok bytes)
    × (from_bytes (bytes ++ 9 ∷ []) ≡ ok (of_values two_values))
    × (get_field 1 (of_values two_values) ≡ some (3 ∷ []))
from_bytes-to_bytes_example = from_bytes-to_bytes (9 ∷ []) 1 two_values-Built two_values-Fits

two_values_bytes :
    table_encoding two_values
    ≡ 2 ∷ 0 ∷ 0 ∷ 0 ∷ 0 ∷ 0 ∷ 0 ∷ 0 ∷ 0 ∷ 0 ∷ 1 ∷ 0 ∷ 2 ∷ 0 ∷ 0 ∷ 0 ∷ 3 ∷ 0 ∷ 0 ∷ 0 ∷ 1 ∷ 2 ∷ 3 ∷ []
unfolding table_encoding total header_bytes payload le_bytes
two_values_bytes = refl
