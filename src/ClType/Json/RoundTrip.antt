-- ===== src/ClType/Json/RoundTrip.antt =====
-- `fromInterface` reads back the JSON that `toJSON` wrote.
use casper_js_sdk.Prelude.{◌≡◌, refl, ok}
use casper_js_sdk.ClType.{
  ClType, SimpleType, type_name, simple_id, simple, option, list, byte_array, result, map, tuple1,
  tuple2, tuple3, dynamic,
}
use casper_js_sdk.ClType.Encoding.{erase}
use casper_js_sdk.ClType.Json.{to_json, get_simple_type_by_name, from_constructor, from_interface}

get_simple_type_by_name-type_name :
    (s : SimpleType) → get_simple_type_by_name (type_name (simple_id s)) ≡ ok (simple s)
unfolding get_simple_type_by_name
get_simple_type_by_name-type_name SimpleType.bool = refl
get_simple_type_by_name-type_name _ = refl

-- fromInterface reads every type back from the JSON that toJSON made of it, without its
-- CLTypeDynamic wrappers.
pub from_interface-to_json : (t : ClType) → from_interface (to_json t) ≡ ok (erase t)
unfolding from_interface to_json erase from_constructor
from_interface-to_json (simple s) = get_simple_type_by_name-type_name s
from_interface-to_json (option t) = rw (from_interface-to_json t)
from_interface-to_json (list t) = rw (from_interface-to_json t)
from_interface-to_json (byte_array n) = refl
from_interface-to_json (result t u) = rw (from_interface-to_json t, from_interface-to_json u)
from_interface-to_json (map t u) = rw (from_interface-to_json t, from_interface-to_json u)
from_interface-to_json (tuple1 t) = rw (from_interface-to_json t)
from_interface-to_json (tuple2 t u) = rw (from_interface-to_json t, from_interface-to_json u)
from_interface-to_json (tuple3 t u v) =
    rw (from_interface-to_json t, from_interface-to_json u, from_interface-to_json v)
from_interface-to_json (dynamic id t) = from_interface-to_json t
