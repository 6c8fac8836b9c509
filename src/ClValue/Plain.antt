-- ===== src/ClValue/Plain.antt =====
-- A value without the bytes that its large numbers were read from.
use casper_js_sdk.Prelude.{none}
use casper_js_sdk.Numeric.{BigUint}
use casper_js_sdk.ClValue.{
  ClValue, ClValues, Entries, nil, cons, end, entry, cl_u128, cl_u256, cl_u512, cl_some, cl_list,
  cl_result, cl_map, cl_tuple1, cl_tuple2, cl_tuple3,
}

abbrev pub plain_big : BigUint → BigUint
plain_big n = record { value = n.value; original_bytes = none }

unfoldable mutual
  pub plain : ClValue → ClValue
  plain (cl_u128 n) = cl_u128 (plain_big n)
  plain (cl_u256 n) = cl_u256 (plain_big n)
  plain (cl_u512 n) = cl_u512 (plain_big n)
  plain (cl_some t v) = cl_some t (plain v)
  plain (cl_list t vs) = cl_list t (plain_all vs)
  plain (cl_result t u success v) = cl_result t u success (plain v)
  plain (cl_map t u es) = cl_map t u (plain_entries es)
  plain (cl_tuple1 t v) = cl_tuple1 t (plain v)
  plain (cl_tuple2 t u v w) = cl_tuple2 t u (plain v) (plain w)
  plain (cl_tuple3 t u s v w x) = cl_tuple3 t u s (plain v) (plain w) (plain x)
  plain v = v

  pub plain_all : ClValues → ClValues
  plain_all nil = nil
  plain_all (cons v vs) = cons (plain v) (plain_all vs)

  pub plain_entries : Entries → Entries
  plain_entries end = end
  plain_entries (entry k v es) = entry (plain k) (plain v) (plain_entries es)
