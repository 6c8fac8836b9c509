-- ===== src/ClValue/RoundTrip.antt =====
-- Values, written and read back.
use casper_js_sdk.Prelude.{◌≡◌, refl, ◌∙◌, arith, List, [], ◌∷◌, ◌++◌, false, if◌then◌else◌, ok}
use mathlib.Core.Path.{subst}
use casper_js_sdk.Prelude.Words.{Bytes}
use casper_js_sdk.Ethers.{Ethers}
use casper_js_sdk.Numeric.{big_uint_bytes}
use casper_js_sdk.Text.{Text, Decoder}
use casper_js_sdk.ClType.{ClType}
use casper_js_sdk.ClValue.Plain.{plain}
use casper_js_sdk.ClValue.Parser.{KeyTexts, is_dynamic, from_bytes_by_type, read_simple}
use casper_js_sdk.ClValue.Readable.{NeedsBytes, Readable, AllReadable, ReadableEntries}
use casper_js_sdk.ClValue.Parts.{
  Reads, some_Reads, tuple1_Reads, tuple2_Reads, tuple3_Reads, result_Reads,
}
use casper_js_sdk.ClValue.Lists.{ReadsAll, nil_ReadsAll, cons_ReadsAll, list_Reads}
use casper_js_sdk.ClValue.Maps.{ReadsEntries, end_ReadsEntries, entry_ReadsEntries, map_Reads}
use casper_js_sdk.ClValue.{
  ClValue, ClValues, Entries, nil, cons, end, entry, cl_bool, cl_i32, cl_i64, cl_u8, cl_u32, cl_u64,
  cl_u128, cl_u256, cl_u512, cl_unit, cl_string, cl_key, cl_uref, cl_any, cl_public_key,
  cl_byte_array, cl_none, cl_some, cl_list, cl_result, cl_map, cl_tuple1, cl_tuple2, cl_tuple3,
  cl_untyped, type_of, get_type, value_bytes,
}
use casper_js_sdk.ClValue.Leaves.{
  bool_Reads, none_Reads, byte_array_Reads, string_Reads, key_Reads, public_key_Reads, big_Reads,
  i32_Reads, i64_Reads, u8_Reads, u32_Reads, u64_Reads,
}

module _ ⦃e : Ethers⦄ (d : Decoder) (texts : KeyTexts) where
  -- A readable value has a type that is not dynamic.
  pub get_type-type_of : (v : ClValue) → Readable d texts v → get_type v ≡ type_of v
  unfolding Readable
  get_type-type_of (cl_untyped t) h = absurd h
  get_type-type_of (cl_bool b) h = refl
  get_type-type_of _ h = refl

  at_type :
      (t : ClType) (v : ClValue) → type_of v ≡ t → Reads d texts (type_of v) v → Reads d texts t v
  at_type t v typed r = subst (λ s. Reads d texts s v) typed r

  mutual
    unfolding Readable value_bytes from_bytes_by_type read_simple plain big_uint_bytes

    pub reads : (v : ClValue) → Readable d texts v → Reads d texts (type_of v) v
    reads (cl_bool b) h = bool_Reads d texts b
    reads (cl_i32 n) h = i32_Reads d texts n h
    reads (cl_i64 n) h = i64_Reads d texts n h
    reads (cl_u8 n) h = u8_Reads d texts n h
    reads (cl_u32 n) h = u32_Reads d texts n h
    reads (cl_u64 n) h = u64_Reads d texts n h
    reads (cl_u128 n) h =
        big_Reads d texts _ cl_u128 15 n (omega arith) (omega arith) h (λ m. refl) (λ m. refl)
          (λ bytes. refl)
    reads (cl_u256 n) h =
        big_Reads d texts _ cl_u256 31 n (omega arith) (omega arith) h (λ m. refl) (λ m. refl)
          (λ bytes. refl)
    reads (cl_u512 n) h =
        big_Reads d texts _ cl_u512 63 n (omega arith) (omega arith) h (λ m. refl) (λ m. refl)
          (λ bytes. refl)
    reads cl_unit h = absurd h
    reads (cl_string s) h = string_Reads d texts s h
    reads (cl_key k) h = key_Reads d texts k h
    reads (cl_uref u) h = absurd h
    reads (cl_any bytes) h = absurd h
    reads (cl_public_key k) h = public_key_Reads d texts k h
    reads (cl_byte_array n data_) h = byte_array_Reads d texts n data_ h
    reads (cl_none t) h = none_Reads d texts t
    reads (cl_some t v) (typed, h) = some_Reads d texts t v (at_type t v typed (reads v h))
    reads (cl_list t vs) (known, small, needs, h) =
        list_Reads d texts t vs known small (reads_all t vs needs h)
    reads (cl_result t u success v) (typed, h) =
        result_Reads d texts t u success v (get_type-type_of v h ∙ typed)
          (at_type (if success then t else u) v typed (reads v h))
    reads (cl_map t u es) (h, k, small, needs, l) =
        map_Reads d texts t u es small (reads_entries t u [] es h k needs l)
    reads (cl_tuple1 t v) (typed, h) = tuple1_Reads d texts t v (at_type t v typed (reads v h))
    reads (cl_tuple2 t u v w) (typed, h, typed', h') =
        tuple2_Reads d texts t u v w (at_type t v typed (reads v h))
          (at_type u w typed' (reads w h'))
    reads (cl_tuple3 t u s v w x) (typed, h, typed', h', typed'', h'') =
        tuple3_Reads d texts t u s v w x (at_type t v typed (reads v h))
          (at_type u w typed' (reads w h')) (at_type s x typed'' (reads x h''))
    reads (cl_untyped t) h = absurd h

    reads_all :
        (t : ClType) (vs : ClValues)
        → NeedsBytes d texts t
        → AllReadable d texts t vs
        → ReadsAll d texts t vs
    reads_all t nil needs h = nil_ReadsAll d texts t
    reads_all t (cons v vs) needs (typed, h, hs) =
        cons_ReadsAll d texts t v vs needs (at_type t v typed (reads v h)) (reads_all t vs needs hs)

    reads_entries :
        (t u : ClType) (index : List Text) (es : Entries)
        → is_dynamic t ≡ false
        → is_dynamic u ≡ false
        → NeedsBytes d texts t
        → ReadableEntries d texts t u index es
        → ReadsEntries d texts t u index es
    reads_entries t u index end h k needs l = end_ReadsEntries d texts t u index
    reads_entries t u index (entry key v es) h k needs
          (typed, hk, typed', hv, (text, shown, fresh, l)) =
        entry_ReadsEntries d texts t u index key v es text h k needs shown fresh
          (at_type t key typed (reads key hk)) (at_type u v typed' (reads v hv))
          (reads_entries t u (text ∷ index) es h k needs l)

  -- A readable value is a boolean; a number of at most 64 bits that its writer accepts; a number
  -- of type U128, U256 or U512 that fits its type and that was made, not read from bytes; an ASCII
  -- string of less than 2 ^ 32 characters; a key that any bytes may follow; a public key of the
  -- size of its algorithm; a byte array of the size of its type; or an option, list, result, map
  -- or tuple of such values, each of the type that the type of the whole names. A list or a map
  -- has fewer than 2 ^ 32 elements, which, or whose keys, are of a type that takes a byte at
  -- least; a list is not of the type Any, a map has no dynamic types and its keys have different
  -- texts. Such a value is written, and CLValueParser.fromBytesByType at its type takes the value
  -- off what was written and leaves what follows. What it returns differs only in the original
  -- bytes that its large numbers keep, and is written the same again.
  pub from_bytes_by_type-value_bytes :
      (v : ClValue) (rest : Bytes)
      → Readable d texts v
      → (bytes : Bytes) × (v' : ClValue) × (value_bytes v ≡ ok bytes)
        × (from_bytes_by_type d texts (type_of v) (bytes ++ rest) ≡ ok (v', rest))
        × (plain v' ≡ v)
        × (value_bytes v' ≡ ok bytes)
  from_bytes_by_type-value_bytes v rest h =
      let r = reads v h in
      let (v', back, same, again) = r.read rest in (r.bytes, v', r.written, back, same, again)
