-- ===== src/ClValue/Parts.antt =====
-- How values of one kind are read back, given that their parts are.
use casper_js_sdk.Prelude.{
  ℕ, ◌≡◌, refl, ap, sym, ◌∙◌, [], ◌∷◌, ◌++◌, append_assoc, Bool, true, false, if◌then◌else◌, ok,
}
use text.Mathlib.Text.{◌==◌ as str_eq}
use casper_js_sdk.Prelude.Words.{Bytes}
use casper_js_sdk.Ethers.{Ethers}
use casper_js_sdk.Ethers.Concat.{concat2, concat3}
use casper_js_sdk.Numeric.{u8_from_bytes}
use casper_js_sdk.Text.{Decoder}
use casper_js_sdk.ClType.{
  ClType, SimpleType, simple_id, type_name, simple, option, result, tuple1, tuple2, tuple3, dynamic,
  get_name,
}
use casper_js_sdk.ClValue.Plain.{plain}
use casper_js_sdk.ClValue.Parser.{KeyTexts, from_bytes_by_type, new_result}
use casper_js_sdk.ClValue.Readable.{NeedsBytes}
use casper_js_sdk.ClValue.{
  ClValue, cl_none, cl_some, cl_result, cl_tuple1, cl_tuple2, cl_tuple3, get_type, value_bytes,
}

simple_name_same :
    (s : SimpleType) → str_eq (type_name (simple_id s)) (type_name (simple_id s)) ≡ true
simple_name_same SimpleType.bool = refl
simple_name_same _ = refl

-- A name is equal to itself.
name_same : (t : ClType) → str_eq (get_name t) (get_name t) ≡ true
unfolding get_name
name_same (simple s) = simple_name_same s
name_same (dynamic id t) = name_same t
name_same (option t) = refl
name_same _ = refl

pub get_type-plain : (v : ClValue) → get_type (plain v) ≡ get_type v
unfolding plain
get_type-plain (cl_none t) = refl
get_type-plain _ = refl

module _ ⦃e : Ethers⦄ (d : Decoder) (texts : KeyTexts) where
  -- A value of a type, the bytes that are written of it, and that they are read back, whatever
  -- follows, but for the original bytes of large numbers.
  abbrev pub IsRead : ClType → ClValue → Bytes → Type 0
  IsRead t v bytes =
      (rest : Bytes)
      → (v' : ClValue) × (from_bytes_by_type d texts t (bytes ++ rest) ≡ ok (v', rest))
        × (plain v' ≡ v)
        × (value_bytes v' ≡ ok bytes)

  pub record Reads (t : ClType) (v : ClValue) : Type 0 where
    pub bytes : Bytes
    pub written : value_bytes v ≡ ok bytes
    pub read : IsRead t v bytes

  pub some_Reads : (t : ClType) (v : ClValue) → Reads t v → Reads (option t) (cl_some t v)
  unfolding value_bytes from_bytes_by_type u8_from_bytes plain
  some_Reads t v r = record {
    bytes = 1 ∷ r.bytes;
    written = rw (r.written, concat2);
    read = λ rest.
        let (v', back, same, again) = r.read rest in
        (cl_some t v', rw (back), ap (cl_some t) same, rw (again, concat2));
  }

  pub tuple1_Reads : (t : ClType) (v : ClValue) → Reads t v → Reads (tuple1 t) (cl_tuple1 t v)
  unfolding value_bytes from_bytes_by_type plain
  tuple1_Reads t v r = record {
    bytes = r.bytes;
    written = r.written;
    read = λ rest.
        let (v', back, same, again) = r.read rest in
        (cl_tuple1 t v', rw (back), ap (cl_tuple1 t) same, again);
  }

  pub tuple2_Reads :
      (t u : ClType) (v w : ClValue)
      → Reads t v
      → Reads u w
      → Reads (tuple2 t u) (cl_tuple2 t u v w)
  unfolding value_bytes from_bytes_by_type plain
  tuple2_Reads t u v w r q = record {
    bytes = r.bytes ++ q.bytes;
    written = rw (r.written, q.written, concat2);
    read = λ rest.
        let (v', back, same, again) = r.read (q.bytes ++ rest) in
        let (w', back', same', again') = q.read rest in
        (
          cl_tuple2 t u v' w',
          rw (append_assoc r.bytes q.bytes rest, back, back'),
          rw (same, same'),
          rw (again, again', concat2),
        );
  }

  pub tuple3_Reads :
      (t u s : ClType) (v w x : ClValue)
      → Reads t v
      → Reads u w
      → Reads s x
      → Reads (tuple3 t u s) (cl_tuple3 t u s v w x)
  unfolding value_bytes from_bytes_by_type plain
  tuple3_Reads t u s v w x r q p = record {
    bytes = r.bytes ++ (q.bytes ++ p.bytes);
    written = rw (r.written, q.written, p.written, concat3);
    read = λ rest.
        let (v', back, same, again) = r.read (q.bytes ++ (p.bytes ++ rest)) in
        let (w', back', same', again') = q.read (p.bytes ++ rest) in
        let (x', back'', same'', again'') = p.read rest in
        (
          cl_tuple3 t u s v' w' x',
          rw (
            append_assoc r.bytes (q.bytes ++ p.bytes) rest,
            append_assoc q.bytes p.bytes rest,
            back,
            back',
            back'',
          ),
          rw (same, same', same''),
          rw (again, again', again'', concat3),
        );
  }

  -- What is read takes a byte at least, if the reader refuses to read none.
  pub nonempty :
      (t : ClType) (v : ClValue) (bytes : Bytes)
      → NeedsBytes d texts t
      → IsRead t v bytes
      → (b : ℕ) × (bs : Bytes) × (bytes ≡ b ∷ bs)
  nonempty t v [] (x, refused) read = let (v', back, same, again) = read [] in absurd (cc)
  nonempty t v (b ∷ bs) needs read = (b, bs, refl)

  pub result_Reads :
      (t u : ClType) (success : Bool) (v : ClValue)
      → get_type v ≡ (if success then t else u)
      → Reads (if success then t else u) v
      → Reads (result t u) (cl_result t u success v)
  unfolding value_bytes from_bytes_by_type u8_from_bytes new_result plain
  result_Reads t u true v typed r = record {
    bytes = 1 ∷ r.bytes;
    written = rw (r.written, concat2);
    read = λ rest.
        let (v', back, same, again) = r.read rest in
        let type_same : get_type v' ≡ t =
          sym (get_type-plain v') ∙ ap (λ w. get_type w) same ∙ typed in
        (
          cl_result t u true v',
          rw (back, new_result, type_same, name_same t),
          ap (cl_result t u true) same,
          rw (again, concat2),
        );
  }
  result_Reads t u false v typed r = record {
    bytes = 0 ∷ r.bytes;
    written = rw (r.written, concat2);
    read = λ rest.
        let (v', back, same, again) = r.read rest in
        let type_same : get_type v' ≡ u =
          sym (get_type-plain v') ∙ ap (λ w. get_type w) same ∙ typed in
        (
          cl_result t u false v',
          rw (back, new_result, type_same, name_same u),
          ap (cl_result t u false) same,
          rw (again, concat2),
        );
  }
