-- ===== src/ClValue/Empty.antt =====
-- Lists of values that take no bytes.
use casper_js_sdk.Prelude.{
  ℕ, zero, suc, ◌^◌, ◌<◌, ◌≡◌, refl, arith, List, [], ◌∷◌, append-nil, false, ok,
}
use casper_js_sdk.Prelude.Words.{Bytes, le_bytes}
use casper_js_sdk.Ethers.{Ethers}
use casper_js_sdk.ByteConverters.Numbers.{to_bytes_u32-le_bytes}
use casper_js_sdk.Numeric.Fixed.{u32_from_bytes-le_bytes}
use casper_js_sdk.Numeric.{Parsed}
use casper_js_sdk.Text.{Decoder}
use casper_js_sdk.ClType.{ClType, list}
use casper_js_sdk.ClValue.{
  ClValue, ClValues, nil, cons, cl_list, is_any, size, list_bytes, value_bytes, values_bytes,
}
use casper_js_sdk.ClValue.Parser.{KeyTexts, read_elements, from_bytes_by_type}

read_elements_none :
    (read : Bytes → Parsed ClValue) (n : ℕ) → read_elements read n [] ≡ ok (nil, [])
unfolding read_elements
read_elements_none read zero = refl
read_elements_none read (suc n) = read_elements_none read n

module _ ⦃e : Ethers⦄ where
  abbrev pub AllEmpty : ClValues → Type 0
  AllEmpty nil = Unit
  AllEmpty (cons v vs) = (value_bytes v ≡ ok []) × AllEmpty vs

  no_bytes :
      (vs : ClValues)
      → AllEmpty vs
      → (parts : List Bytes) × (values_bytes vs ≡ ok parts) × (e.concat parts ≡ [])
  unfolding values_bytes
  no_bytes nil h = ([], refl, e.concat-nil)
  no_bytes (cons v vs) (h, hs) =
      let (parts, written, none) = no_bytes vs hs in
      ([] ∷ parts, rw (h, written), rw (e.concat-cons, none))

  -- A list whose elements all take no bytes, such as units, fewer than 2 ^ 32 of them and not of
  -- the type Any, is written as its size alone, and is read back as the empty list.
  pub list_of_empty_lost :
      (d : Decoder) (texts : KeyTexts) (t : ClType) (vs : ClValues)
      → is_any t ≡ false
      → size vs < 2 ^ 32
      → AllEmpty vs
      → (value_bytes (cl_list t vs) ≡ ok (le_bytes 4 (size vs)))
        × (from_bytes_by_type d texts (list t) (le_bytes 4 (size vs)) ≡ ok (cl_list t nil, []))
  unfolding value_bytes list_bytes from_bytes_by_type
  list_of_empty_lost d texts t vs known small h =
      let (parts, written, none) = no_bytes vs h in
      let counted = rw (append-nil) at (u32_from_bytes-le_bytes (size vs) [] (omega arith)) in
      (
        rw (
          written,
          list_bytes,
          known,
          to_bytes_u32-le_bytes (size vs) small,
          e.concat-cons,
          none,
          append-nil,
        ),
        rw (counted, known, read_elements_none (from_bytes_by_type d texts t) (size vs)),
      )
