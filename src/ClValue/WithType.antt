-- ===== src/ClValue/WithType.antt =====
-- Values with their types behind them, as the arguments of a transaction are written.
use casper_js_sdk.Prelude.{
  ℕ, ◌^◌, ◌<◌, ◌≡◌, refl, ap, sym, ◌∙◌, arith, [], ◌∷◌, ◌++◌, append_assoc, append-nil, length,
  take-append, drop-append, true, ok, err, invalid_value_length,
}
use casper_js_sdk.Prelude.Int.{pos}
use casper_js_sdk.Prelude.Words.{Bytes, le_bytes}
use casper_js_sdk.Ethers.{Ethers}
use casper_js_sdk.Ethers.Concat.{concat2}
use casper_js_sdk.ByteConverters.{to_bytes_array_u8}
use casper_js_sdk.ByteConverters.Numbers.{to_bytes_u32-le_bytes}
use casper_js_sdk.Numeric.{u32_from_bytes}
use casper_js_sdk.Numeric.Fixed.{u32_from_bytes-le_bytes}
use casper_js_sdk.Text.{Decoder}
use casper_js_sdk.ClType.{ClType, to_bytes}
use casper_js_sdk.ClType.Encoding.{encodable, encoding, erase, encodable_writes}
use casper_js_sdk.ClType.Parser.{match_bytes_to_cl_type}
use casper_js_sdk.ClType.Parser.Complete.{match_bytes_to_cl_type-to_bytes}
use casper_js_sdk.ClValue.Plain.{plain}
use casper_js_sdk.ClValue.Parser.{
  KeyTexts, from_bytes_by_type, from_bytes_with_type, to_bytes_with_type,
}
use casper_js_sdk.ClValue.Readable.{NeedsBytes, Readable}
use casper_js_sdk.ClValue.Parts.{nonempty, get_type-plain}
use casper_js_sdk.ClValue.RoundTrip.{reads, get_type-type_of}
use casper_js_sdk.ClValue.{ClValue, type_of, get_type, value_bytes}

module _ ⦃e : Ethers⦄ where
  -- A value's bytes with their count in front, and the bytes of a type.
  abbrev pub with_type : Bytes → ClType → Bytes
  with_type bytes t = le_bytes 4 (length bytes) ++ bytes ++ encoding t

  pub to_bytes_with_type_lem :
      (v : ClValue) (bytes : Bytes)
      → value_bytes v ≡ ok bytes
      → length bytes < 2 ^ 32
      → encodable (get_type v) ≡ true
      → to_bytes_with_type v ≡ ok (with_type bytes (get_type v))
  unfolding to_bytes_with_type to_bytes_array_u8
  to_bytes_with_type_lem v bytes written small known = rw (
    encodable_writes (get_type v) known,
    written,
    to_bytes_u32-le_bytes (length bytes) small,
    concat2,
    concat2,
  )

  -- CLValueParser.toBytesWithType writes a value of no bytes, as a unit is, whose type has sizes
  -- that fit 32 bits, but CLValueParser.fromBytesWithType refuses what was written.
  pub from_bytes_with_type_rejects_empty :
      (d : Decoder) (texts : KeyTexts) (v : ClValue) (rest : Bytes)
      → value_bytes v ≡ ok []
      → encodable (get_type v) ≡ true
      → (bytes : Bytes) × (to_bytes_with_type v ≡ ok bytes)
        × (from_bytes_with_type d texts (bytes ++ rest) ≡ err invalid_value_length)
  unfolding from_bytes_with_type
  from_bytes_with_type_rejects_empty d texts v rest written known = (
    with_type [] (get_type v),
    to_bytes_with_type_lem v [] written (omega arith) known,
    rw (
      append-nil,
      append_assoc (le_bytes 4 0) (encoding (get_type v)) rest,
      u32_from_bytes-le_bytes 0 (encoding (get_type v) ++ rest) (omega arith),
    ),
  )

  -- What follows the count of a value's bytes: the value, then its type, then the rest.
  split_with_type :
      (bytes : Bytes) (t : ClType) (rest : Bytes)
      → length bytes < 2 ^ 32
      → u32_from_bytes (with_type bytes t ++ rest)
        ≡ ok (pos (length bytes), bytes ++ (encoding t ++ rest))
  split_with_type bytes t rest small = rw (
    append_assoc (le_bytes 4 (length bytes) ++ bytes) (encoding t) rest,
    append_assoc (le_bytes 4 (length bytes)) bytes (encoding t ++ rest),
    u32_from_bytes-le_bytes (length bytes) (bytes ++ (encoding t ++ rest)) (omega arith),
  )

  read_type :
      (t : ClType) (rest : Bytes)
      → encodable t ≡ true
      → erase t ≡ t
      → match_bytes_to_cl_type (encoding t ++ rest) ≡ ok (t, rest)
  read_type t rest known static =
      let written : to_bytes t ≡ ok (encoding t) = encodable_writes t known in
      match_bytes_to_cl_type-to_bytes t (encoding t) rest written ∙ rw (static)

  from_with_type :
      (d : Decoder) (texts : KeyTexts) (t : ClType) (b : ℕ) (bs rest : Bytes) (v : ClValue)
      → length (b ∷ bs) < 2 ^ 32
      → encodable t ≡ true
      → erase t ≡ t
      → from_bytes_by_type d texts t (b ∷ bs) ≡ ok (v, [])
      → from_bytes_with_type d texts (with_type (b ∷ bs) t ++ rest) ≡ ok (v, rest)
  unfolding from_bytes_with_type
  from_with_type d texts t b bs rest v small known static back = rw (
    split_with_type (b ∷ bs) t rest small,
    drop-append bs (encoding t ++ rest) (length bs) refl,
    read_type t rest known static,
    take-append bs (encoding t ++ rest) (length bs) refl,
    back,
  )

  -- A readable value of a type that takes a byte at least, written with its type, a type without
  -- dynamic parts whose sizes fit 32 bits, in less than 2 ^ 32 bytes, is read back by
  -- CLValueParser.fromBytesWithType, which leaves what follows. What it returns differs only in
  -- the original bytes that its large numbers keep, and is written with its type the same again.
  pub from_bytes_with_type-to_bytes_with_type :
      (d : Decoder) (texts : KeyTexts) (v : ClValue) (value : Bytes) (rest : Bytes)
      → Readable d texts v
      → NeedsBytes d texts (type_of v)
      → encodable (type_of v) ≡ true
      → erase (type_of v) ≡ type_of v
      → value_bytes v ≡ ok value
      → length value < 2 ^ 32
      → (bytes : Bytes) × (v' : ClValue) × (to_bytes_with_type v ≡ ok bytes)
        × (from_bytes_with_type d texts (bytes ++ rest) ≡ ok (v', rest))
        × (plain v' ≡ v)
        × (to_bytes_with_type v' ≡ ok bytes)
  from_bytes_with_type-to_bytes_with_type d texts v value rest h needs known static written small =
      let r = reads d texts v h in
      let same_bytes : r.bytes ≡ value = cc (r.written, written) in
      let (b, bs, cut) = nonempty d texts (type_of v) v r.bytes needs r.read in
      let (v', back, same, again) = r.read [] in
      let typed : get_type v ≡ type_of v = get_type-type_of d texts v h in
      let typed' : get_type v' ≡ type_of v =
        sym (get_type-plain v') ∙ ap (λ w. get_type w) same ∙ typed in
      let shape : value ≡ b ∷ bs = sym same_bytes ∙ cut in
      let back' : from_bytes_by_type d texts (type_of v) (b ∷ bs) ≡ ok (v', []) =
        rw (append-nil, cut) at back in
      let fits : length (b ∷ bs) < 2 ^ 32 = rw (shape) at small in
      (
        with_type value (type_of v),
        v',
        rw (← typed) (to_bytes_with_type_lem v value written small (rw (typed) known)),
        rw (shape) (from_with_type d texts (type_of v) b bs rest v' fits known static back'),
        same,
        rw (← typed')
            (to_bytes_with_type_lem v' value (rw (← same_bytes) again) small (rw (typed') known)),
      )
