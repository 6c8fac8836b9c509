-- ===== src/ClType/Parser/Complete.antt =====
-- `matchBytesToCLType` reads back what `toBytes` wrote.
use casper_js_sdk.Prelude.{
  ℕ, zero, suc, ◌^◌, ◌<◌, ◌≡◌, refl, ap, ◌∙◌, arith, [], ◌∷◌, ◌++◌, append_assoc, length,
  length-append, Bool, true, ◌&&◌, some, ok,
}
use casper_js_sdk.Prelude.Int.{ℤ, pos, negsuc}
use casper_js_sdk.Prelude.Words.{Bytes}
use casper_js_sdk.Ethers.{Ethers}
use casper_js_sdk.ByteConverters.Numbers.{twos_complement}
use casper_js_sdk.Numeric.{Parsed}
use casper_js_sdk.Numeric.Fixed.{u32_from_bytes-le_bytes}
use casper_js_sdk.ClType.{
  ClType, TypeId, SimpleType, type_code, simple_id, simple, option, list, byte_array, result, map,
  tuple1, tuple2, tuple3, dynamic, to_bytes,
}
use casper_js_sdk.ClType.Encoding.{
  encodable, encoding, erase, returned_encodable, returned_encoding,
}
use casper_js_sdk.ClType.Parser.{
  to_cl_type_tag, match_tag, match_first, match_fuel, match_bytes_to_cl_type,
}

pub to_cl_type_tag-type_code : (id : TypeId) → to_cl_type_tag (type_code id) ≡ some id
unfolding to_cl_type_tag
to_cl_type_tag-type_code TypeId.bool = refl
to_cl_type_tag-type_code _ = refl

and_true : (a b : Bool) → (a && b) ≡ true → (a ≡ true) × (b ≡ true)
and_true a b h = ground arith

size_fits :
    (n : ℤ)
    → encodable (byte_array n) ≡ true
    → (n ≡ pos (twos_complement 32 n)) × (twos_complement 32 n < 256 ^ 4)
unfolding encodable twos_complement
size_fits (pos n) h = (refl, ground arith)
size_fits (negsuc n) h = absurd (ground arith)

module _ ⦃e : Ethers⦄ where
  -- With more fuel than the encoding is long, the parser takes the encoding off any input.
  abbrev Reads : ClType → Type 0
  Reads t =
      (f : ℕ) (rest : Bytes)
      → length (encoding t) < f
      → match_fuel f (encoding t ++ rest) ≡ ok (erase t, rest)

  -- The same for what follows the tag.
  abbrev ReadsBody : ClType → TypeId → Bytes → Type 0
  ReadsBody t id body =
      (f : ℕ) (rest : Bytes)
      → length body < f
      → match_tag (match_fuel f) id (body ++ rest) ≡ ok (erase t, rest)

  first_read :
      (rec : Bytes → Parsed ClType) (id : TypeId) (r : Bytes)
      → match_first rec (type_code id ∷ r) ≡ match_tag rec id r
  unfolding match_first
  first_read rec id r = rw (to_cl_type_tag-type_code id, match_first)

  tag_read :
      (t : ClType) (id : TypeId) (body : Bytes)
      → encoding t ≡ type_code id ∷ body
      → ReadsBody t id body
      → Reads t
  unfolding match_fuel
  tag_read t id body shape reads zero rest h = absurd (omega arith)
  tag_read t id body shape reads (suc f) rest h =
      let shorter : length body < f = omega (arith, ap length shape) in
      rw shape (first_read (match_fuel f) id (body ++ rest) ∙ reads f rest shorter)

  two_read :
      (t u : ClType)
      → Reads t
      → Reads u
      → (f : ℕ) (rest : Bytes) → length (encoding t ++ encoding u) < f
      → (match_fuel f ((encoding t ++ encoding u) ++ rest) ≡ ok (erase t, encoding u ++ rest))
        × (match_fuel f (encoding u ++ rest) ≡ ok (erase u, rest))
  two_read t u h k f rest l =
      let sum = length-append (encoding t) (encoding u) in
      (
        rw (append_assoc (encoding t) (encoding u) rest) (h f (encoding u ++ rest) (omega arith)),
        k f rest (omega arith),
      )

  simple_read : (s : SimpleType) → ReadsBody (simple s) (simple_id s) []
  unfolding match_tag erase
  simple_read SimpleType.bool f rest h = refl
  simple_read _ f rest h = refl

  match_fuel-encoding : (t : ClType) → encodable t ≡ true → Reads t
  unfolding encoding erase encodable match_tag
  match_fuel-encoding (simple s) h = tag_read (simple s) (simple_id s) [] refl (simple_read s)
  match_fuel-encoding (option t) h =
      tag_read (option t) TypeId.option (encoding t) refl
        λ f rest l. rw (match_fuel-encoding t h f rest l)
  match_fuel-encoding (list t) h =
      tag_read (list t) TypeId.list (encoding t) refl
        λ f rest l. rw (match_fuel-encoding t h f rest l)
  match_fuel-encoding (byte_array n) h =
      tag_read (byte_array n) TypeId.byte_array _ refl λ f rest l.
        let (same, small) = size_fits n h in
        rw (u32_from_bytes-le_bytes (twos_complement 32 n) rest small, ← same)
  match_fuel-encoding (result t u) h = tag_read (result t u) TypeId.result _ refl λ f rest l.
      let (ht, hu) = and_true (encodable t) (encodable u) h in
      let (p, q) = two_read t u (match_fuel-encoding t ht) (match_fuel-encoding u hu) f rest l in
      rw (p, q)
  match_fuel-encoding (map t u) h = tag_read (map t u) TypeId.map _ refl λ f rest l.
      let (ht, hu) = and_true (encodable t) (encodable u) h in
      let (p, q) = two_read t u (match_fuel-encoding t ht) (match_fuel-encoding u hu) f rest l in
      rw (p, q)
  match_fuel-encoding (tuple1 t) h =
      tag_read (tuple1 t) TypeId.tuple1 (encoding t) refl
        λ f rest l. rw (match_fuel-encoding t h f rest l)
  match_fuel-encoding (tuple2 t u) h = tag_read (tuple2 t u) TypeId.tuple2 _ refl λ f rest l.
      let (ht, hu) = and_true (encodable t) (encodable u) h in
      let (p, q) = two_read t u (match_fuel-encoding t ht) (match_fuel-encoding u hu) f rest l in
      rw (p, q)
  match_fuel-encoding (tuple3 t u v) h = tag_read (tuple3 t u v) TypeId.tuple3 _ refl λ f rest l.
      let (ht, huv) = and_true (encodable t) _ h in
      let (hu, hv) = and_true (encodable u) (encodable v) huv in
      let sum = length-append (encoding t) (encoding u ++ encoding v) in
      let (p, q) =
        two_read u v (match_fuel-encoding u hu) (match_fuel-encoding v hv) f rest (omega arith) in
      let first = match_fuel-encoding t ht f ((encoding u ++ encoding v) ++ rest) (omega arith) in
      rw (append_assoc (encoding t) (encoding u ++ encoding v) rest, first, p, q)
  match_fuel-encoding (dynamic id t) h = match_fuel-encoding t h

  -- matchBytesToCLType reads back the type that toBytes wrote, without its CLTypeDynamic wrappers,
  -- and returns the bytes behind it, whatever they are.
  pub match_bytes_to_cl_type-to_bytes :
      (t : ClType) (bytes rest : Bytes)
      → to_bytes t ≡ ok bytes
      → match_bytes_to_cl_type (bytes ++ rest) ≡ ok (erase t, rest)
  unfolding match_bytes_to_cl_type
  match_bytes_to_cl_type-to_bytes t bytes rest h = rw (← returned_encoding t bytes h) (
      match_fuel-encoding t (returned_encodable t bytes h) _ rest
        (omega (arith, length-append (encoding t) rest)))
