-- ===== src/Calltable/RoundTrip.antt =====
-- `CalltableSerialization.fromBytes` reads back what `toBytes` wrote.
use casper_js_sdk.Prelude.{
  ℕ, suc, ◌+◌, ◌*◌, ◌-◌, ◌^◌, ◌<◌, ◌≡◌, refl, sym, ◌∙◌, arith, List, [], ◌∷◌, ◌++◌, append-nil,
  append_assoc, map, length, length-append, get_elem?, slice, take-append, drop-append, ok,
  Bool-cases, inl, inr, ◌==◌,
}
use casper_js_sdk.Prelude.Words.{Bytes, le_bytes, length-le_bytes}
use casper_js_sdk.Ethers.{Ethers}
use casper_js_sdk.ByteConverters.{parse_u16, parse_u32}
use casper_js_sdk.ByteConverters.Parse.{parse_u16-le_bytes, parse_u32-le_bytes}
use casper_js_sdk.Calltable.{
  Field, Calltable, empty, add_field, get_field, to_bytes, read_header, read_values, value_end,
  from_bytes,
}
use casper_js_sdk.Calltable.Layout.{
  fields_of, total, of_values, header_bytes, payload, table_encoding, HeaderFits, Fits,
  Fits-HeaderFits, add_field-of_values, get_field-of_values, to_bytes-of_values,
}

slice-word :
    (before word behind : Bytes) (o k : ℕ)
    → length before ≡ o
    → length word ≡ k
    → slice o (o + k) (before ++ (word ++ behind)) ≡ word
slice-word before word behind o k ho hk =
    let size : o + k - o ≡ k = omega arith in
    rw (drop-append before (word ++ behind) o ho, size) (take-append word behind k hk)

-- A word that stands at offset `p` of `bytes`.
module _ (bytes before behind : Bytes) (n p : ℕ) (hp : length before ≡ p) where
  pub parse_u16-slice :
      bytes ≡ before ++ (le_bytes 2 n ++ behind)
      → n < 2 ^ 16
      → parse_u16 (slice p (p + 2) bytes) ≡ ok n
  parse_u16-slice split h =
      rw (split, slice-word before (le_bytes 2 n) behind p 2 hp (length-le_bytes 2 n))
        (rw append-nil at (parse_u16-le_bytes n [] h))

  pub parse_u32-slice :
      bytes ≡ before ++ (le_bytes 4 n ++ behind)
      → n < 2 ^ 32
      → parse_u32 (slice p (p + 4) bytes) ≡ ok n
  parse_u32-slice split h =
      rw (split, slice-word before (le_bytes 4 n) behind p 4 hp (length-le_bytes 4 n))
        (rw append-nil at (parse_u32-le_bytes n [] h))

-- The fields that `read_header` makes: the values are still empty.
blank : Field → Field
blank f = record f { value = [] }

length-header_bytes : (i o : ℕ) (vs : List Bytes) → length (header_bytes i o vs) ≡ 6 * length vs
unfolding header_bytes
length-header_bytes i o [] = refl
length-header_bytes i o (v ∷ vs) = omega (
  arith,
  length-append (le_bytes 2 i) (le_bytes 4 o ++ header_bytes (suc i) (o + length v) vs),
  length-append (le_bytes 4 o) (header_bytes (suc i) (o + length v) vs),
  length-le_bytes 2 i,
  length-le_bytes 4 o,
  length-header_bytes (suc i) (o + length v) vs,
)

read_header-header_bytes :
    (i o p : ℕ) (vs : List Bytes) (bytes before behind : Bytes)
    → bytes ≡ before ++ (header_bytes i o vs ++ behind)
    → length before ≡ p
    → HeaderFits i o vs
    → read_header (length vs) p bytes ≡ ok (map blank (fields_of i o vs), p + 6 * length vs)
unfolding read_header header_bytes fields_of blank
read_header-header_bytes i o p [] bytes before behind split hp h =
    let e : p + 6 * 0 ≡ p = omega arith in rw e
read_header-header_bytes i o p (v ∷ vs) bytes before behind split hp (hi, ho, h) =
    let index = le_bytes 2 i in
    let offset = le_bytes 4 o in
    let rest = header_bytes (suc i) (o + length v) vs in
    let at_index : bytes ≡ before ++ (index ++ (offset ++ (rest ++ behind))) =
      split ∙ simp append_assoc in
    let at_offset : bytes ≡ (before ++ index) ++ (offset ++ (rest ++ behind)) =
      split ∙ simp append_assoc in
    let at_rest : bytes ≡ ((before ++ index) ++ offset) ++ (rest ++ behind) =
      split ∙ simp append_assoc in
    let index_end : length (before ++ index) ≡ p + 2 =
      omega (arith, length-append before index, length-le_bytes 2 i) in
    let offset_end : length ((before ++ index) ++ offset) ≡ p + 2 + 4 =
      omega (arith, length-append (before ++ index) offset, length-le_bytes 4 o) in
    let behind_all : p + 2 + 4 + 6 * length vs ≡ p + 6 * suc (length vs) = omega arith in
    rw (
      parse_u16-slice bytes before (offset ++ (rest ++ behind)) i p hp at_index hi,
      parse_u32-slice bytes (before ++ index) (rest ++ behind) o (p + 2) index_end at_offset ho,
      read_header-header_bytes (suc i) (o + length v) (p + 2 + 4) vs bytes _ behind at_rest
          offset_end h,
      behind_all,
    )

length-payload : (vs : List Bytes) → length (payload vs) ≡ total vs
unfolding payload total
length-payload [] = refl
length-payload (v ∷ vs) = omega (arith, length-append v (payload vs), length-payload vs)

value_end-fields_of :
    (j q : ℕ) (vs : List Bytes) → value_end (q + total vs) (map blank (fields_of j q vs)) ≡ q
unfolding value_end fields_of total blank
value_end-fields_of j q [] = omega arith
value_end-fields_of j q (v ∷ vs) = refl

-- `p` bytes stand before the payload, and `o` of the payload have been read.
read_values-payload :
    (i o p n : ℕ) (vs : List Bytes) (bytes before behind : Bytes)
    → bytes ≡ before ++ (payload vs ++ behind)
    → length before ≡ p + o
    → n ≡ o + total vs
    → read_values n p bytes (map blank (fields_of i o vs)) ≡ fields_of i o vs
unfolding read_values payload fields_of total blank
read_values-payload i o p n [] bytes before behind split h hn = refl
read_values-payload i o p n (v ∷ vs) bytes before behind split h hn =
    let at_value : bytes ≡ before ++ (v ++ (payload vs ++ behind)) = split ∙ simp append_assoc in
    let at_rest : bytes ≡ (before ++ v) ++ (payload vs ++ behind) = split ∙ simp append_assoc in
    let n' : n ≡ o + length v + total vs = omega arith in
    let end : p + (o + length v) ≡ p + o + length v = omega arith in
    let value_end_lem : value_end n (map blank (fields_of (suc i) (o + length v) vs))
        ≡ o + length v =
      rw n' (value_end-fields_of (suc i) (o + length v) vs) in
    let value : slice (p + o) (p + (o + length v)) bytes ≡ v =
      rw (end, at_value) (slice-word before v (payload vs ++ behind) (p + o) (length v) h refl) in
    let rest =
      read_values-payload (suc i) (o + length v) p n vs bytes (before ++ v) behind at_rest
        (omega (arith, length-append before v)) n' in
    rw (value_end_lem, value, rest)

from_bytes_parts :
    (bytes : Bytes) (count offset size : ℕ) (fs : List Field)
    → parse_u32 (slice 0 4 bytes) ≡ ok count
    → read_header count 4 bytes ≡ ok (fs, offset)
    → parse_u32 (slice offset (offset + 4) bytes) ≡ ok size
    → from_bytes bytes
      ≡ ok (record { fields = read_values size (offset + 4) bytes fs; current_offset = size })
unfolding from_bytes
from_bytes_parts bytes count offset size fs p q r = rw (p, q, r)

-- `fromBytes` reads a table back from its bytes, whatever follows them.
pub from_bytes-table_encoding :
    (vs : List Bytes) (rest : Bytes)
    → Fits vs
    → from_bytes (table_encoding vs ++ rest) ≡ ok (of_values vs)
unfolding table_encoding of_values
from_bytes-table_encoding vs rest f =
    let bytes : Bytes = table_encoding vs ++ rest in
    let count = le_bytes 4 (length vs) in
    let header = header_bytes 0 0 vs in
    let size = le_bytes 4 (total vs) in
    let at_count : bytes ≡ [] ++ (count ++ (header ++ (size ++ (payload vs ++ rest)))) =
      simp append_assoc in
    let at_header : bytes ≡ count ++ (header ++ (size ++ (payload vs ++ rest))) =
      simp append_assoc in
    let at_size : bytes ≡ (count ++ header) ++ (size ++ (payload vs ++ rest)) = simp append_assoc in
    let at_payload : bytes ≡ ((count ++ header) ++ size) ++ (payload vs ++ rest) =
      simp append_assoc in
    let offset = 4 + 6 * length vs in
    let header_end : length (count ++ header) ≡ offset = omega (
      arith,
      length-append count header,
      length-le_bytes 4 (length vs),
      length-header_bytes 0 0 vs,
    ) in
    let size_end : length ((count ++ header) ++ size) ≡ offset + 4 + 0 =
      omega (arith, length-append (count ++ header) size, length-le_bytes 4 (total vs)) in
    from_bytes_parts bytes (length vs) offset (total vs) (map blank (fields_of 0 0 vs))
      (parse_u32-slice bytes [] _ (length vs) 0 refl at_count (omega arith))
      (read_header-header_bytes 0 0 4 vs bytes count _ at_header (length-le_bytes 4 (length vs))
        (Fits-HeaderFits vs f))
      (parse_u32-slice bytes (count ++ header) _ (total vs) offset header_end at_size f.size)
    ∙ rw (
        read_values-payload 0 0 (offset + 4) (total vs) vs bytes ((count ++ header) ++ size) rest
          at_payload size_end (omega arith))

-- The tables that `addField` builds from an empty one, with the values that it was given.
pub data Built : Calltable → List Bytes → Type 0 where
  start : Built empty []
  added :
      {table table' : Calltable} {vs : List Bytes} (i : ℕ) (v : Bytes)
      → Built table vs
      → add_field i v table ≡ ok table'
      → Built table' (vs ++ v ∷ [])

added_value :
    (i : ℕ) (v : Bytes) (vs : List Bytes) (table' : Calltable)
    → add_field i v (of_values vs) ≡ ok table'
    → table' ≡ of_values (vs ++ v ∷ [])
added_value i v vs table' h =
    let both = sym h ∙ add_field-of_values i v vs in
    elim (Bool-cases (length vs == i)) [
      | inl next ↦ cc (rw next at both)
      | inr other ↦ cc (rw other at both)
    ]

-- A table that addField built from the empty one is the table that holds the values in order, at
-- the indices from 0 on and at the offsets that their lengths add up to.
pub Built-of_values : {table : Calltable} {vs : List Bytes} → Built table vs → table ≡ of_values vs
unfolding of_values
Built-of_values start = unfold fields_of total in refl
Built-of_values (added {table} {table'} {vs} i v b h) =
    added_value i v vs table' (rw (Built-of_values b) at h)

module _ ⦃e : Ethers⦄ where
  -- A table that addField built from the empty one, with at most 65536 fields of less than 2 ^ 32
  -- bytes in all, is written by toBytes and read back by fromBytes, whatever bytes follow; and
  -- getField returns the value that was added at an index, and nothing at an index behind the
  -- last.
  pub from_bytes-to_bytes :
      {table : Calltable} {vs : List Bytes} (rest : Bytes) (i : ℕ)
      → Built table vs
      → Fits vs
      → (bytes : Bytes) × (to_bytes table ≡ ok bytes)
        × (from_bytes (bytes ++ rest) ≡ ok table)
        × (get_field i table ≡ get_elem? vs i)
  from_bytes-to_bytes {table} {vs} rest i b f =
      let same = Built-of_values b in
      (
        table_encoding vs,
        rw same (to_bytes-of_values vs f),
        rw same (from_bytes-table_encoding vs rest f),
        rw same (get_field-of_values i vs),
      )
