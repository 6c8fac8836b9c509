-- ===== src/Calltable/Layout.antt =====
-- The table that holds given values, and its bytes, in plain arithmetic.
use casper_js_sdk.Prelude.{
  ℕ, zero, suc, ◌+◌, ◌^◌, ◌≤◌, ◌<◌, ◌≡◌, refl, ap, ◌∙◌, arith, List, [], ◌∷◌, ◌++◌, append_assoc,
  map, length, get_elem?, ◌==◌, ==_iff, ==_refl, if◌then◌else◌, Bool-cases, inl, inr, false, ok,
  err, wrong_field_order,
}
use casper_js_sdk.Prelude.Words.{Bytes, le_bytes}
use casper_js_sdk.Ethers.{Ethers}
use casper_js_sdk.ByteConverters.Numbers.{to_bytes_u16-le_bytes, to_bytes_u32-le_bytes}
use casper_js_sdk.Calltable.{
  Field, Calltable, add_field, find_field, get_field, header_parts, to_bytes,
}

-- The fields that hold `vs`, from index `i` and offset `o` on.
unfoldable pub fields_of : ℕ → ℕ → List Bytes → List Field
fields_of i o [] = []
fields_of i o (v ∷ vs) =
    record { index = i; offset = o; value = v } ∷ fields_of (suc i) (o + length v) vs

unfoldable pub total : List Bytes → ℕ
total [] = 0
total (v ∷ vs) = length v + total vs

-- The table that holds `vs`, in order.
unfoldable pub of_values : List Bytes → Calltable
of_values vs = record { fields = fields_of 0 0 vs; current_offset = total vs }

length-fields_of : (i o : ℕ) (vs : List Bytes) → length (fields_of i o vs) ≡ length vs
unfolding fields_of
length-fields_of i o [] = refl
length-fields_of i o (v ∷ vs) = ap suc (length-fields_of (suc i) (o + length v) vs)

fields_of-append :
    (i o : ℕ) (vs : List Bytes) (v : Bytes)
    → fields_of i o (vs ++ v ∷ [])
      ≡ fields_of i o vs ++ record { index = i + length vs; offset = o + total vs; value = v } ∷ []
unfolding fields_of total
fields_of-append i o [] v =
    let a : i + 0 ≡ i = omega arith in let b : o + 0 ≡ o = omega arith in rw (a, b)
fields_of-append i o (w ∷ vs) v =
    let a : suc i + length vs ≡ i + suc (length vs) = omega arith in
    let b : o + length w + total vs ≡ o + (length w + total vs) = omega arith in
    rw (fields_of-append (suc i) (o + length w) vs v, a, b)

total-append : (vs : List Bytes) (v : Bytes) → total (vs ++ v ∷ []) ≡ total vs + length v
unfolding total
total-append [] v = omega arith
total-append (w ∷ vs) v = omega (arith, total-append vs v)

-- addField to the table that holds given values accepts a value exactly at the next index, and
-- then the table holds it behind the others; at any other index it throws the order error.
pub add_field-of_values :
    (i : ℕ) (v : Bytes) (vs : List Bytes)
    → add_field i v (of_values vs)
      ≡ (if length vs == i then ok (of_values (vs ++ v ∷ [])) else err wrong_field_order)
unfolding add_field of_values
add_field-of_values i v vs = elim (Bool-cases (length vs == i)) [
  | inl next ↦
      rw (length-fields_of 0 0 vs, next)
        (let index : length vs ≡ i = (==_iff (length vs) i).0 next in
          let first : 0 + length vs ≡ i = omega arith in
          let behind : 0 + total vs ≡ total vs = omega arith in
          rw (fields_of-append 0 0 vs v, first, behind, total-append vs v))
  | inr other ↦ rw (length-fields_of 0 0 vs, other)
]

find_field-fields_of :
    (i k o : ℕ) (vs : List Bytes) → find_field (i + k) (fields_of i o vs) ≡ get_elem? vs k
unfolding find_field fields_of
find_field-fields_of i k o [] = refl
find_field-fields_of i zero o (v ∷ vs) = let e : i + 0 ≡ i = omega arith in rw (e, ==_refl i)
find_field-fields_of i (suc k) o (v ∷ vs) =
    let other : (i == i + suc k) ≡ false = ground arith in
    let e : i + suc k ≡ suc i + k = omega arith in
    rw other (
      ap (λ t. find_field t (fields_of (suc i) (o + length v) vs)) e
      ∙ find_field-fields_of (suc i) k (o + length v) vs)

-- `getField` returns the value at the index, and nothing behind the last value.
pub get_field-of_values : (i : ℕ) (vs : List Bytes) → get_field i (of_values vs) ≡ get_elem? vs i
unfolding get_field of_values
get_field-of_values i vs =
    let e : 0 + i ≡ i = omega arith in rw e at (find_field-fields_of 0 i 0 vs)

-- The bytes of the header: index and offset of each field, in 2 and 4 bytes.
unfoldable pub header_bytes : ℕ → ℕ → List Bytes → Bytes
header_bytes i o [] = []
header_bytes i o (v ∷ vs) = le_bytes 2 i ++ (le_bytes 4 o ++ header_bytes (suc i) (o + length v) vs)

unfoldable pub payload : List Bytes → Bytes
payload [] = []
payload (v ∷ vs) = v ++ payload vs

unfoldable pub table_encoding : List Bytes → Bytes
table_encoding vs =
    le_bytes 4 (length vs) ++ (header_bytes 0 0 vs ++ (le_bytes 4 (total vs) ++ payload vs))

-- Each index fits 16 bits and each offset 32 bits.
abbrev pub HeaderFits : ℕ → ℕ → List Bytes → Type 0
HeaderFits i o [] = Unit {0}
HeaderFits i o (v ∷ vs) = (i < 2 ^ 16) × (o < 2 ^ 32) × HeaderFits (suc i) (o + length v) vs

-- At most 65536 fields, with less than 2 ^ 32 bytes in all.
pub record Fits (vs : List Bytes) : Type 0 where
  pub count : length vs ≤ 2 ^ 16
  pub size : total vs < 2 ^ 32

HeaderFits-of :
    (i o : ℕ) (vs : List Bytes) → i + length vs ≤ 2 ^ 16 → o + total vs < 2 ^ 32 → HeaderFits i o vs
unfolding total
HeaderFits-of i o [] h k = tt
HeaderFits-of i o (v ∷ vs) h k =
    (omega arith, omega arith, HeaderFits-of (suc i) (o + length v) vs (omega arith) (omega arith))

pub Fits-HeaderFits : (vs : List Bytes) → Fits vs → HeaderFits 0 0 vs
Fits-HeaderFits vs f = HeaderFits-of 0 0 vs (omega arith) (omega arith)

module _ ⦃e : Ethers⦄ where
  concat-append : (xs ys : List Bytes) → e.concat (xs ++ ys) ≡ e.concat xs ++ e.concat ys
  concat-append [] ys = rw e.concat-nil
  concat-append (x ∷ xs) ys = simp (e.concat-cons, concat-append xs ys, append_assoc)

  concat-values :
      (i o : ℕ) (vs : List Bytes) → e.concat (map (λ f. f.value) (fields_of i o vs)) ≡ payload vs
  unfolding fields_of payload
  concat-values i o [] = e.concat-nil
  concat-values i o (v ∷ vs) = rw (e.concat-cons, concat-values (suc i) (o + length v) vs)

  header_parts-fields_of :
      (i o : ℕ) (vs : List Bytes)
      → HeaderFits i o vs
      → (parts : List Bytes) × (header_parts (fields_of i o vs) ≡ ok parts)
        × (e.concat parts ≡ header_bytes i o vs)
  unfolding header_parts fields_of header_bytes
  header_parts-fields_of i o [] h = ([], refl, e.concat-nil)
  header_parts-fields_of i o (v ∷ vs) (hi, ho, h) =
      let (parts, p, q) = header_parts-fields_of (suc i) (o + length v) vs h in
      (
        le_bytes 2 i ∷ le_bytes 4 o ∷ parts,
        rw (to_bytes_u16-le_bytes i hi, to_bytes_u32-le_bytes o ho, p),
        simp (e.concat-cons, q, append_assoc),
      )

  -- toBytes of the table that holds given values, at most 65536 of less than 2 ^ 32 bytes in all,
  -- writes the number of fields, the index and offset of each, the size of the payload and the
  -- values.
  pub to_bytes-of_values :
      (vs : List Bytes) → Fits vs → to_bytes (of_values vs) ≡ ok (table_encoding vs)
  unfolding to_bytes of_values table_encoding
  to_bytes-of_values vs f =
      let (parts, p, q) = header_parts-fields_of 0 0 vs (Fits-HeaderFits vs f) in
      rw
        (
          length-fields_of 0 0 vs,
          to_bytes_u32-le_bytes (length vs) (omega arith),
          p,
          to_bytes_u32-le_bytes (total vs) f.size,
        )
        (ap (λ t. ok t)
          (concat-append (le_bytes 4 (length vs) ∷ parts) _
            ∙ simp (e.concat-cons, q, concat-values 0 0 vs, append_assoc)))
