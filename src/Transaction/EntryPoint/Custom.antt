-- ===== src/Transaction/EntryPoint/Custom.antt =====
-- Custom entry points and their bytes: no reader takes them.
use casper_js_sdk.Prelude.{
  ℕ, zero, suc, ◌+◌, ◌*◌, ◌-◌, ◌^◌, ◌≤◌, ◌<◌, ◌≡◌, inl, inr, refl, sym, ap, ◌∙◌, arith, List, [],
  ◌∷◌, ◌++◌, length, length-append, length-take, length-drop, drop, slice, some, ok, err,
  Result-cases, >>=-eq-ok, Error,
}
use casper_js_sdk.Prelude.Words.{Bytes, le_bytes, length-le_bytes}
use casper_js_sdk.Ethers.{Ethers}
use casper_js_sdk.ByteConverters.{parse_u16, parse_u32}
use casper_js_sdk.Text.{Text, Decoder, utf8, utf16_length, string_bytes}
use casper_js_sdk.Text.RoundTrip.{string_bytes_lem}
use casper_js_sdk.Text.Utf8.{length-utf8}
use casper_js_sdk.Calltable.{Calltable, Field, read_header, from_bytes}
use casper_js_sdk.Calltable.RoundTrip.{parse_u32-slice}
use casper_js_sdk.Calltable.Layout.{of_values, total, Fits, table_encoding, get_field-of_values}
use casper_js_sdk.Transaction.Envelope.{write2_lem}
use casper_js_sdk.Transaction.EntryPoint.{
  EntryPoint, custom, tag, truthy, custom_name, new_entry_point, entry_point_to_bytes, read_custom,
  read_type, entry_point_from_bytes,
}
use casper_js_sdk.Transaction.EntryPoint.RoundTrip.{read_entry_point}

ok-injective {ℓ} : {A : Type ℓ} {a b : A} → ok a ≡ ok b → a ≡ b
ok-injective h = cc

parse_u32-length : (bytes : Bytes) {n : ℕ} → parse_u32 bytes ≡ ok n → 4 ≤ length bytes
unfolding parse_u32
parse_u32-length (a ∷ b ∷ c ∷ d ∷ rest) h = omega arith
parse_u32-length [] h = cc
parse_u32-length (a ∷ []) h = cc
parse_u32-length (a ∷ b ∷ []) h = cc
parse_u32-length (a ∷ b ∷ c ∷ []) h = cc

word_end :
    (offset : ℕ) (bytes : Bytes) {n : ℕ}
    → parse_u32 (slice (offset + 2) (offset + 2 + 4) bytes) ≡ ok n
    → offset + 6 ≤ length bytes
word_end offset bytes h =
    let inside = length-take (offset + 2 + 4 - (offset + 2)) (drop (offset + 2) bytes) in
    omega (arith, inside, length-drop (offset + 2) bytes, parse_u32-length _ h)

-- A header of at least one field, which takes 6 bytes for each field, lies in the bytes.
read_header-length :
    (count offset : ℕ) (bytes : Bytes) {r : List Field × ℕ}
    → read_header (suc count) offset bytes ≡ ok r
    → offset + 6 * suc count ≤ length bytes
unfolding read_header
read_header-length zero offset bytes h =
    let (i, _, after_index) = >>=-eq-ok (parse_u16 (slice offset (offset + 2) bytes)) _ h in
    let (o, word, _) =
      >>=-eq-ok (parse_u32 (slice (offset + 2) (offset + 2 + 4) bytes)) _ after_index in
    omega (arith, word_end offset bytes word)
read_header-length (suc count) offset bytes h =
    let (i, _, after_index) = >>=-eq-ok (parse_u16 (slice offset (offset + 2) bytes)) _ h in
    let (o, _, after_offset) =
      >>=-eq-ok (parse_u32 (slice (offset + 2) (offset + 2 + 4) bytes)) _ after_index in
    let (fs, more, _) = >>=-eq-ok (read_header (suc count) (offset + 2 + 4) bytes) _ after_offset in
    omega (arith, read_header-length count (offset + 2 + 4) bytes more)

-- A size of `suc n` before the bytes of a text of so many code units: as a table, they would have
-- a header that is longer than they are.
sized_text_is_no_table :
    (n : ℕ) (s : Text) {table : Calltable}
    → utf16_length s ≡ suc n
    → suc n < 2 ^ 32
    → from_bytes (le_bytes 4 (suc n) ++ utf8 s) ≡ ok table
    → ⊥
unfolding from_bytes
sized_text_is_no_table n s size h p =
    let bytes = le_bytes 4 (suc n) ++ utf8 s in
    let (count, first, after_count) = >>=-eq-ok (parse_u32 (slice 0 4 bytes)) _ p in
    let same : count ≡ suc n =
      ok-injective (sym first ∙ parse_u32-slice bytes [] (utf8 s) (suc n) 0 refl refl h) in
    let (r, header, _) = >>=-eq-ok (read_header count 4 bytes) _ after_count in
    omega (
      arith,
      read_header-length n 4 bytes (rw same at header),
      length-append (le_bytes 4 (suc n)) (utf8 s),
      length-le_bytes 4 (suc n),
      (length-utf8 s).1,
    )

module _ ⦃e : Ethers⦄ where
  -- No table can be read from the string that `CLValueString.bytes` writes for a text that is not
  -- empty: its size would be the number of fields.
  not_a_table :
      (s : Text)
      → 0 < utf16_length s
      → utf16_length s < 2 ^ 32
      → (x : Error) × (from_bytes (string_bytes s) ≡ err x)
  not_a_table s pos_length h = elim (Result-cases (from_bytes (string_bytes s))) [
    | inr (x, p) ↦ (x, p)
    | inl (table, p) ↦
        let n = utf16_length s - 1 in
        let size : utf16_length s ≡ suc n = omega arith in
        absurd
          (sized_text_is_no_table n s size (omega arith) (rw (string_bytes_lem s h, size) at p))
  ]

  custom_entry_point_of : Text → EntryPoint
  custom_entry_point_of s = record { type_ = custom; custom_entry_point = some s }

  truthy_text : (s : Text) → 0 < utf16_length s → truthy (some s) ≡ some s
  unfolding truthy utf16_length
  truthy_text [] h = absurd (omega arith)
  truthy_text (c ∷ s) h = refl

  custom_values : Text → List Bytes
  custom_values s = (tag custom ∷ []) ∷ string_bytes s ∷ []

  custom-Fits : (s : Text) → 7 + 3 * utf16_length s < 2 ^ 32 → Fits (custom_values s)
  unfolding total custom_values
  custom-Fits s h =
      let size : length (string_bytes s) ≡ 4 + length (utf8 s) =
        ap length (string_bytes_lem s (omega arith))
        ∙ omega (
          arith,
          length-append (le_bytes 4 (utf16_length s)) (utf8 s),
          length-le_bytes 4 (utf16_length s),
        ) in
      record { count = omega arith; size = omega (arith, (length-utf8 s).1) }

  read_custom_name :
      (d : Decoder) (s : Text)
      → 0 < utf16_length s
      → utf16_length s < 2 ^ 32
      → (x : Error) × (read_type d custom (of_values (custom_values s)) ≡ err x)
  unfolding read_type
  read_custom_name d s pos_length h =
      let (x, p) = not_a_table s pos_length h in
      (
        x,
        unfold custom_values in
            rw (read_custom, get_field-of_values 1 ((tag custom ∷ []) ∷ string_bytes s ∷ []), p),
      )

  -- A Custom entry point whose name is not empty and of at most about 2 ^ 32 / 3 code units is
  -- made and written, but fromBytes throws on its bytes, whatever decoder of UTF-8 the runtime
  -- has: it reads field 1 as a table, where toBytes wrote the name.
  pub entry_point_from_bytes_rejects_custom :
      (d : Decoder) (s : Text)
      → 0 < utf16_length s
      → 7 + 3 * utf16_length s < 2 ^ 32
      → (p : EntryPoint) × (bytes : Bytes) × (x : Error) × (new_entry_point custom (some s) ≡ ok p)
        × (entry_point_to_bytes p ≡ ok bytes)
        × (entry_point_from_bytes d bytes ≡ err x)
  unfolding new_entry_point entry_point_to_bytes custom_name custom_entry_point_of
  entry_point_from_bytes_rejects_custom d s pos_length h =
      let vs : List Bytes = custom_values s in
      let (x, p) = read_custom_name d s pos_length (omega arith) in
      let f = custom-Fits s h in
      (
        custom_entry_point_of s,
        table_encoding vs,
        x,
        rw (new_entry_point, truthy_text s pos_length),
        rw (entry_point_to_bytes, custom_name, truthy_text s pos_length)
            (unfold custom_values in write2_lem (tag custom ∷ []) (string_bytes s) f),
        read_entry_point d custom vs f (unfold custom_values in get_field-of_values 0 vs) ∙ p,
      )
