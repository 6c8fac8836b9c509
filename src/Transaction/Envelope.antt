-- ===== src/Transaction/Envelope.antt =====
-- A part of a transaction is a table of a few fields: building it, writing it, reading it.
use casper_js_sdk.Prelude.{
  ℕ, ◌≡◌, List, [], ◌∷◌, append-nil, Option, some, Result, ok, err, invalid_tag_bytes, ◌>>=◌,
}
use casper_js_sdk.Prelude.Words.{Bytes}
use casper_js_sdk.Ethers.{Ethers}
use casper_js_sdk.Calltable.{Calltable, empty, add_field, get_field, to_bytes, from_bytes}
use casper_js_sdk.Calltable.Layout.{
  of_values, total, fields_of, table_encoding, Fits, add_field-of_values, to_bytes-of_values,
}
use casper_js_sdk.Calltable.RoundTrip.{from_bytes-table_encoding}

unfoldable pub single_byte : Option Bytes → Result ℕ
single_byte (some (b ∷ [])) = ok b
single_byte _ = err invalid_tag_bytes

-- `getField(0)`, which has to be one byte, as the readers of the parts ask for it
abbrev pub tag_byte : Calltable → Result ℕ
tag_byte table = single_byte (get_field 0 table)

pub first_field : (a : Bytes) → add_field 0 a empty ≡ ok (of_values (a ∷ []))
first_field a = unfold of_values fields_of total in add_field-of_values 0 a []

-- `addField` from 0 on, and `toBytes`, as each part of a transaction does.
abbrev pub write1 : ⦃e : Ethers⦄ → Bytes → Result Bytes
write1 a = do t ← add_field 0 a empty; to_bytes t

abbrev pub write2 : ⦃e : Ethers⦄ → Bytes → Bytes → Result Bytes
write2 a b = do t ← add_field 0 a empty; t' ← add_field 1 b t; to_bytes t'

abbrev pub write3 : ⦃e : Ethers⦄ → Bytes → Bytes → Bytes → Result Bytes
write3 a b c = do
  t ← add_field 0 a empty
  t' ← add_field 1 b t
  t'' ← add_field 2 c t'
  to_bytes t''

abbrev pub write4 : ⦃e : Ethers⦄ → Bytes → Bytes → Bytes → Bytes → Result Bytes
write4 a b c d = do
  t ← add_field 0 a empty
  t' ← add_field 1 b t
  t'' ← add_field 2 c t'
  t''' ← add_field 3 d t''
  to_bytes t'''

module _ ⦃e : Ethers⦄ where
  pub write1_lem : (a : Bytes) → Fits (a ∷ []) → write1 a ≡ ok (table_encoding (a ∷ []))
  write1_lem a f = rw (first_field a) (to_bytes-of_values (a ∷ []) f)

  pub write2_lem : (a b : Bytes) → Fits (a ∷ b ∷ []) → write2 a b ≡ ok (table_encoding (a ∷ b ∷ []))
  write2_lem a b f =
      rw (first_field a, add_field-of_values 1 b (a ∷ [])) (to_bytes-of_values (a ∷ b ∷ []) f)

  pub write3_lem :
      (a b c : Bytes) → Fits (a ∷ b ∷ c ∷ []) → write3 a b c ≡ ok (table_encoding (a ∷ b ∷ c ∷ []))
  write3_lem a b c f =
      rw (first_field a, add_field-of_values 1 b (a ∷ []), add_field-of_values 2 c (a ∷ b ∷ []))
        (to_bytes-of_values (a ∷ b ∷ c ∷ []) f)

  pub write4_lem :
      (a b c d : Bytes)
      → Fits (a ∷ b ∷ c ∷ d ∷ [])
      → write4 a b c d ≡ ok (table_encoding (a ∷ b ∷ c ∷ d ∷ []))
  write4_lem a b c d f =
      rw
        (
          first_field a,
          add_field-of_values 1 b (a ∷ []),
          add_field-of_values 2 c (a ∷ b ∷ []),
          add_field-of_values 3 d (a ∷ b ∷ c ∷ []),
        )
        (to_bytes-of_values (a ∷ b ∷ c ∷ d ∷ []) f)

-- A table that was written, and nothing behind it, is read back.
pub read_table : (vs : List Bytes) → Fits vs → from_bytes (table_encoding vs) ≡ ok (of_values vs)
read_table vs f = rw append-nil at (from_bytes-table_encoding vs [] f)
