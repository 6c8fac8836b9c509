-- ===== src/Transaction/EntryPoint/RoundTrip.antt =====
-- Entry points and their bytes: every named entry point comes back.
use casper_js_sdk.Prelude.{◌≡◌, ◌≢◌, refl, ◌∙◌, arith, List, [], ◌∷◌, none, some, ok}
use casper_js_sdk.Prelude.Words.{Bytes}
use casper_js_sdk.Ethers.{Ethers}
use casper_js_sdk.Text.{Decoder}
use casper_js_sdk.Calltable.{Calltable, get_field}
use casper_js_sdk.Calltable.Layout.{of_values, total, Fits, table_encoding, get_field-of_values}
use casper_js_sdk.Transaction.Envelope.{single_byte, write1_lem, read_table}
use casper_js_sdk.Transaction.EntryPoint.{
  EntryPointType, EntryPoint, call, custom, tag, to_entry_point_tag, custom_name, new_entry_point,
  entry_point_to_bytes, read_type, entry_point_from_bytes,
}

to_entry_point_tag-tag : (t : EntryPointType) → to_entry_point_tag (tag t) ≡ some t
unfolding to_entry_point_tag
to_entry_point_tag-tag call = refl
to_entry_point_tag-tag _ = refl

named : EntryPointType → EntryPoint
named t = record { type_ = t; custom_entry_point = none }

tag-Fits : (t : EntryPointType) → Fits ((tag t ∷ []) ∷ [])
unfolding total
tag-Fits t = record { count = omega arith; size = omega arith }

module _ ⦃e : Ethers⦄ where
  no_custom_name : (t : EntryPointType) → custom_name t none ≡ none
  unfolding custom_name
  no_custom_name call = refl
  no_custom_name custom = refl
  no_custom_name _ = refl

  read_named :
      (d : Decoder) (t : EntryPointType) (c : Calltable)
      → t ≢ custom
      → read_type d t c ≡ ok (named t)
  unfolding read_type named new_entry_point
  read_named d custom c h = absurd (h refl)
  read_named d call c h = refl
  read_named d _ c h = refl

  new_named : (t : EntryPointType) → t ≢ custom → new_entry_point t none ≡ ok (named t)
  unfolding named new_entry_point
  new_named custom h = absurd (h refl)
  new_named call h = refl
  new_named _ h = refl

  write_named :
      (t : EntryPointType)
      → entry_point_to_bytes (named t) ≡ ok (table_encoding ((tag t ∷ []) ∷ []))
  unfolding named entry_point_to_bytes
  write_named t = rw (no_custom_name t, entry_point_to_bytes) (write1_lem (tag t ∷ []) (tag-Fits t))

  pub read_entry_point :
      (d : Decoder) (t : EntryPointType) (vs : List Bytes)
      → Fits vs
      → get_field 0 (of_values vs) ≡ some (tag t ∷ [])
      → entry_point_from_bytes d (table_encoding vs) ≡ read_type d t (of_values vs)
  unfolding entry_point_from_bytes single_byte
  read_entry_point d t vs f h = rw (read_table vs f, h, to_entry_point_tag-tag t)

  -- An entry point of any type but Custom, made without a name, is written by toBytes and read
  -- back by fromBytes.
  pub entry_point_from_bytes-to_bytes :
      (d : Decoder) (t : EntryPointType)
      → t ≢ custom
      → (p : EntryPoint) × (bytes : Bytes) × (new_entry_point t none ≡ ok p)
        × (entry_point_to_bytes p ≡ ok bytes)
        × (entry_point_from_bytes d bytes ≡ ok p)
  entry_point_from_bytes-to_bytes d t h =
      let vs : List Bytes = (tag t ∷ []) ∷ [] in
      (
        named t,
        table_encoding vs,
        new_named t h,
        write_named t,
        read_entry_point d t vs (tag-Fits t) (get_field-of_values 0 vs)
            ∙ read_named d t (of_values vs) h,
      )
