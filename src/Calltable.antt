-- ===== src/Calltable.antt =====
-- src/types/CalltableSerialization.ts: a table of numbered byte fields, the envelope of every
-- part of a transaction.
pub mod Layout
pub mod RoundTrip
use casper_js_sdk.Prelude.{
  ℕ, zero, suc, ◌+◌, List, [], ◌∷◌, ◌++◌, map, length, slice, ◌==◌, not, if◌then◌else◌, Option,
  none, some, Result, ok, err, ◌>>=◌, wrong_field_order,
}
use casper_js_sdk.Prelude.Int.{pos}
use casper_js_sdk.Prelude.Words.{Bytes}
use casper_js_sdk.Ethers.{Ethers}
use casper_js_sdk.ByteConverters.{to_bytes_u16, to_bytes_u32, parse_u16, parse_u32}

pub record Field : Type 0 where
  pub index : ℕ
  pub offset : ℕ
  pub value : Bytes

pub record Calltable : Type 0 where
  pub fields : List Field
  pub current_offset : ℕ

abbrev pub empty : Calltable
empty = record { fields = []; current_offset = 0 }

-- `addField`
unfoldable pub add_field : ℕ → Bytes → Calltable → Result Calltable
add_field index value table =
    if not (length table.fields == index)
    then err wrong_field_order
    else let field : Field = record {
      index = index;
      offset = table.current_offset;
      value = value;
    } in
      ok (record {
        fields = table.fields ++ field ∷ [];
        current_offset = table.current_offset + length value;
      })

-- The loop of `getField`: the first field with the index.
unfoldable pub find_field : ℕ → List Field → Option Bytes
find_field index [] = none
find_field index (f ∷ fs) = if f.index == index then some f.value else find_field index fs

-- `getField`
unfoldable pub get_field : ℕ → Calltable → Option Bytes
unfolding find_field
get_field index table = find_field index table.fields

module _ ⦃e : Ethers⦄ where
  -- What the loop of `toBytes` pushes to `calltableBytes`.
  unfoldable pub header_parts : List Field → Result (List Bytes)
  header_parts [] = ok []
  header_parts (f ∷ fs) = do
    index ← to_bytes_u16 (pos f.index)
    offset ← to_bytes_u32 (pos f.offset)
    rest ← header_parts fs
    ok (index ∷ offset ∷ rest)

  -- `toBytes`
  unfoldable pub to_bytes : Calltable → Result Bytes
  unfolding header_parts
  to_bytes table = do
    count ← to_bytes_u32 (pos (length table.fields))
    header ← header_parts table.fields
    total ← to_bytes_u32 (pos table.current_offset)
    ok (e.concat ((count ∷ header) ++ (total ∷ map (λ f. f.value) table.fields)))

-- The first loop of `fromBytes`: the fields, with no value yet, and the offset behind them.
unfoldable pub read_header : ℕ → ℕ → Bytes → Result (List Field × ℕ)
read_header zero offset bytes = ok ([], offset)
read_header (suc count) offset bytes = do
  index ← parse_u16 (slice offset (offset + 2) bytes)
  field_offset ← parse_u32 (slice (offset + 2) (offset + 2 + 4) bytes)
  (fields, behind) ← read_header count (offset + 2 + 4) bytes
  ok (record { index = index; offset = field_offset; value = [] } ∷ fields, behind)

-- The end of a field's value: where the next field begins, or the size of the payload.
unfoldable pub value_end : ℕ → List Field → ℕ
value_end payload_size [] = payload_size
value_end payload_size (f ∷ fs) = f.offset

-- The second loop of `fromBytes`.
unfoldable pub read_values : ℕ → ℕ → Bytes → List Field → List Field
unfolding value_end
read_values payload_size offset bytes [] = []
read_values payload_size offset bytes (f ∷ fs) =
    record f { value = slice (offset + f.offset) (offset + value_end payload_size fs) bytes }
    ∷ read_values payload_size offset bytes fs

-- `fromBytes`
unfoldable pub from_bytes : Bytes → Result Calltable
unfolding read_header read_values
from_bytes bytes = do
  field_count ← parse_u32 (slice 0 4 bytes)
  (fields, offset) ← read_header field_count 4 bytes
  payload_size ← parse_u32 (slice offset (offset + 4) bytes)
  ok (record {
    fields = read_values payload_size (offset + 4) bytes fields;
    current_offset = payload_size;
  })
