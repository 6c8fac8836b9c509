-- ===== src/Transaction/Scheduling.antt =====
-- src/types/TransactionScheduling.ts: when a transaction may run.
pub mod RoundTrip
use casper_js_sdk.Prelude.{
  ℕ, String, List, [], ◌∷◌, Bool, true, false, Option, none, some, reverse, if◌then◌else◌, Result,
  ok, err, ◌>>=◌, unable_to_serialize, invalid_tag_bytes, unknown_tag, missing_field, type_error,
  invalid_date, ltb, ◌||◌, ◌^◌, invalid_json, ◌==◌,
}
use text.Mathlib.Text.{◌==◌ as str_eq}
use casper_js_sdk.Prelude.Int.{ℤ, pos, negsuc, ltb_ℤ}
use casper_js_sdk.Prelude.Words.{Bytes}
use casper_js_sdk.Ethers.{Ethers}
use casper_js_sdk.ByteConverters.{number_to_bytes_u64, from_bytes_u64}
use casper_js_sdk.Calltable.{Calltable, empty, add_field, get_field, to_bytes, from_bytes}
use casper_js_sdk.Transaction.Envelope.{tag_byte}

pub data Tag : Type 0 where
  native future_era future_timestamp : Tag

-- The timestamp of a `FutureTimestampScheduling`: undefined, an invalid `Date`, or the milliseconds
-- of a valid one.
pub data Timestamp : Type 0 where
  missing invalid : Timestamp
  at : ℤ → Timestamp

-- `new Timestamp(new Date(ms))`: a `Date` is at most 100,000,000 days from the epoch.
unfoldable pub new_date : ℤ → Timestamp
new_date milliseconds =
    if ltb_ℤ (pos 8640000000000000) milliseconds || ltb_ℤ milliseconds (negsuc 8639999999999999)
    then invalid
    else at milliseconds

-- A class with three optional fields.
pub record Scheduling : Type 0 where
  pub standard : Bool
  pub future_era : Option ℤ
  pub future_timestamp : Option Timestamp

abbrev pub standard_scheduling : Scheduling
standard_scheduling = record { standard = true; future_era = none; future_timestamp = none }

abbrev pub era_scheduling : ℤ → Scheduling
era_scheduling id = record { standard = false; future_era = some id; future_timestamp = none }

abbrev pub timestamp_scheduling : Timestamp → Scheduling
timestamp_scheduling t = record { standard = false; future_era = none; future_timestamp = some t }

-- `toTransactionSchedulingTag`
abbrev pub to_tag : ℕ → Option Tag
to_tag n =
    if n == 0
    then some native
    else if n == 1
    then some future_era
    else if n == 2
    then some future_timestamp
    else none

-- `tag()`: an empty object has the tag 0, that of `Native`.
unfoldable pub tag : Scheduling → Tag
tag s = if s.standard then native else elim s.future_era [
  | some era ↦ future_era
  | none ↦ elim s.future_timestamp [ some t ↦ future_timestamp | none ↦ native ]
]

module _ ⦃e : Ethers⦄ where
  -- `FutureEraScheduling.toBytes`
  unfoldable pub era_to_bytes : ℤ → Result Bytes
  era_to_bytes era_id = do
    t ← add_field 0 (1 ∷ []) empty
    bytes ← number_to_bytes_u64 era_id
    t' ← add_field 1 bytes t
    to_bytes t'

  -- `FutureTimestampScheduling.toBytes`: `toJSON` of an undefined timestamp is a type error, and
  -- that of an invalid date is a range error.
  unfoldable pub timestamp_to_bytes : Timestamp → Result Bytes
  timestamp_to_bytes missing = err type_error
  timestamp_to_bytes invalid = err invalid_date
  timestamp_to_bytes (at milliseconds) = do
    t ← add_field 0 (2 ∷ []) empty
    bytes ← number_to_bytes_u64 milliseconds
    t' ← add_field 1 bytes t
    to_bytes t'

  -- `TransactionScheduling.toBytes`
  unfoldable pub scheduling_to_bytes : Scheduling → Result Bytes
  unfolding era_to_bytes timestamp_to_bytes
  scheduling_to_bytes s =
      let standard_bytes = do t ← add_field 0 (0 ∷ []) empty; to_bytes t
      in if s.standard then standard_bytes else elim s.future_era [
        | some era_id ↦ era_to_bytes era_id
        | none ↦ elim s.future_timestamp [
          | some t ↦ timestamp_to_bytes t
          | none ↦ err unable_to_serialize
        ]
      ]

  -- The cases of `fromBytes` that read a 64-bit number from field 1.
  unfoldable pub read_u64_field : Calltable → Result ℤ
  read_u64_field table = elim (get_field 1 table) [
    | none ↦ err missing_field
    | some bytes ↦ from_bytes_u64 bytes >>= e.to_number
  ]

  unfoldable pub from_tag : Tag → Calltable → Result Scheduling
  unfolding read_u64_field new_date
  from_tag native table = ok standard_scheduling
  from_tag future_era table = do era_id ← read_u64_field table; ok (era_scheduling era_id)
  from_tag future_timestamp table = do
    milliseconds ← read_u64_field table
    ok (timestamp_scheduling (new_date milliseconds))

  -- `TransactionScheduling.fromBytes`
  unfoldable pub scheduling_from_bytes : Bytes → Result Scheduling
  unfolding from_tag
  scheduling_from_bytes bytes = do
    calltable ← from_bytes bytes
    raw_tag ← tag_byte calltable
    elim (to_tag raw_tag) [ none ↦ err unknown_tag | some t ↦ from_tag t calltable ]

-- The JSON values that `fromJSON` looks at: a text, an object by its members `FutureEra` and
-- `FutureTimestamp`, null, anything else. A timestamp stands for its ISO text.
pub data SchedulingJson : Type 0 where
  str : String → SchedulingJson
  object : Option ℤ → Option ℤ → SchedulingJson
  null other : SchedulingJson

-- `TransactionScheduling.fromJSON`. The case of `FutureTimestamp` reads the member `FutureEra`,
-- which is missing there, so that the timestamp is undefined. `typeof null` is an object too, but
-- has no members to look for.
unfoldable pub scheduling_from_json : SchedulingJson → Result Scheduling
scheduling_from_json (str s) =
    if str_eq s "Standard" then ok standard_scheduling else err invalid_json
scheduling_from_json (object (some era) timestamp) = ok (era_scheduling era)
scheduling_from_json (object none (some timestamp)) = ok (timestamp_scheduling missing)
scheduling_from_json (object none none) = err invalid_json
scheduling_from_json null = err type_error
scheduling_from_json other = err invalid_json

-- `TransactionScheduling.toJSON`
unfoldable pub scheduling_to_json : Scheduling → Result SchedulingJson
scheduling_to_json s = if s.standard then ok (str "Standard") else elim s.future_timestamp [
  | some (at t) ↦ ok (object none (some t))
  | some missing ↦ err type_error
  | some invalid ↦ err invalid_date
  | none ↦ elim s.future_era [
    | some era ↦ ok (object (some era) none)
    | none ↦ err unable_to_serialize
  ]
]
