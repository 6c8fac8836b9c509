-- ===== src/Transaction/Scheduling/RoundTrip.antt =====
-- Schedulings and their bytes and JSON, there and back.
use casper_js_sdk.Prelude.{
  ℕ, ◌^◌, ◌<◌, ◌≤◌, ◌≡◌, refl, arith, List, [], ◌∷◌, reverse, length-reverse, ◌-◌, none, some, ok,
  err, type_error,
}
use mathlib.Core.List.{reverse-reverse}
use casper_js_sdk.Prelude.Int.{ℤ, pos}
use casper_js_sdk.Prelude.Words.{
  Bytes, le_bytes, length-le_bytes, le_value-le_bytes, AllByte-le_bytes, AllByte-reverse,
}
use casper_js_sdk.Ethers.{Ethers}
use casper_js_sdk.ByteConverters.{from_bytes_u64}
use casper_js_sdk.ByteConverters.Numbers.{number_to_bytes_u64-le_bytes}
use casper_js_sdk.Calltable.Layout.{of_values, total, Fits, table_encoding, get_field-of_values}
use casper_js_sdk.Transaction.Envelope.{single_byte, write1_lem, write2_lem, read_table}
use casper_js_sdk.Transaction.Scheduling.{
  Scheduling, standard_scheduling, era_scheduling, timestamp_scheduling, scheduling_to_bytes,
  read_u64_field, scheduling_from_bytes, SchedulingJson, at, missing, new_date,
  scheduling_from_json, scheduling_to_json,
}

-- The standard scheduling, an era below 2 ^ 53 - 1, and a valid date since the epoch.
pub data IsScheduling : Scheduling → Type 0 where
  standard_case : IsScheduling standard_scheduling
  era_case : (n : ℕ) → n < 2 ^ 53 - 1 → IsScheduling (era_scheduling (pos n))
  timestamp_case : (n : ℕ) → n ≤ 8640000000000000 → IsScheduling (timestamp_scheduling (at (pos n)))

module _ ⦃e : Ethers⦄ where
  from_bytes_u64-le_bytes : (n : ℕ) → n < 2 ^ 64 → from_bytes_u64 (le_bytes 8 n) ≡ ok (pos n)
  unfolding from_bytes_u64
  from_bytes_u64-le_bytes n h = rw (
    length-le_bytes 8 n,
    e.from_bytes_lem (reverse (le_bytes 8 n)) (AllByte-reverse _ (AllByte-le_bytes 8 n))
        (omega (arith, length-reverse (le_bytes 8 n), length-le_bytes 8 n)),
    reverse-reverse (le_bytes 8 n),
    le_value-le_bytes 8 n (omega arith),
  )

  valid_date : (n : ℕ) → n ≤ 8640000000000000 → new_date (pos n) ≡ at (pos n)
  unfolding new_date
  valid_date n h = ground arith

  number-Fits : (t n : ℕ) → Fits ((t ∷ []) ∷ le_bytes 8 n ∷ [])
  unfolding total
  number-Fits t n = record { count = omega arith; size = omega (arith, length-le_bytes 8 n) }

  read_number :
      (t n : ℕ)
      → n < 2 ^ 53
      → read_u64_field (of_values ((t ∷ []) ∷ le_bytes 8 n ∷ [])) ≡ ok (pos n)
  unfolding read_u64_field
  read_number t n h = rw (
    get_field-of_values 1 ((t ∷ []) ∷ le_bytes 8 n ∷ []),
    read_u64_field,
    from_bytes_u64-le_bytes n (omega arith),
    e.to_number-safe n h,
  )

  -- The standard scheduling, that of an era below 2 ^ 53 - 1, and that of a valid date from the
  -- epoch on are read back from their bytes.
  pub scheduling_from_bytes-to_bytes :
      {s : Scheduling}
      → IsScheduling s
      → (bytes : Bytes) × (scheduling_to_bytes s ≡ ok bytes) × (scheduling_from_bytes bytes ≡ ok s)
  unfolding scheduling_to_bytes scheduling_from_bytes single_byte
  scheduling_from_bytes-to_bytes standard_case =
      let vs : List Bytes = (0 ∷ []) ∷ [] in
      let fits : Fits vs = unfold total in record { count = omega arith; size = omega arith } in
      (
        table_encoding vs,
        write1_lem (0 ∷ []) fits,
        rw (read_table vs fits, get_field-of_values 0 vs),
      )
  scheduling_from_bytes-to_bytes (era_case n h) =
      let vs : List Bytes = (1 ∷ []) ∷ le_bytes 8 n ∷ [] in
      (
        table_encoding vs,
        rw (number_to_bytes_u64-le_bytes n (omega arith))
            (write2_lem (1 ∷ []) (le_bytes 8 n) (number-Fits 1 n)),
        rw (
          read_table vs (number-Fits 1 n),
          get_field-of_values 0 vs,
          read_number 1 n (omega arith),
        ),
      )
  scheduling_from_bytes-to_bytes (timestamp_case n h) =
      let vs : List Bytes = (2 ∷ []) ∷ le_bytes 8 n ∷ [] in
      (
        table_encoding vs,
        rw (number_to_bytes_u64-le_bytes n (omega arith))
            (write2_lem (2 ∷ []) (le_bytes 8 n) (number-Fits 2 n)),
        rw (
          read_table vs (number-Fits 2 n),
          get_field-of_values 0 vs,
          read_number 2 n (omega arith),
          valid_date n h,
        ),
      )

-- The standard scheduling and that of an era below 2 ^ 53 - 1 are read back from their JSON.
pub scheduling_from_json-to_json :
    {s : Scheduling}
    → IsScheduling s
    → s.future_timestamp ≡ none
    → (json : SchedulingJson) × (scheduling_to_json s ≡ ok json)
      × (scheduling_from_json json ≡ ok s)
unfolding scheduling_to_json scheduling_from_json
scheduling_from_json-to_json standard_case h = (SchedulingJson.str "Standard", refl, refl)
scheduling_from_json-to_json (era_case n _) h =
    (SchedulingJson.object (some (pos n)) none, refl, refl)
scheduling_from_json-to_json (timestamp_case n _) h = cc

-- A scheduling with a timestamp is not read back from its JSON: fromJSON accepts it and leaves the
-- timestamp undefined, so that the result can be written neither as JSON nor as bytes.
pub scheduling_from_json_loses_timestamp :
    ⦃e : Ethers⦄ (milliseconds : ℤ)
    → (json : SchedulingJson) × (s : Scheduling) × (scheduling_to_json
          (timestamp_scheduling (at milliseconds))
        ≡ ok json)
      × (scheduling_from_json json ≡ ok s)
      × (scheduling_to_json s ≡ err type_error)
      × (scheduling_to_bytes s ≡ err type_error)
unfolding scheduling_to_json scheduling_from_json scheduling_to_bytes
scheduling_from_json_loses_timestamp milliseconds = (
  SchedulingJson.object none (some milliseconds),
  timestamp_scheduling missing,
  refl,
  refl,
  refl,
  refl,
)
