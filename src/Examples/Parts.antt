-- ===== src/Examples/Parts.antt =====
-- Runs of the parts of a transaction.
use casper_js_sdk.Prelude.{◌≡◌, arith, [], ◌∷◌, some, none, ok, err, Error, type_error}
use casper_js_sdk.Prelude.Int.{pos}
use casper_js_sdk.Prelude.Words.{Bytes}
use casper_js_sdk.Ethers.Model.{ethers_model}
use casper_js_sdk.Text.{utf16_length}
use casper_js_sdk.Text.Utf8.{utf8_decoder}
use casper_js_sdk.Transaction.Scheduling.{
  at, Scheduling, SchedulingJson, era_scheduling, timestamp_scheduling, scheduling_to_bytes,
  scheduling_from_bytes, scheduling_to_json, scheduling_from_json,
}
use casper_js_sdk.Transaction.Scheduling.RoundTrip.{
  era_case, scheduling_from_bytes-to_bytes, scheduling_from_json_loses_timestamp,
}
use casper_js_sdk.Transaction.EntryPoint.{
  EntryPoint, delegate, custom, new_entry_point, entry_point_to_bytes, entry_point_from_bytes,
}
use casper_js_sdk.Transaction.EntryPoint.Custom.{entry_point_from_bytes_rejects_custom}
use casper_js_sdk.Transaction.EntryPoint.RoundTrip.{entry_point_from_bytes-to_bytes}

scheduling_from_bytes-to_bytes_example :
    (bytes : Bytes) × (scheduling_to_bytes (era_scheduling (pos 195120)) ≡ ok bytes)
    × (scheduling_from_bytes bytes ≡ ok (era_scheduling (pos 195120)))
scheduling_from_bytes-to_bytes_example =
    scheduling_from_bytes-to_bytes (era_case 195120 (omega arith))

scheduling_from_json_loses_timestamp_example :
    (json : SchedulingJson) × (s : Scheduling) × (scheduling_to_json
        (timestamp_scheduling (at (pos 1700000000000)))
      ≡ ok json)
    × (scheduling_from_json json ≡ ok s)
    × (scheduling_to_json s ≡ err type_error)
    × (scheduling_to_bytes s ≡ err type_error)
scheduling_from_json_loses_timestamp_example =
    scheduling_from_json_loses_timestamp (pos 1700000000000)

entry_point_from_bytes-to_bytes_example :
    (p : EntryPoint) × (bytes : Bytes) × (new_entry_point delegate none ≡ ok p)
    × (entry_point_to_bytes p ≡ ok bytes)
    × (entry_point_from_bytes utf8_decoder bytes ≡ ok p)
entry_point_from_bytes-to_bytes_example =
    entry_point_from_bytes-to_bytes utf8_decoder delegate (λ h. cc)

-- a custom entry point with the name "mint"
entry_point_from_bytes_rejects_custom_example :
    (p : EntryPoint) × (bytes : Bytes) × (x : Error) × (new_entry_point custom
        (some (109 ∷ 105 ∷ 110 ∷ 116 ∷ []))
      ≡ ok p)
    × (entry_point_to_bytes p ≡ ok bytes)
    × (entry_point_from_bytes utf8_decoder bytes ≡ err x)
entry_point_from_bytes_rejects_custom_example =
    entry_point_from_bytes_rejects_custom utf8_decoder (109 ∷ 105 ∷ 110 ∷ 116 ∷ [])
      (unfold utf16_length in omega arith) (unfold utf16_length in omega arith)
