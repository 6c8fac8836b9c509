-- ===== src/Examples/Payloads.antt =====
-- Runs of the payload of a transaction.
use casper_js_sdk.Prelude.{◌≡◌, append-nil, refl, arith, [], ◌∷◌, replicate, none, some, ok, ◌>>=◌}
use casper_js_sdk.Prelude.Int.{pos}
use casper_js_sdk.Prelude.Words.{Bytes, le_bytes}
use casper_js_sdk.Ethers.Model.{ethers_model}
use casper_js_sdk.ByteConverters.Numbers.{to_bytes_u8-le_bytes, to_bytes_u32-le_bytes}
use casper_js_sdk.Text.{utf8, utf8_char, string_bytes}
use casper_js_sdk.ClValue.{cl_u8}
use casper_js_sdk.Calltable.{from_bytes}
use casper_js_sdk.Calltable.Layout.{of_values, table_encoding, total, header_bytes, payload, Fits}
use casper_js_sdk.Args.{NamedArg, each_to_bytes, args_to_bytes}
use casper_js_sdk.Transaction.Envelope.{write1_lem, write2_lem}
use casper_js_sdk.Transaction.Scheduling.{at, standard_scheduling, scheduling_to_bytes}
use casper_js_sdk.Transaction.EntryPoint.{transfer, entry_point_to_bytes, custom_name}
use casper_js_sdk.Transaction.Target.Stored.{native_target, target_to_bytes}
use casper_js_sdk.Transaction.PricingMode.{prepaid_to_bytes, pricing_mode_to_bytes}
use casper_js_sdk.Transaction.Payload.{
  Payload, with_length, initiator_to_bytes, runtime_args_bytes, payload_to_bytes,
}
use casper_js_sdk.Transaction.Payload.RuntimeArgs.{runtime_args_bytes-args_to_bytes}
use casper_js_sdk.Transaction.Payload.Layout.{
  fields_encoding, Parts, WritesParts, payload_values, payload_to_bytes-from_bytes,
}

abbrev hash : Bytes
hash = replicate 32 7

abbrev p : Payload
p = record {
  initiator_addr = record { public_key = none; account_hash = some hash };
  timestamp = at (pos 1700000000000);
  ttl = pos 1800000;
  pricing_mode = record { payment_limited = none; fixed = none; prepaid = some hash };
  chain_name = 99 ∷ 97 ∷ [];
  args = [];
  target = native_target;
  entry_point = record { type_ = transfer; custom_entry_point = none };
  scheduling = standard_scheduling;
}

abbrev q : Parts
q = record {
  initiator = table_encoding ((1 ∷ []) ∷ hash ∷ []);
  pricing = table_encoding ((2 ∷ []) ∷ hash ∷ []);
  args = le_bytes 4 0;
  target = table_encoding ((0 ∷ []) ∷ []);
  entry_point = table_encoding ((2 ∷ []) ∷ []);
  scheduling = table_encoding ((0 ∷ []) ∷ []);
}

p-WritesParts : WritesParts p q
unfolding initiator_to_bytes prepaid_to_bytes pricing_mode_to_bytes target_to_bytes
    entry_point_to_bytes scheduling_to_bytes custom_name args_to_bytes each_to_bytes total le_bytes
p-WritesParts = record {
  initiator = write2_lem (1 ∷ []) hash (omega arith);
  pricing = rw (to_bytes_u8-le_bytes 2 (omega arith)) (write2_lem (2 ∷ []) hash (omega arith));
  args = rw (to_bytes_u32-le_bytes 0 (omega arith), append-nil);
  target = write1_lem (0 ∷ []) (omega arith);
  entry_point = write1_lem (2 ∷ []) (omega arith);
  scheduling = write1_lem (0 ∷ []) (omega arith);
  short_names = tt;
  few_args = omega arith;
}

p-Fits : Fits (payload_values p 1700000000000 1800000 q)
unfolding total table_encoding header_bytes payload fields_encoding with_length le_bytes
    string_bytes utf8 utf8_char
p-Fits = omega arith

payload_to_bytes-from_bytes_example :
    (bytes : Bytes) × (payload_to_bytes p ≡ ok bytes)
    × (from_bytes bytes ≡ ok (of_values (payload_values p 1700000000000 1800000 q)))
payload_to_bytes-from_bytes_example =
    payload_to_bytes-from_bytes p 1700000000000 1800000 q refl refl (omega arith) (omega arith)
      p-WritesParts p-Fits

abbrev first : NamedArg
first = record { name = 97 ∷ []; value = cl_u8 (pos 5) }

runtime_args_bytes-args_to_bytes_example :
    runtime_args_bytes (first ∷ []) ≡ (do bytes ← args_to_bytes (first ∷ []); ok (0 ∷ bytes))
runtime_args_bytes-args_to_bytes_example =
    runtime_args_bytes-args_to_bytes (first ∷ []) (unfold utf8 utf8_char in (omega arith, tt))
      (omega arith)
