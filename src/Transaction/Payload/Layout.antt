-- ===== src/Transaction/Payload/Layout.antt =====
-- The bytes of a payload, in terms of the bytes of its parts.
use casper_js_sdk.Prelude.{
  ◌-◌, ℕ, ◌%◌, ◌^◌, ◌<◌, ◌≡◌, refl, arith, List, [], ◌∷◌, ◌++◌, append_assoc, append-nil, length,
  length-append, length-replicate, replicate, ap, sym, ok, ◌>>=◌,
}
use native.Mathlib.Nat.{mod-eq_of_lt}
use casper_js_sdk.Prelude.Int.{pos}
use casper_js_sdk.Prelude.Words.{Bytes, le_bytes, length-le_bytes}
use casper_js_sdk.Ethers.{Ethers}
use casper_js_sdk.ByteConverters.Buffer.{write_integer}
use casper_js_sdk.ByteConverters.Numbers.{number_to_bytes_u64-le_bytes}
use casper_js_sdk.Text.{string_bytes}
use casper_js_sdk.Args.{args_to_bytes}
use casper_js_sdk.Args.Buffered.{put}
use casper_js_sdk.Calltable.{empty, from_bytes, add_field, to_bytes}
use casper_js_sdk.Calltable.Layout.{
  of_values, table_encoding, Fits, add_field-of_values, to_bytes-of_values,
}
use casper_js_sdk.Transaction.Envelope.{first_field, read_table}
use casper_js_sdk.Transaction.Scheduling.{at, scheduling_to_bytes}
use casper_js_sdk.Transaction.EntryPoint.{entry_point_to_bytes}
use casper_js_sdk.Transaction.Target.Stored.{target_to_bytes}
use casper_js_sdk.Transaction.PricingMode.{pricing_mode_to_bytes}
use casper_js_sdk.Transaction.Payload.{
  Payload, Buffer, write_fields, fields_to_bytes, with_length, initiator_to_bytes, timestamp_bytes,
  payload_fields, payload_to_bytes,
}
use casper_js_sdk.Transaction.Payload.RuntimeArgs.{
  Holds, write_next-Holds, written_part-Holds, ShortNames, runtime_args_bytes-args_to_bytes,
}

-- Each index in 2 bytes, and its value.
unfoldable pub fields_encoding : List (ℕ × Bytes) → Bytes
fields_encoding [] = []
fields_encoding ((field, value) ∷ fields) =
    le_bytes 2 (field % 2 ^ 16) ++ (value ++ fields_encoding fields)

write_fields-Holds :
    (fields : List (ℕ × Bytes)) (head : Bytes) (b : Buffer)
    → Holds head b
    → (b' : Buffer) × (write_fields fields b ≡ ok b') × Holds (head ++ fields_encoding fields) b'
unfolding write_fields fields_encoding
write_fields-Holds [] head b holds = (b, refl, rw (append-nil) holds)
write_fields-Holds ((field, value) ∷ fields) head b holds =
    let index = le_bytes 2 (field % 2 ^ 16) in
    let (b1, run1, holds1) = write_next-Holds head index b holds in
    let (b2, run2, holds2) = write_next-Holds (head ++ index) value b1 holds1 in
    let (b3, run3, holds3) = write_fields-Holds fields ((head ++ index) ++ value) b2 holds2 in
    (b3, rw (run1, run2, run3), rw (append_assoc, append_assoc) at holds3)

-- PayloadFields.toBytes writes the number of the fields in 4 bytes, and then the index of each in 2
-- bytes and its value, whatever their sizes.
pub fields_to_bytes-fields_encoding :
    (fields : List (ℕ × Bytes))
    → length fields < 2 ^ 32
    → fields_to_bytes fields ≡ ok (le_bytes 4 (length fields) ++ fields_encoding fields)
unfolding fields_to_bytes write_integer
fields_to_bytes-fields_encoding fields few =
    let kept : length fields % 2 ^ 32 ≡ length fields = mod-eq_of_lt few in
    let count = le_bytes 4 (length fields) in
    let size = length-le_bytes 4 (length fields) in
    let (pad, run, left) =
      put 0 [] (replicate 1024 0) count refl
        (omega (arith, size, length-replicate {A = ℕ} 1024 0)) in
    let (b, rest, holds) =
      write_fields-Holds fields count (count ++ pad, 4)
        (record {
          pad = pad;
          whole = ap (λ n. (count ++ pad, n)) (sym size);
          nonempty = omega (arith, size, length-append count pad);
        }) in
    rw (kept, run, rest, written_part-Holds (count ++ fields_encoding fields) b holds)

-- The bytes of the parts of a payload.
pub record Parts : Type 0 where
  pub initiator : Bytes
  pub pricing : Bytes
  pub args : Bytes
  pub target : Bytes
  pub entry_point : Bytes
  pub scheduling : Bytes

-- The fields of a payload that has these parts.
abbrev pub fields_of_parts : Parts → List (ℕ × Bytes)
fields_of_parts q =
    (0, with_length (0 ∷ q.args))
    ∷ (1, with_length q.target)
    ∷ (2, with_length q.entry_point)
    ∷ (3, with_length q.scheduling)
    ∷ []

module _ ⦃e : Ethers⦄ where
  -- The values of the table of a payload that has these parts, of a time and a time to live.
  abbrev pub payload_values : Payload → ℕ → ℕ → Parts → List Bytes
  payload_values p timestamp ttl q =
      q.initiator
      ∷ le_bytes 8 timestamp
      ∷ le_bytes 8 ttl
      ∷ string_bytes p.chain_name
      ∷ q.pricing
      ∷ (le_bytes 4 4 ++ fields_encoding (fields_of_parts q))
      ∷ []

  -- The parts of the payload are written as these bytes, by their own functions.
  pub record WritesParts (p : Payload) (q : Parts) : Type 0 where
    pub initiator : initiator_to_bytes p.initiator_addr ≡ ok q.initiator
    pub pricing : pricing_mode_to_bytes p.pricing_mode ≡ ok q.pricing
    pub args : args_to_bytes p.args ≡ ok q.args
    pub target : target_to_bytes p.target ≡ ok q.target
    pub entry_point : entry_point_to_bytes p.entry_point ≡ ok q.entry_point
    pub scheduling : scheduling_to_bytes p.scheduling ≡ ok q.scheduling
    pub short_names : ShortNames p.args
    pub few_args : length p.args < 2 ^ 32

  add_six :
      (a b c d f g : Bytes)
      → Fits (a ∷ b ∷ c ∷ d ∷ f ∷ g ∷ [])
      → (do
        t ← add_field 0 a empty
        t1 ← add_field 1 b t
        t2 ← add_field 2 c t1
        t3 ← add_field 3 d t2
        t4 ← add_field 4 f t3
        t5 ← add_field 5 g t4
        to_bytes t5)
        ≡ ok (table_encoding (a ∷ b ∷ c ∷ d ∷ f ∷ g ∷ []))
  add_six a b c d f g fits =
      rw
        (
          first_field a,
          add_field-of_values 1 b (a ∷ []),
          add_field-of_values 2 c (a ∷ b ∷ []),
          add_field-of_values 3 d (a ∷ b ∷ c ∷ []),
          add_field-of_values 4 f (a ∷ b ∷ c ∷ d ∷ []),
          add_field-of_values 5 g (a ∷ b ∷ c ∷ d ∷ f ∷ []),
        )
        (to_bytes-of_values (a ∷ b ∷ c ∷ d ∷ f ∷ g ∷ []) fits)

  payload_fields_lem :
      (p : Payload) (q : Parts) → WritesParts p q → payload_fields p ≡ ok (fields_of_parts q)
  unfolding payload_fields
  payload_fields_lem p q w = rw (
    runtime_args_bytes-args_to_bytes p.args w.short_names w.few_args,
    w.args,
    w.target,
    w.entry_point,
    w.scheduling,
  )

  -- TransactionV1Payload.toBytes puts its parts together. If the parts are written by their own
  -- functions, the names of the arguments have less than 2 ^ 32 bytes and there are fewer than 2 ^
  -- 32 of them, the time and the time to live are below 2 ^ 53 - 1, and the values have less than
  -- 2 ^ 32 bytes in all, then it returns bytes that CalltableSerialization.fromBytes reads as the
  -- table of six values: the initiator, the time and the time to live in 8 bytes each, the name of
  -- the chain behind its size, the pricing mode, and the four fields, which are the arguments
  -- behind the byte 0, the target, the entry point and the scheduling, each behind its index and
  -- its size.
  pub payload_to_bytes-from_bytes :
      (p : Payload) (timestamp ttl : ℕ) (q : Parts)
      → p.timestamp ≡ at (pos timestamp)
      → p.ttl ≡ pos ttl
      → timestamp < 2 ^ 53 - 1
      → ttl < 2 ^ 53 - 1
      → WritesParts p q
      → Fits (payload_values p timestamp ttl q)
      → (bytes : Bytes) × (payload_to_bytes p ≡ ok bytes)
        × (from_bytes bytes ≡ ok (of_values (payload_values p timestamp ttl q)))
  unfolding payload_to_bytes timestamp_bytes
  payload_to_bytes-from_bytes p timestamp ttl q is_time is_ttl time64 ttl64 w fits = (
    table_encoding (payload_values p timestamp ttl q),
    rw
        (
          payload_fields_lem p q w,
          w.initiator,
          is_time,
          is_ttl,
          number_to_bytes_u64-le_bytes timestamp time64,
          number_to_bytes_u64-le_bytes ttl ttl64,
          w.pricing,
          fields_to_bytes-fields_encoding (fields_of_parts q) (omega arith),
        )
        (add_six _ _ _ _ _ _ fits),
    read_table (payload_values p timestamp ttl q) fits,
  )
