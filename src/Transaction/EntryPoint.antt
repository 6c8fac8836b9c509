-- ===== src/Transaction/EntryPoint.antt =====
-- src/types/TransactionEntryPoint.ts: what a transaction calls.
pub mod RoundTrip
pub mod Custom
pub mod Json
use casper_js_sdk.Prelude.{
  ℕ, List, [], ◌∷◌, Bool, true, false, ◌==◌, not, if◌then◌else◌, Option, none, some, Result, ok,
  err, ◌>>=◌, unknown_tag, missing_field, invalid_custom_flag, unknown_entry_point, String,
  missing_custom_entry_point,
}
use text.Mathlib.Text.{◌==◌ as str_eq}
use casper_js_sdk.Prelude.Words.{Bytes}
use casper_js_sdk.Ethers.{Ethers}
use casper_js_sdk.Text.{Text, Decoder, string_bytes, string_from_bytes}
use casper_js_sdk.Calltable.{Calltable, empty, add_field, get_field, to_bytes, from_bytes}
use casper_js_sdk.Transaction.Envelope.{tag_byte}

-- The enums `TransactionEntryPointEnum` and `TransactionEntryPointTag`, which have the same members.
pub data EntryPointType : Type 0 where
  call custom transfer add_bid withdraw_bid delegate undelegate redelegate : EntryPointType
  activate_bid change_bid_public_key add_reservations cancel_reservations burn : EntryPointType

pub record EntryPoint : Type 0 where
  pub type_ : EntryPointType
  pub custom_entry_point : Option Text

-- `tag()`
abbrev pub tag : EntryPointType → ℕ
tag call = 0
tag custom = 1
tag transfer = 2
tag add_bid = 3
tag withdraw_bid = 4
tag delegate = 5
tag undelegate = 6
tag redelegate = 7
tag activate_bid = 8
tag change_bid_public_key = 9
tag add_reservations = 10
tag cancel_reservations = 11
tag burn = 12

abbrev pub entry_point_types : List EntryPointType
entry_point_types =
    call ∷ custom ∷ transfer ∷ add_bid ∷ withdraw_bid ∷ delegate ∷ undelegate ∷ redelegate
    ∷ activate_bid ∷ change_bid_public_key ∷ add_reservations ∷ cancel_reservations ∷ burn ∷ []

unfoldable pub find_tag : ℕ → List EntryPointType → Option EntryPointType
find_tag n [] = none
find_tag n (t ∷ ts) = if tag t == n then some t else find_tag n ts

-- `toEntryPointTag`, and the `switch` of `fromBytes` from the tag to the type
unfoldable pub to_entry_point_tag : ℕ → Option EntryPointType
unfolding find_tag
to_entry_point_tag n = find_tag n entry_point_types

-- A string that counts as true: it is there, and not empty.
unfoldable pub truthy : Option Text → Option Text
truthy none = none
truthy (some []) = none
truthy (some (c ∷ s)) = some (c ∷ s)

-- `this.type === Custom && this.customEntryPoint`
unfoldable pub custom_name : EntryPointType → Option Text → Option Text
unfolding truthy
custom_name custom name = truthy name
custom_name _ name = none

-- the constructor
unfoldable pub new_entry_point : EntryPointType → Option Text → Result EntryPoint
unfolding truthy
new_entry_point custom name = elim (truthy name) [
  | none ↦ err missing_custom_entry_point
  | some s ↦ ok (record { type_ = custom; custom_entry_point = name })
]
new_entry_point t name = ok (record { type_ = t; custom_entry_point = name })

module _ ⦃e : Ethers⦄ where
  -- `toBytes`
  unfoldable pub entry_point_to_bytes : EntryPoint → Result Bytes
  unfolding custom_name
  entry_point_to_bytes p = do
    t ← add_field 0 (tag p.type_ ∷ []) empty
    elim (custom_name p.type_ p.custom_entry_point) [
      | none ↦ to_bytes t
      | some name ↦ add_field 1 (string_bytes name) t >>= to_bytes
    ]

  -- `customFlag[0] !== 1` refuses an empty field too.
  unfoldable pub is_custom_flag : Bytes → Bool
  is_custom_flag [] = false
  is_custom_flag (b ∷ bs) = b == 1

  -- The part of `fromBytes` for the type `Custom`: field 1 is read as a table of its own.
  unfoldable pub read_custom : Decoder → Calltable → Result EntryPoint
  unfolding is_custom_flag new_entry_point
  read_custom d calltable = elim (get_field 1 calltable) [
    | none ↦ err missing_field
    | some custom_bytes ↦ from_bytes custom_bytes >>= λ inner. elim (get_field 0 inner) [
      | none ↦ err invalid_custom_flag
      | some flag ↦ elim (is_custom_flag flag) [
        | false ↦ err invalid_custom_flag
        | true ↦ elim (get_field 1 inner) [
          | none ↦ err missing_field
          | some name_bytes ↦
              string_from_bytes d name_bytes >>= λ r. new_entry_point custom (some r.0)
        ]
      ]
    ]
  ]

  -- The end of `fromBytes`: the type `Custom` reads its name, the others have none.
  unfoldable pub read_type : Decoder → EntryPointType → Calltable → Result EntryPoint
  unfolding read_custom
  read_type d custom calltable = read_custom d calltable
  read_type d t calltable = new_entry_point t none

  unfoldable pub read_tagged : Decoder → Option EntryPointType → Calltable → Result EntryPoint
  unfolding read_type
  read_tagged d none calltable = err unknown_tag
  read_tagged d (some t) calltable = read_type d t calltable

  -- `fromBytes`
  unfoldable pub entry_point_from_bytes : Decoder → Bytes → Result EntryPoint
  unfolding read_tagged
  entry_point_from_bytes d bytes = do
    calltable ← from_bytes bytes
    raw ← tag_byte calltable
    read_tagged d (to_entry_point_tag raw) calltable

-- `TransactionEntryPointEnum`: the text of each member.
abbrev pub type_text : EntryPointType → String
type_text call = "Call"
type_text custom = "Custom"
type_text transfer = "Transfer"
type_text add_bid = "AddBid"
type_text withdraw_bid = "WithdrawBid"
type_text delegate = "Delegate"
type_text undelegate = "Undelegate"
type_text redelegate = "Redelegate"
type_text activate_bid = "ActivateBid"
type_text change_bid_public_key = "ChangeBidPublicKey"
type_text add_reservations = "AddReservations"
type_text cancel_reservations = "CancelReservations"
type_text burn = "Burn"

-- The JSON values that `fromJSON` tells apart: a text, an object by its member `Custom`, anything
-- else.
pub data EntryPointJson : Type 0 where
  str : String → EntryPointJson
  custom_member : Text → EntryPointJson
  other : EntryPointJson

-- `toJSON`
unfoldable pub entry_point_to_json : EntryPoint → EntryPointJson
unfolding custom_name
entry_point_to_json p = elim (custom_name p.type_ p.custom_entry_point) [
  | some name ↦ custom_member name
  | none ↦ str (type_text p.type_)
]

-- The cases of the `switch` of `fromJSON`.
abbrev pub named_types : List EntryPointType
named_types =
    transfer ∷ add_bid ∷ withdraw_bid ∷ delegate ∷ undelegate ∷ redelegate ∷ activate_bid
    ∷ change_bid_public_key ∷ call ∷ add_reservations ∷ cancel_reservations ∷ burn ∷ []

unfoldable pub find_named : String → List EntryPointType → Result EntryPoint
unfolding new_entry_point
find_named text [] = err unknown_entry_point
find_named text (t ∷ ts) =
    if str_eq (type_text t) text then new_entry_point t none else find_named text ts

-- `fromJSON`
unfoldable pub entry_point_from_json : EntryPointJson → Result EntryPoint
unfolding find_named truthy new_entry_point
entry_point_from_json (custom_member []) = err unknown_entry_point
entry_point_from_json (custom_member (c ∷ name)) = new_entry_point custom (some (c ∷ name))
entry_point_from_json (str text) = find_named text named_types
entry_point_from_json other = err unknown_entry_point
