-- ===== src/Transaction/EntryPoint/Json.antt =====
-- Entry points and their JSON, there and back.
use casper_js_sdk.Prelude.{ℕ, ◌≡◌, ◌≢◌, refl, ◌∷◌, none, some, ok}
use casper_js_sdk.Text.{Text}
use casper_js_sdk.Transaction.EntryPoint.{
  EntryPointType, EntryPoint, call, custom, entry_point_to_json, entry_point_from_json,
}

-- The entry points that the code makes: a type other than the custom one without a name, or the
-- custom one with a name that is not empty.
pub data IsEntryPoint : EntryPoint → Type 0 where
  named_case :
      (t : EntryPointType)
      → t ≢ custom
      → IsEntryPoint (record { type_ = t; custom_entry_point = none })
  custom_case :
      (c : ℕ) (s : Text)
      → IsEntryPoint (record { type_ = custom; custom_entry_point = some (c ∷ s) })

named_json :
    (t : EntryPointType)
    → t ≢ custom
    → entry_point_from_json (entry_point_to_json (record { type_ = t; custom_entry_point = none }))
      ≡ ok (record { type_ = t; custom_entry_point = none })
unfolding entry_point_from_json entry_point_to_json
named_json custom h = absurd (h refl)
named_json call h = refl
named_json _ h = refl

-- An entry point of any type but Custom without a name, or of the type Custom with a name that is
-- not empty, is read back from its JSON.
pub entry_point_from_json-to_json :
    {p : EntryPoint} → IsEntryPoint p → entry_point_from_json (entry_point_to_json p) ≡ ok p
unfolding entry_point_from_json entry_point_to_json
entry_point_from_json-to_json (named_case t h) = named_json t h
entry_point_from_json-to_json (custom_case c s) = refl
