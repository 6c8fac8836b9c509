-- ===== src/ClType/Parser/Fuel.antt =====
-- How deep the calls of `matchBytesToCLType` are nested.
use casper_js_sdk.Prelude.{
  ℕ, zero, suc, ◌≤◌, ◌<◌, ◌≡◌, ◌≢◌, refl, arith, [], ◌∷◌, length, Option-cases, inl, inr, err,
  out_of_fuel,
}
use native.Mathlib.Nat.{le_trans}
use casper_js_sdk.Prelude.Words.{Bytes, AllByte}
use casper_js_sdk.Prelude.Ensures.{Ensures, Ensures-out_of_fuel, Ensures-bind_same}
use casper_js_sdk.Ethers.{Ethers}
use casper_js_sdk.Numeric.{Parsed}
use casper_js_sdk.ClType.{ClType, TypeId}
use casper_js_sdk.ClType.Parser.{
  to_cl_type_tag, match_tag, match_first, match_fuel, match_bytes_to_cl_type,
}
use casper_js_sdk.ClType.Parser.Sound.{Reading, rest_bytes, rest_shorter, match_fuel-Ensures}

module _ ⦃e : Ethers⦄ where
  match_tag_same :
      (rec rec' : Bytes → Parsed ClType) (id : TypeId) (bs : Bytes)
      → ((bs' : Bytes) → length bs' ≤ length bs → AllByte bs' → Ensures (Reading bs') (rec bs'))
      → ((bs' : Bytes) → length bs' ≤ length bs → AllByte bs' → rec bs' ≡ rec' bs')
      → AllByte bs
      → match_tag rec id bs ≡ match_tag rec' id bs
  unfolding match_tag
  match_tag_same rec rec' TypeId.option bs k s h = rw (s bs (omega arith) h) refl
  match_tag_same rec rec' TypeId.list bs k s h = rw (s bs (omega arith) h) refl
  match_tag_same rec rec' TypeId.tuple1 bs k s h = rw (s bs (omega arith) h) refl
  match_tag_same rec rec' TypeId.result bs k s h =
      Ensures-bind_same (k bs (omega arith) h) (s bs (omega arith) h)
        λ r g. rw (s r.1 (rest_shorter g) (rest_bytes h g)) refl
  match_tag_same rec rec' TypeId.map bs k s h =
      Ensures-bind_same (k bs (omega arith) h) (s bs (omega arith) h)
        λ r g. rw (s r.1 (rest_shorter g) (rest_bytes h g)) refl
  match_tag_same rec rec' TypeId.tuple2 bs k s h =
      Ensures-bind_same (k bs (omega arith) h) (s bs (omega arith) h)
        λ r g. rw (s r.1 (rest_shorter g) (rest_bytes h g)) refl
  match_tag_same rec rec' TypeId.tuple3 bs k s h =
      Ensures-bind_same (k bs (omega arith) h) (s bs (omega arith) h) λ r g.
        let second = rest_shorter g in
        let bytes = rest_bytes h g in
        Ensures-bind_same (k r.1 second bytes) (s r.1 second bytes)
          λ r' g'. rw (s r'.1 (le_trans (rest_shorter g') second) (rest_bytes bytes g')) refl
  match_tag_same rec rec' TypeId.bool bs k s h = refl
  match_tag_same rec rec' _ bs k s h = refl

  match_fuel_same :
      (f g : ℕ) (bs : Bytes)
      → length bs < f
      → length bs < g
      → AllByte bs
      → match_fuel f bs ≡ match_fuel g bs
  unfolding match_fuel match_first
  match_fuel_same zero g bs l l' h = absurd (omega arith)
  match_fuel_same (suc f) zero bs l l' h = absurd (omega arith)
  match_fuel_same (suc f) (suc g) [] l l' h = refl
  match_fuel_same (suc f) (suc g) (tag ∷ bs) l l' (b, h) =
      elim (Option-cases (to_cl_type_tag tag)) [
        | inl missing ↦ rw (match_first, missing) refl
        | inr (id, found) ↦
            rw (match_first, found)
              (match_tag_same (match_fuel f) (match_fuel g) id bs
                (λ bs' k h'. match_fuel-Ensures f bs' (omega arith) h')
                (λ bs' k h'. match_fuel_same f g bs' (omega arith) (omega arith) h') h)
      ]

  -- The recursion of matchBytesToCLType ends on every input of bytes: however deep its calls may
  -- be nested, if it is deeper than there are bytes, they do not run out of that depth, and the
  -- result is the same.
  pub match_bytes_to_cl_type-ne-out_of_fuel :
      (bytes : Bytes) (fuel : ℕ)
      → AllByte bytes
      → length bytes < fuel
      → (match_fuel fuel bytes ≢ err out_of_fuel)
        × (match_fuel fuel bytes ≡ match_bytes_to_cl_type bytes)
  unfolding match_bytes_to_cl_type
  match_bytes_to_cl_type-ne-out_of_fuel bytes fuel h enough = (
    Ensures-out_of_fuel (match_fuel-Ensures fuel bytes enough h),
    match_fuel_same fuel (suc (length bytes)) bytes enough (omega arith) h,
  )
