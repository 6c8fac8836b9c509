-- ===== src/Key/Reference.antt =====
-- src/types/key/URef.ts: unforgeable references, an address with access rights.
use casper_js_sdk.Prelude.{
  ℕ, [], ◌∷◌, length, take, drop, get_elem?, ltb, ◌==◌, not, if◌then◌else◌, none, some, Result, ok,
  err, ◌>>=◌, invalid_uref_length, unsupported_access_rights,
}
use casper_js_sdk.Prelude.Words.{Bytes}
use casper_js_sdk.Ethers.{Ethers}
use casper_js_sdk.Numeric.{Parsed}

-- A `UrefAccess` is a number below 8, a bit for each right.
pub record URef : Type 0 where
  pub data_ : Bytes
  pub access : ℕ

-- the constructor
unfoldable pub new_uref : Bytes → ℕ → Result URef
new_uref bytes access =
    if not (length bytes == 32)
    then err invalid_uref_length
    else if ltb access 8
    then ok (record { data_ = bytes; access = access })
    else err unsupported_access_rights

-- `bytes`
unfoldable pub uref_bytes : ⦃e : Ethers⦄ → URef → Bytes
uref_bytes ⦃e⦄ u = e.concat (u.data_ ∷ (u.access ∷ []) ∷ [])

-- `fromBytes`
unfoldable pub uref_from_bytes : Bytes → Parsed URef
uref_from_bytes bytes =
    if not (length bytes == 33) then err invalid_uref_length else elim (get_elem? bytes 32) [
      | some access ↦ do u ← new_uref (take 32 bytes) access; ok (u, drop 33 bytes)
      | none ↦ err unsupported_access_rights
    ]
