-- ===== src/Ethers/Concat.antt =====
-- `concat` of @ethersproject/bytes, of two and of three arrays.
use casper_js_sdk.Prelude.{◌≡◌, [], ◌∷◌, ◌++◌, append-nil}
use casper_js_sdk.Prelude.Words.{Bytes}
use casper_js_sdk.Ethers.{Ethers}

module _ ⦃e : Ethers⦄ where
  pub concat2 : (a b : Bytes) → e.concat (a ∷ b ∷ []) ≡ a ++ b
  concat2 a b = rw (e.concat-cons, e.concat-cons, e.concat-nil, append-nil)

  pub concat3 : (a b c : Bytes) → e.concat (a ∷ b ∷ c ∷ []) ≡ a ++ (b ++ c)
  concat3 a b c = rw (e.concat-cons, concat2)
