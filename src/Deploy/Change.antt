-- ===== src/Deploy/Change.antt =====
-- src/types/Deploy.ts: whole deploys as bytes, and changes of a deploy.
use casper_js_sdk.Prelude.{
  [], ◌∷◌, ◌++◌, length, ◌==◌, not, if◌then◌else◌, Result, ok, err, ◌>>=◌, signed_deploy,
}
use casper_js_sdk.Prelude.Words.{Bytes}
use casper_js_sdk.Ethers.{Ethers}
use casper_js_sdk.Text.{Text}
use casper_js_sdk.ClValue.{ClValue}
use casper_js_sdk.ClValue.Keypair.{PublicKey}
use casper_js_sdk.Deploy.{Crypto, Deploy, header_to_bytes, body_bytes, make_deploy}
use casper_js_sdk.Deploy.Item.Arguments.{set_arg}
use casper_js_sdk.Transaction.V1.{approvals_to_bytes}

-- `setSignature`
unfoldable pub set_deploy_signature : Deploy → Bytes → PublicKey → Deploy
set_deploy_signature d signature public_key = record d {
  approvals = d.approvals ++ record { signer = public_key; signature = signature } ∷ [];
}

module _ ⦃e : Ethers⦄ where
  -- `toBytes`
  unfoldable pub deploy_to_bytes : Deploy → Result Bytes
  deploy_to_bytes d = do
    header ← header_to_bytes d.header
    body ← body_bytes d.payment d.session
    approvals ← approvals_to_bytes d.approvals
    ok (e.concat (header ∷ d.hash ∷ body ∷ approvals ∷ []))

  -- `addArgToDeploy`
  unfoldable pub add_arg_to_deploy : Crypto → Deploy → Text → ClValue → Result Deploy
  add_arg_to_deploy c d name value =
      let changed = do
        session ← set_arg name value d.session
        make_deploy c d.header d.payment session
      in if not (length d.approvals == 0) then err signed_deploy else changed
