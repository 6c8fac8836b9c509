-- ===== src/Deploy/Item.antt =====
-- src/types/ExecutableDeployItem.ts: the payment and the session of a deploy, as bytes.
pub mod Arguments
use casper_js_sdk.Prelude.{ℕ, [], ◌∷◌, length, Option, none, some, Result, ok, ◌>>=◌}
use casper_js_sdk.Prelude.Int.{ℤ, pos}
use casper_js_sdk.Prelude.Words.{Bytes}
use casper_js_sdk.Ethers.{Ethers}
use casper_js_sdk.ByteConverters.{to_bytes_u32}
use casper_js_sdk.Text.{Text, string_bytes}
use casper_js_sdk.Transaction.Target.{version_bytes}
use casper_js_sdk.Args.{Args, args_to_bytes}

pub record ModuleBytes : Type 0 where
  pub module_bytes : Bytes
  pub args : Option Args

-- `StoredContractByHash` and `StoredContractByName` with what names the contract: a hash or a text.
pub record StoredContract (Name : Type 0) : Type 0 where
  pub name : Name
  pub entry_point : Text
  pub args : Args

-- `StoredVersionedContractByHash` and `StoredVersionedContractByName`
pub record VersionedContract (Name : Type 0) : Type 0 where
  pub name : Name
  pub entry_point : Text
  pub version : Option ℤ
  pub args : Option Args

-- At most one of the fields is meant to be there. A `TransferDeployItem` is its arguments.
pub record DeployItem : Type 0 where
  pub module_bytes : Option ModuleBytes
  pub stored_contract_by_hash : Option (StoredContract Bytes)
  pub stored_contract_by_name : Option (StoredContract Text)
  pub versioned_contract_by_hash : Option (VersionedContract Bytes)
  pub versioned_contract_by_name : Option (VersionedContract Text)
  pub transfer : Option Args

module _ ⦃e : Ethers⦄ where
  unfoldable pub optional_args_to_bytes : Option Args → Result Bytes
  optional_args_to_bytes none = ok []
  optional_args_to_bytes (some args) = args_to_bytes args

  -- `ModuleBytes.bytes`
  unfoldable pub module_to_bytes : ModuleBytes → Result Bytes
  module_to_bytes m = do
    length_bytes ← to_bytes_u32 (pos (length m.module_bytes))
    elim m.args [
      | none ↦ ok (e.concat (length_bytes ∷ m.module_bytes ∷ []))
      | some args ↦ do
        arg_bytes ← args_to_bytes args
        ok (e.concat (e.concat (length_bytes ∷ m.module_bytes ∷ []) ∷ arg_bytes ∷ []))
    ]

  -- `bytes` of a contract, given the bytes of its name
  unfoldable pub contract_to_bytes : Bytes → Text → Args → Result Bytes
  contract_to_bytes name_bytes entry_point args = do
    arg_bytes ← args_to_bytes args
    ok (e.concat (name_bytes ∷ string_bytes entry_point ∷ arg_bytes ∷ []))

  -- `bytes` of a versioned contract, given the bytes of its name: its version is an option of a
  -- 32-bit number, as in an invocation target
  unfoldable pub versioned_to_bytes : Bytes → Text → Option ℤ → Option Args → Result Bytes
  versioned_to_bytes name_bytes entry_point version args = do
    option_bytes ← version_bytes version
    arg_bytes ← optional_args_to_bytes args
    ok (e.concat (name_bytes ∷ option_bytes ∷ string_bytes entry_point ∷ arg_bytes ∷ []))

  abbrev pub tagged : ℕ → Result Bytes → Result Bytes
  tagged tag written = do bytes ← written; ok (e.concat ((tag ∷ []) ∷ bytes ∷ []))

  -- `ExecutableDeployItem.bytes`
  unfoldable pub item_to_bytes : DeployItem → Result Bytes
  item_to_bytes item = elim item.module_bytes [
    | some m ↦ tagged 0 (module_to_bytes m)
    | none ↦ elim item.stored_contract_by_hash [
      | some c ↦ tagged 1 (contract_to_bytes c.name c.entry_point c.args)
      | none ↦ elim item.stored_contract_by_name [
        | some c ↦ tagged 2 (contract_to_bytes (string_bytes c.name) c.entry_point c.args)
        | none ↦ elim item.versioned_contract_by_hash [
          | some c ↦ tagged 3 (versioned_to_bytes c.name c.entry_point c.version c.args)
          | none ↦ elim item.versioned_contract_by_name [
            | some c ↦
                tagged 4 (versioned_to_bytes (string_bytes c.name) c.entry_point c.version c.args)
            | none ↦ elim item.transfer [ some args ↦ tagged 5 (args_to_bytes args) | none ↦ ok [] ]
          ]
        ]
      ]
    ]
  ]
