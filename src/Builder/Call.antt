-- ===== src/Builder/Call.antt =====
-- `ContractCallBuilder` and `SessionBuilder` of src/types/TransactionBuilder.ts.
use casper_js_sdk.Prelude.{
  Bool, true, false, Option, none, some, Result, ok, err, ◌>>=◌, entry_point_not_specified,
}
use casper_js_sdk.Prelude.Int.{ℤ}
use casper_js_sdk.Prelude.Words.{Bytes}
use casper_js_sdk.Ethers.{Ethers}
use casper_js_sdk.Text.{Text}
use casper_js_sdk.Hex.{to_hex, hash_from_hex, new_contract}
use casper_js_sdk.Args.{Args}
use casper_js_sdk.Transaction.EntryPoint.{call, custom, truthy, new_entry_point}
use casper_js_sdk.Transaction.Target.{
  InvocationTarget, hash_target, name_target, package_hash_target, package_name_target,
  vm_casper_v1,
}
use casper_js_sdk.Transaction.Target.Stored.{TransactionTarget, stored_target, session_target}
use casper_js_sdk.Transaction.Origin.{Transaction, AmountTexts}
use casper_js_sdk.Deploy.{Crypto, required}
use casper_js_sdk.Deploy.Item.{DeployItem}
use casper_js_sdk.Deploy.Item.Arguments.{empty_item, new_module_bytes}
use casper_js_sdk.Builder.{Builder, new_builder, build_with_payment}

pub record ContractCallBuilder : Type 0 where
  pub base : Builder
  pub transaction_invocation_target : Option InvocationTarget

-- the constructor
abbrev pub new_contract_call_builder : ℤ → ContractCallBuilder
new_contract_call_builder now = record {
  base = new_builder now none none;
  transaction_invocation_target = none;
}

-- What `byHash`, `byName`, `byPackageHash` and `byPackageName` do with the target that they make
abbrev pub set_invocation : InvocationTarget → ContractCallBuilder → ContractCallBuilder
set_invocation target b = record {
  base = record b.base {
    invocation_target = some (stored_target (record { id = target; runtime = vm_casper_v1 }));
  };
  transaction_invocation_target = some target;
}

-- `byHash`
unfoldable pub by_hash : Text → ContractCallBuilder → Result ContractCallBuilder
by_hash contract_hash b = do
  hash ← hash_from_hex contract_hash
  ok (set_invocation (hash_target hash) b)

-- `byName`
unfoldable pub by_name : Text → ContractCallBuilder → ContractCallBuilder
by_name name b = set_invocation (name_target name) b

-- `byPackageHash`
unfoldable pub by_package_hash :
    Text → Option ℤ → Option ℤ → ContractCallBuilder → Result ContractCallBuilder
by_package_hash contract_hash version major b = do
  hash ← hash_from_hex contract_hash
  ok (
      set_invocation
        (package_hash_target
          (record { id = hash; version = version; protocol_version_major = major }))
        b)

-- `byPackageName`
unfoldable pub by_package_name :
    Text → Option ℤ → Option ℤ → ContractCallBuilder → ContractCallBuilder
by_package_name name version major b =
    set_invocation
      (package_name_target
        (record { id = name; version = version; protocol_version_major = major }))
      b

-- `entryPoint`
unfoldable pub set_entry_point : Text → ContractCallBuilder → Result ContractCallBuilder
set_entry_point name b = do
  entry_point ← new_entry_point custom (some name)
  ok (record b { base = record b.base { entry_point = some entry_point } })

-- `runtimeArgs`, of both builders
abbrev pub set_runtime_args : Args → Builder → Builder
set_runtime_args args b = record b { runtime_args = some args }

-- The session of `ContractCallBuilder.buildFor1_5`: a stored contract without arguments is a type
-- error of its `bytes`, which follows.
unfoldable pub call_session : InvocationTarget → Text → Option Args → Result DeployItem
call_session target entry_point runtime_args = elim target.by_hash [
  | some hash ↦ do
    name ← new_contract (to_hex hash)
    args ← required runtime_args
    ok (record empty_item {
      stored_contract_by_hash =
          some (record { name = name; entry_point = entry_point; args = args });
    })
  | none ↦ elim target.by_package_hash [
    | some p ↦ do
      name ← new_contract (to_hex p.id)
      ok (record empty_item {
        versioned_contract_by_hash = some (record {
          name = name;
          entry_point = entry_point;
          version = p.version;
          args = runtime_args;
        });
      })
    | none ↦ elim (truthy target.by_name) [
      | some name ↦ do
        args ← required runtime_args
        ok (record empty_item {
          stored_contract_by_name =
              some (record { name = name; entry_point = entry_point; args = args });
        })
      | none ↦ elim target.by_package_name [
        | some p ↦ ok (record empty_item {
          versioned_contract_by_name = some (record {
            name = p.id;
            entry_point = entry_point;
            version = p.version;
            args = runtime_args;
          });
        })
        | none ↦ ok empty_item
      ]
    ]
  ]
]

pub record SessionBuilder : Type 0 where
  pub base : Builder
  pub is_install_or_upgrade : Bool

-- the constructor
abbrev pub new_session_builder : ℤ → SessionBuilder
new_session_builder now = record {
  base = new_builder now none (some (record { type_ = call; custom_entry_point = none }));
  is_install_or_upgrade = false;
}

-- `wasm`
unfoldable pub wasm : Bytes → SessionBuilder → SessionBuilder
wasm wasm_bytes b = record b {
  base = record b.base {
    invocation_target = some (
        session_target (record {
          module_bytes = wasm_bytes;
          runtime = vm_casper_v1;
          is_install_upgrade = b.is_install_or_upgrade;
        }));
  };
}

-- The target with its flag set, if it is that of a session
unfoldable pub mark_install : Option TransactionTarget → Option TransactionTarget
mark_install none = none
mark_install (some target) = elim target.session [
  | none ↦ some target
  | some s ↦ some (record target { session = some (record s { is_install_upgrade = true }) })
]

-- `installOrUpgrade`
unfoldable pub install_or_upgrade : SessionBuilder → SessionBuilder
install_or_upgrade b = record {
  base = record b.base { invocation_target = mark_install b.base.invocation_target };
  is_install_or_upgrade = true;
}

-- The session of `SessionBuilder.buildFor1_5`
unfoldable pub module_session : Builder → Result DeployItem
module_session b = do
  target ← required b.invocation_target
  elim target.session [
    | none ↦ err entry_point_not_specified
    | some s ↦ ok (new_module_bytes s.module_bytes b.runtime_args)
  ]

module _ ⦃e : Ethers⦄ (c : Crypto) where
  -- `ContractCallBuilder.buildFor1_5`
  unfoldable pub build_call_for_1_5 : AmountTexts → ContractCallBuilder → Result Transaction
  build_call_for_1_5 texts b = do
    entry_point ← required b.base.entry_point
    elim (truthy entry_point.custom_entry_point) [
      | none ↦ err entry_point_not_specified
      | some name ↦ do
        target ← required b.transaction_invocation_target
        session ← call_session target name b.base.runtime_args
        build_with_payment c texts b.base session
    ]

  -- `SessionBuilder.buildFor1_5`
  unfoldable pub build_session_for_1_5 : AmountTexts → SessionBuilder → Result Transaction
  build_session_for_1_5 texts b = do
    session ← module_session b.base
    build_with_payment c texts b.base session
