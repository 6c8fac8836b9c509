-- ===== src/Deploy/Item/Arguments.antt =====
-- src/types/ExecutableDeployItem.ts: the arguments of a deploy item, and the items that the library makes.
use casper_js_sdk.Prelude.{
  ◌≡◌, [], ◌∷◌, length, Bool, false, ◌==◌, Bool-cases, inl, inr, Option, none, some, Result, ok,
  err, ◌>>=◌, type_error, no_deploy_item, target_not_specified,
}
use casper_js_sdk.Prelude.Int.{ℤ}
use casper_js_sdk.Prelude.Words.{Bytes}
use casper_js_sdk.Ethers.{Ethers}
use casper_js_sdk.Text.{Text, codes}
use casper_js_sdk.ClType.{simple, SimpleType}
use casper_js_sdk.Key.Reference.{URef}
use casper_js_sdk.ClValue.Keypair.{PublicKey}
use casper_js_sdk.ClValue.{ClValue, cl_u64, cl_u512, cl_uref, cl_public_key, cl_none, cl_some}
use casper_js_sdk.Args.{Args, text_eq, text_eq_refl, insert, get_by_name}
use casper_js_sdk.Transaction.Target.{
  truthy_number, hash_target, name_target, package_hash_target, package_name_target, vm_casper_v1,
}
use casper_js_sdk.Transaction.Target.Stored.{
  TransactionTarget, native_target, stored_target, session_target,
}
use casper_js_sdk.Deploy.Item.{DeployItem}

abbrev pub empty_item : DeployItem
empty_item = record {
  module_bytes = none;
  stored_contract_by_hash = none;
  stored_contract_by_name = none;
  versioned_contract_by_hash = none;
  versioned_contract_by_name = none;
  transfer = none;
}

-- `getArgs`: the arguments of the first field that is there, which may be undefined.
unfoldable pub get_args : DeployItem → Result (Option Args)
get_args item = elim item.module_bytes [
  | some m ↦ ok m.args
  | none ↦ elim item.stored_contract_by_hash [
    | some c ↦ ok (some c.args)
    | none ↦ elim item.stored_contract_by_name [
      | some c ↦ ok (some c.args)
      | none ↦ elim item.versioned_contract_by_hash [
        | some c ↦ ok c.args
        | none ↦ elim item.versioned_contract_by_name [
          | some c ↦ ok c.args
          | none ↦ elim item.transfer [ some args ↦ ok (some args) | none ↦ err no_deploy_item ]
        ]
      ]
    ]
  ]
]

-- `getArgByName`
unfoldable pub get_arg_by_name : Text → DeployItem → Result (Option ClValue)
unfolding get_args
get_arg_by_name name item = do
  args ← get_args item
  elim args [ none ↦ err type_error | some present ↦ ok (get_by_name name present) ]

-- `insert` into arguments that may be undefined
abbrev pub insert_optional : Text → ClValue → Option Args → Result Args
insert_optional name value none = err type_error
insert_optional name value (some args) = ok (insert name value args)

-- `setArg`: the map that `getArgs` returns is changed in its place.
unfoldable pub set_arg : Text → ClValue → DeployItem → Result DeployItem
set_arg name value item = elim item.module_bytes [
  | some m ↦ do
    args ← insert_optional name value m.args
    ok (record item { module_bytes = some (record m { args = some args }) })
  | none ↦ elim item.stored_contract_by_hash [
    | some c ↦ ok (record item {
      stored_contract_by_hash = some (record c { args = insert name value c.args });
    })
    | none ↦ elim item.stored_contract_by_name [
      | some c ↦ ok (record item {
        stored_contract_by_name = some (record c { args = insert name value c.args });
      })
      | none ↦ elim item.versioned_contract_by_hash [
        | some c ↦ do
          args ← insert_optional name value c.args
          ok (record item { versioned_contract_by_hash = some (record c { args = some args }) })
        | none ↦ elim item.versioned_contract_by_name [
          | some c ↦ do
            args ← insert_optional name value c.args
            ok (record item { versioned_contract_by_name = some (record c { args = some args }) })
          | none ↦ elim item.transfer [
            | some args ↦ ok (record item { transfer = some (insert name value args) })
            | none ↦ err no_deploy_item
          ]
        ]
      ]
    ]
  ]
]

-- `CLValue.newCLUInt512` of a number
abbrev pub new_u512 : ℤ → ClValue
new_u512 n = cl_u512 (record { value = n; original_bytes = none })

-- `newModuleBytes`
abbrev pub new_module_bytes : Bytes → Option Args → DeployItem
new_module_bytes bytes args = record empty_item {
  module_bytes = some (record { module_bytes = bytes; args = args });
}

-- `standardPayment`, of an amount that is taken for an integer
unfoldable pub standard_payment : ℤ → DeployItem
standard_payment amount = new_module_bytes [] (some (insert (codes "amount") (new_u512 amount) []))

-- `isStandardPayment` of a deploy's payment
unfoldable pub is_standard_payment : DeployItem → Bool
is_standard_payment payment = elim payment.module_bytes [
  | none ↦ false
  | some m ↦ length m.module_bytes == 0
]

-- The target of a transfer: anything else is refused.
pub data TransferDestination : Type 0 where
  purse : URef → TransferDestination
  owner : PublicKey → TransferDestination
  nothing : TransferDestination

unfoldable pub destination_value : TransferDestination → Result ClValue
destination_value (purse uref) = ok (cl_uref uref)
destination_value (owner key) = ok (cl_public_key key)
destination_value nothing = err target_not_specified

-- The argument `id` of a transfer: there always, and empty where the id, a number, is undefined or 0.
unfoldable pub id_value : ⦃e : Ethers⦄ → Option ℤ → Result ClValue
id_value ⦃e⦄ id = elim (truthy_number id) [
  | none ↦ ok (cl_none (simple SimpleType.u64))
  | some n ↦ do value ← e.from_number n; ok (cl_some (simple SimpleType.u64) (cl_u64 value))
]

unfoldable pub insert_source : Option URef → Args → Args
insert_source none args = args
insert_source (some uref) args = insert (codes "source") (cl_uref uref) args

-- `TransferDeployItem.newTransfer`; a `TransferDeployItem` is its arguments. The id is a number.
unfoldable pub new_transfer :
    ⦃e : Ethers⦄ → ℤ → TransferDestination → Option URef → Option ℤ → Result Args
new_transfer amount target source_purse id =
    let args = insert_source source_purse (insert (codes "amount") (new_u512 amount) []) in
    do
      destination ← destination_value target
      transfer_id ← id_value id
      ok (insert (codes "id") transfer_id (insert (codes "target") destination args))

-- `newTransactionTargetFromSession`. A version is an integer; `isInstallUpgrade` stays undefined.
unfoldable pub target_from_session : DeployItem → TransactionTarget
target_from_session session = elim session.transfer [
  | some args ↦ native_target
  | none ↦ elim session.module_bytes [
    | some m ↦ session_target (record {
      module_bytes = m.module_bytes;
      runtime = vm_casper_v1;
      is_install_upgrade = false;
    })
    | none ↦ elim session.stored_contract_by_hash [
      | some c ↦ stored_target (record { id = hash_target c.name; runtime = vm_casper_v1 })
      | none ↦ elim session.stored_contract_by_name [
        | some c ↦ stored_target (record { id = name_target c.name; runtime = vm_casper_v1 })
        | none ↦ elim session.versioned_contract_by_hash [
          | some c ↦ stored_target (record {
            id =
                package_hash_target
                  (record { id = c.name; version = c.version; protocol_version_major = none });
            runtime = vm_casper_v1;
          })
          | none ↦ elim session.versioned_contract_by_name [
            | some c ↦ stored_target (record {
              id =
                  package_name_target
                    (record { id = c.name; version = c.version; protocol_version_major = none });
              runtime = vm_casper_v1;
            })
            | none ↦ record { native = false; stored = none; session = none }
          ]
        ]
      ]
    ]
  ]
]

-- The value that was inserted is found under its name.
pub get_by_name-insert :
    (name : Text) (value : ClValue) (args : Args)
    → get_by_name name (insert name value args) ≡ some value
unfolding get_by_name insert
get_by_name-insert name value [] = rw (text_eq_refl name)
get_by_name-insert name value (a ∷ args) = elim (Bool-cases (text_eq a.name name)) [
  | inl same ↦ rw (same, text_eq_refl name)
  | inr other ↦ rw (other, other) (get_by_name-insert name value args)
]
