-- ===== src/Plugins/TokenObject.antt =====
-- Token objects (exchange-contract/pdo/exchange/plugins/token_object.py).
pub mod Mint
pub mod Single
use pdo_contracts.Base.{
  String, Bool, true, false, if◌then◌else◌, ◌==◌, string_eq, Option, none, some, List, [], ◌∷◌,
}
use pdo_contracts.Base.Dict.{lookup}
use pdo_contracts.Base.Exec.{Action, Result, ok, err, other, lift, pure, ◌>>=◌}
use pdo_contracts.Base.Json.{Json, num, json_eq}
use pdo_contracts.Plugins.Client.{
  Client, Kwargs, transact, invoke_json, find_contract, find_contract_or_none, public_key,
}
use pdo_contracts.Plugins.DataGuardian.{op_process_capability}
use pdo_contracts.Plugins.Issuer.{op_transfer, initialized_issuer}

-- `kwargs.pop('count')`
unfoldable pub without_count : Kwargs → Kwargs
without_count [] = []
without_count ((k, v) ∷ kwargs) =
    let rest = without_count kwargs in if k == "count" then rest else (k, v) ∷ rest

-- `if 'count' in kwargs`: it must be 1, and is removed.
abbrev checked : Kwargs → Option Json → Result Kwargs
checked kwargs none = ok kwargs
checked kwargs (some count) = elim (count == num "1") [
  | true ↦ ok (without_count kwargs)
  | false ↦ err (other "unexpected count for token transfer")
]

abbrev pub single_count : Kwargs → Result Kwargs
single_count kwargs = checked kwargs (lookup "count" kwargs)

module _ (K : Client) where
  unfoldable pub op_initialize : Json → Json → Json → K.Session → Action K.World String
  op_initialize ledger_key initialization_package authority =
      transact K "initialize"
        (("ledger_verifying_key", ledger_key)
          ∷ ("initialization_package", initialization_package)
          ∷ ("asset_authority_chain", authority)
          ∷ [])
        true

  unfoldable pub op_echo : Json → K.Session → Action K.World String
  op_echo message = transact K "echo" (("message", message) ∷ []) false

  unfoldable pub cmd_transfer_assets : K.Context → Json → Kwargs → Action K.World String
  cmd_transfer_assets context new_owner given_kwargs = do
    save_file ← initialized_issuer K context
    verifying_key ← λ w. lift (public_key K new_owner w) w
    kwargs ← lift (single_count given_kwargs)
    _ ←
        K.invoke_contract_op (op_transfer K verifying_key (num "1")) context
          (K.session_parameters save_file) kwargs
    pure save_file

  -- `if dg_context['identity'] != context['identity'] : raise`
  abbrev same_identity : Json → Json → Result (Unit {0})
  same_identity a b = elim (a == b) [
    | true ↦ ok tt
    | false ↦ err (other "data guardian and token object must be created by the same identity")
  ]

  unfoldable pub cmd_echo : K.Context → Json → Kwargs → Action K.World String
  cmd_echo context message kwargs = do
    save_file ← λ w.
        lift (find_contract K "token object contract must be created and initialized" context w) w
    echo_capability ←
        invoke_json K (op_echo message) context (K.session_parameters save_file) kwargs
    dg_context ← λ w. lift (K.get_context context "data_guardian_context" w) w
    dg_identity ← λ w. lift (K.context_item dg_context "identity" w) w
    identity ← λ w. lift (K.context_item context "identity" w) w
    _ ← lift (same_identity dg_identity identity)
    dg_save_file ← λ w. lift (find_contract_or_none K "must create data guardian" dg_context w) w
    K.invoke_contract_op (op_process_capability K echo_capability) dg_context
        (K.session_parameters dg_save_file) kwargs
