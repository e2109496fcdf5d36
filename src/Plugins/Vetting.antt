-- ===== src/Plugins/Vetting.antt =====
-- Vetting organizations (exchange-contract/pdo/exchange/plugins/vetting.py).
use pdo_contracts.Base.{String, Bool, Option, none, some, true, false, [], ◌∷◌}
use pdo_contracts.Base.Exec.{Action, Result, ok, err, other, lift, pure, ◌>>=◌}
use pdo_contracts.Base.Json.{Json, null, is_null}
use pdo_contracts.Plugins.Client.{Client, Kwargs, transact, invoke_json}
use pdo_contracts.Plugins.AssetType.{
  op_get_asset_type_identifier, create, existing, found_or, cmd_create_asset_type,
}

module _ (K : Client) where
  unfoldable pub op_initialize : Json → K.Session → Action K.World String
  op_initialize type_id = transact K "initialize" (("asset_type_identifier", type_id) ∷ []) true

  unfoldable pub op_approve_issuer : Json → K.Session → Action K.World String
  op_approve_issuer issuer =
      transact K "add_approved_issuer" (("issuer_verifying_key", issuer) ∷ []) true

  unfoldable pub op_get_issuer_authority : Json → K.Session → Action K.World String
  op_get_issuer_authority issuer =
      transact K "get_issuer_authority" (("issuer_verifying_key", issuer) ∷ []) false

  -- The asset type's file: the context's, or that of a new asset type.
  abbrev asset_type_file : K.Context → Kwargs → Option String → Action K.World String
  asset_type_file context kwargs none =
      K.invoke_contract_cmd (cmd_create_asset_type K) context kwargs
  asset_type_file context kwargs (some save_file) = pure save_file

  unfoldable pub cmd_create_vetting_organization : K.Context → Kwargs → Action K.World String
  cmd_create_vetting_organization context kwargs = found_or K context (do
    asset_type_context ← λ w. lift (K.get_context context "asset_type_context" w) w
    asset_type ← λ w. lift (K.get_contract_from_context asset_type_context w) w
    asset_type_save_file ← asset_type_file asset_type_context kwargs (existing K asset_type)
    asset_type_id ←
        invoke_json K (op_get_asset_type_identifier K) asset_type_context
          (K.session_parameters asset_type_save_file) kwargs
    save_file ← create K context "vetting" kwargs
    _ ←
        K.invoke_contract_op (op_initialize asset_type_id) context (K.session_parameters save_file)
          kwargs
    pure save_file)

  -- The contract's key: what the command is given, or that of the issuer's context. Where the context
  -- has none the code calls `get_contract_from_context` without its second argument.
  abbrev issuer_context_key : Bool → Json → Result Json
  issuer_context_key true _ = err (other "no such context")
  issuer_context_key false verifying_key = elim (is_null verifying_key) [
    | true ↦ err (other "missing 1 required positional argument")
    | false ↦ ok verifying_key
  ]

  abbrev issuer_key : Option Json → Option String → K.World → Result Json
  issuer_key (some verifying_key) issuer w = ok verifying_key
  issuer_key none none w = err (other "missing required parameter for verifying key")
  issuer_key none (some issuer) w =
      let issuer_context = K.state_context issuer w in
      issuer_context_key (K.is_none issuer_context)
        (K.context_get issuer_context "verifying_key" null w)

  unfoldable pub cmd_approve_issuer :
      K.Context → Option Json → Option String → Kwargs → Action K.World String
  cmd_approve_issuer context verifying_key issuer kwargs = do
    found ← λ w. lift (K.get_contract_from_context context w) w
    save_file ← vetting_file (existing K found)
    key ← λ w. lift (issuer_key verifying_key issuer w) w
    _ ← K.invoke_contract_op (op_approve_issuer key) context (K.session_parameters save_file) kwargs
    pure save_file
    where
      vetting_file : Option String → Action K.World String
      vetting_file none = K.invoke_contract_cmd cmd_create_vetting_organization context kwargs
      vetting_file (some save_file) = pure save_file
