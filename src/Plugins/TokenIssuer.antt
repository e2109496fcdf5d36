-- ===== src/Plugins/TokenIssuer.antt =====
-- Token issuers (exchange-contract/pdo/exchange/plugins/token_issuer.py).
use pdo_contracts.Base.{String, true, false, Option, none, some, [], ◌∷◌, string_eq}
use pdo_contracts.Base.Dict.{lookup}
use pdo_contracts.Base.Exec.{Action, Result, ok, lift, pure, gets, ◌>>=◌}
use pdo_contracts.Base.Json.{Json, dict, str, get_item}
use pdo_contracts.Plugins.Client.{Client, Kwargs, transact, invoke_json}
use pdo_contracts.Plugins.AssetType.{create, existing, found_or}
use pdo_contracts.Plugins.Vetting.{
  op_get_issuer_authority, cmd_create_vetting_organization, cmd_approve_issuer,
}
use pdo_contracts.Plugins.Ledger.{Ledger}
use pdo_contracts.Plugins.DataGuardian.{given_hash, code_hash_of, cmd_provision_token_issuer}

-- The named arguments of the initialization.
pub record IssuerArguments : Type 0 where
  pub authority : Json
  pub code_hash : Option String
  pub object_class : String
  pub object_source : Json
  pub description : Json
  pub initialization_package : Json
  pub ledger_key : Json
  pub max_count : Json

-- `kwargs.get('metadata', {})`
abbrev metadata_of : Option Json → Json
metadata_of none = dict []
metadata_of (some j) = j

module _ (K : Client) where
  unfoldable pub op_mint_token_object : Json → K.Session → Action K.World String
  op_mint_token_object contract_id =
      transact K "mint_token_object" (("contract_id", contract_id) ∷ []) true

  unfoldable pub op_provision_token_object : Json → Json → K.Session → Action K.World String
  op_provision_token_object contract_id ledger_attestation =
      transact K "provision_minted_token_object"
        (("ledger_signature", ledger_attestation) ∷ ("contract_id", contract_id) ∷ []) false

module _ (K : Client) (D : Ledger K) where
  abbrev object_code_hash : Option String → String → Json → K.World → Result Json
  object_code_hash (some h) contract_class contract_source w = ok (str h)
  object_code_hash none contract_class contract_source w =
      code_hash_of K D contract_class contract_source w

  unfoldable pub op_initialize : IssuerArguments → Kwargs → K.Session → Action K.World String
  op_initialize a kwargs session = do
    token_object_code_hash ←
        λ w. lift (object_code_hash (given_hash a.code_hash) a.object_class a.object_source w) w
    transact K "initialize"
        (("token_description", a.description)
          ∷ ("token_metadata", metadata_of (lookup "metadata" kwargs))
          ∷ ("maximum_token_count", a.max_count)
          ∷ ("ledger_verifying_key", a.ledger_key)
          ∷ ("initialization_package", a.initialization_package)
          ∷ ("asset_authority_chain", a.authority)
          ∷ ("token_object_code_hash", token_object_code_hash)
          ∷ [])
        true session

  abbrev vetting_file : K.Context → Kwargs → Option String → Action K.World String
  vetting_file context kwargs none =
      K.invoke_contract_cmd (cmd_create_vetting_organization K) context kwargs
  vetting_file context kwargs (some save_file) = pure save_file

  -- The part of the command before the vetting: the new contract is an endpoint of the guardian.
  unfoldable pub provision_issuer :
      K.Context → String → Kwargs → Action K.World (Json × Json × Json)
  provision_issuer context save_file kwargs = do
    contract_id ← D.contract_id save_file
    ledger_key ← D.get_ledger_info
    ledger_attestation ← D.get_contract_info contract_id
    contract_metadata ←
        invoke_json K D.op_get_contract_metadata context (K.session_parameters save_file) kwargs
    verifying_key ← lift (get_item contract_metadata "verifying_key")
    code_metadata ←
        invoke_json K D.op_get_contract_code_metadata context (K.session_parameters save_file)
          kwargs
    guardian_context ← λ w. lift (K.get_context context "guardian_context" w) w
    provisioning_package ←
        K.invoke_contract_cmd
          (cmd_provision_token_issuer K D contract_id ledger_attestation contract_metadata
            code_metadata)
          guardian_context kwargs
    pure (ledger_key, verifying_key, provisioning_package)

  unfoldable pub cmd_create_token_issuer : K.Context → Kwargs → Action K.World String
  cmd_create_token_issuer context kwargs = found_or K context (do
    save_file ← create K context "token_issuer" kwargs
    (ledger_key, verifying_key, provisioning_package) ← provision_issuer context save_file kwargs
    vetting_context ← λ w. lift (K.get_context context "vetting_context" w) w
    found ← λ w. lift (K.get_contract_from_context vetting_context w) w
    vetting_save_file ← vetting_file vetting_context kwargs (existing K found)
    _ ←
        K.invoke_contract_cmd (λ c k. cmd_approve_issuer K c (some verifying_key) none k)
          vetting_context kwargs
    to_context ← λ w. lift (K.get_context context "token_object_context" w) w
    to_contract_source ← λ w. lift (K.context_item to_context "source" w) w
    authority ←
        invoke_json K (op_get_issuer_authority K verifying_key) vetting_context
          (K.session_parameters vetting_save_file) kwargs
    description ← λ w. lift (K.context_item context "description" w) w
    max_count ← λ w. lift (K.context_item context "count" w) w
    metadata ← gets (K.context_get context "token_metadata" (dict []))
    _ ←
        K.invoke_contract_op
          (op_initialize
            (record {
              authority = authority;
              code_hash = none;
              object_class = "token_object";
              object_source = to_contract_source;
              description = description;
              initialization_package = provisioning_package;
              ledger_key = ledger_key;
              max_count = max_count;
            })
            (("metadata", metadata) ∷ kwargs))
          context (K.session_parameters save_file) kwargs
    pure save_file)
