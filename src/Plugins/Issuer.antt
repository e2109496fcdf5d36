-- ===== src/Plugins/Issuer.antt =====
-- Issuers (exchange-contract/pdo/exchange/plugins/issuer.py).
pub mod Authority
use pdo_contracts.Base.{String, ℕ, Bool, true, false, Option, none, some, List, [], ◌∷◌}
use pdo_contracts.Base.Exec.{Action, Result, ok, err, lift, pure, gets, modify, ◌>>=◌, ◌>>◌}
use pdo_contracts.Base.Json.{Json, null, str, is_null}
use pdo_contracts.Plugins.Client.{
  Client, Kwargs, transact, invoke_json, find_contract, find_contract_or_none, public_key,
}
use pdo_contracts.Plugins.AssetType.{create, found_or}
use pdo_contracts.Plugins.Vetting.{op_get_issuer_authority}

module _ (K : Client) where
  unfoldable pub op_initialize : Json → K.Session → Action K.World String
  op_initialize authority = transact K "initialize" (("asset_authority_chain", authority) ∷ []) true

  unfoldable pub op_get_authority : K.Session → Action K.World String
  op_get_authority = transact K "get_authority" [] false

  unfoldable pub op_get_balance : K.Session → Action K.World String
  op_get_balance = transact K "get_balance" [] false

  unfoldable pub op_get_entry : K.Session → Action K.World String
  op_get_entry = transact K "get_entry" [] false

  unfoldable pub op_issue : Json → Json → K.Session → Action K.World String
  op_issue owner count = transact K "issue" (("owner_identity", owner) ∷ ("count", count) ∷ []) true

  unfoldable pub op_transfer : Json → Json → K.Session → Action K.World String
  op_transfer new_owner count =
      transact K "transfer" (("new_owner_identity", new_owner) ∷ ("count", count) ∷ []) true

  -- Two messages: the attestation is asked for once the escrow is committed.
  unfoldable pub op_escrow : Json → Json → K.Session → Action K.World String
  op_escrow agent count session = do
    _ ← transact K "escrow" (("escrow_agent_identity", agent) ∷ ("count", count) ∷ []) true session
    transact K "escrow_attestation" (("escrow_agent_identity", agent) ∷ []) false session

  unfoldable pub op_release : Json → K.Session → Action K.World String
  op_release attestation = transact K "release" (("release_request", attestation) ∷ []) true

  unfoldable pub op_claim : Json → K.Session → Action K.World String
  op_claim attestation = transact K "claim" (("claim_request", attestation) ∷ []) true

  unfoldable pub cmd_create_issuer : K.Context → Kwargs → Action K.World String
  cmd_create_issuer context kwargs = found_or K context (do
    save_file ← create K context "issuer_contract" kwargs
    verifying_key ←
        invoke_json K K.op_get_verifying_key context (K.session_parameters save_file) kwargs
    modify (K.context_set context "verifying_key" verifying_key)
    pure save_file)

  -- The key that the context has, or the contract's.
  abbrev pub verifying_key_of : K.Context → String → Action K.World Json
  verifying_key_of context save_file = do
    verifying_key ← gets (K.context_get context "verifying_key" null)
    elim (is_null verifying_key) [
      | false ↦ pure verifying_key
      | true ↦ invoke_json K K.op_get_verifying_key context (K.session_parameters save_file) []
    ]

  unfoldable pub cmd_initialize_issuer : K.Context → Action K.World Bool
  cmd_initialize_issuer context = do
    save_file ←
        λ w. lift (find_contract K "issuer contract must be created and approved" context w) w
    verifying_key ← verifying_key_of context save_file
    vetting_context ← λ w. lift (K.get_context context "vetting_context" w) w
    vetting_save_file ← λ w.
        lift (find_contract_or_none K "vetting contract has not been created" vetting_context w) w
    authority ←
        invoke_json K (op_get_issuer_authority K verifying_key) vetting_context
          (K.session_parameters vetting_save_file) []
    _ ← K.invoke_contract_op (op_initialize authority) context (K.session_parameters save_file) []
    pure true

  abbrev pub initialized_issuer : K.Context → Action K.World String
  initialized_issuer context w =
      lift (find_contract K "issuer contract must be created and initialized" context w) w

  unfoldable pub cmd_issue_assets : K.Context → Json → Json → Kwargs → Action K.World Bool
  cmd_issue_assets context owner count kwargs = do
    save_file ← initialized_issuer context
    verifying_key ← λ w. lift (public_key K owner w) w
    _ ←
        K.invoke_contract_op (op_issue verifying_key count) context (K.session_parameters save_file)
          kwargs
    pure true

  unfoldable pub cmd_get_balance : K.Context → Kwargs → Action K.World String
  cmd_get_balance context kwargs = do
    save_file ← initialized_issuer context
    K.invoke_contract_op op_get_balance context (K.session_parameters save_file) kwargs

  unfoldable pub cmd_transfer_assets : K.Context → Json → Json → Kwargs → Action K.World Bool
  cmd_transfer_assets context new_owner count kwargs = do
    save_file ← initialized_issuer context
    new_owner_key ← λ w. lift (public_key K new_owner w) w
    _ ←
        K.invoke_contract_op (op_transfer new_owner_key count) context
          (K.session_parameters save_file) kwargs
    pure true
