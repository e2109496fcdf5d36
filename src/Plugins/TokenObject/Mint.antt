-- ===== src/Plugins/TokenObject/Mint.antt =====
-- `cmd_mint_tokens` (exchange-contract/pdo/exchange/plugins/token_object.py).
pub mod Count
use pdo_contracts.Base.{
  String, ℕ, zero, suc, ◌+◌, ◌-◌, Bool, true, false, Option, none, some, List, [], ◌∷◌, ◌++◌, ◌<>◌,
  ◌==◌, length, ltb, num_eq, string_eq,
}
use pdo_contracts.Base.Exec.{
  Action, Result, ok, err, other, lift, pure, modify, gets, ◌>>=◌, ◌>>◌, ◌▷◌,
}
use pdo_contracts.Base.Json.{Json, num, str, dict, list_of, list_items, get_item, json_eq}
use pdo_contracts.Plugins.Client.{Client, Kwargs, invoke_json, find_contract_or_none}
use pdo_contracts.Plugins.Vetting.{op_approve_issuer, op_get_issuer_authority}
use pdo_contracts.Plugins.Ledger.{Ledger}
use pdo_contracts.Plugins.DataGuardian.{cmd_provision_token_object}
use pdo_contracts.Plugins.TokenIssuer.{op_mint_token_object, op_provision_token_object}
use pdo_contracts.Plugins.TokenObject.{op_initialize}

-- What a new token object is initialized with.
pub record Package : Type 0 where
  pub ledger_key : Json
  pub to_package : Json
  pub authority : Json

module _ (K : Client) (D : Ledger K) where
  abbrev object_session : String → K.Session
  object_session to_save_file = D.wait (K.session_parameters to_save_file)

  -- The token issuer gets the new contract as an endpoint and mints it.
  unfoldable pub mint_object :
      K.Context → Json → Json → Json → Json → K.Context → Action K.World String
  mint_object to_context contract_id ledger_attestation to_metadata to_code_metadata ti_context = do
    ti_save_file ← λ w.
        lift
          (find_contract_or_none K "must create token issuer prior to minting tokens" ti_context w)
          w
    _ ←
        K.invoke_contract_op
          (D.op_add_endpoint contract_id ledger_attestation to_metadata to_code_metadata) ti_context
          (K.session_parameters ti_save_file) []
    _ ←
        K.invoke_contract_op (op_mint_token_object K contract_id) ti_context
          (D.wait (K.session_parameters ti_save_file)) []
    pure ti_save_file

  -- The package of the guardian and the authority of the new contract.
  unfoldable pub package_object :
      Json → Json → Json → String → K.Context → K.Context → Kwargs → Action K.World Package
  package_object ledger_key contract_id to_metadata ti_save_file ti_context dg_context kwargs = do
    ti_contract_id ← D.contract_id ti_save_file
    state_attestation ← D.get_current_state_hash ti_contract_id
    signature ← lift (get_item state_attestation "signature")
    dg_package ←
        invoke_json K (op_provision_token_object K contract_id signature) ti_context
          (K.session_parameters ti_save_file) []
    verifying_key ← lift (get_item to_metadata "verifying_key")
    _ ←
        K.invoke_contract_op (op_approve_issuer K verifying_key) ti_context
          (K.session_parameters ti_save_file) []
    authority ←
        invoke_json K (op_get_issuer_authority K verifying_key) ti_context
          (K.session_parameters ti_save_file) []
    to_package ← K.invoke_contract_cmd (cmd_provision_token_object K dg_package) dg_context kwargs
    pure (record { ledger_key = ledger_key; to_package = to_package; authority = authority })

  unfoldable pub mint_one_token : K.Context → K.Context → K.Context → Kwargs → Action K.World String
  mint_one_token to_context ti_context dg_context kwargs = do
    ledger_key ← D.get_ledger_info
    to_save_file ← K.create_contract_from_context to_context "token_object" kwargs
    contract_id ← D.contract_id to_save_file
    ledger_attestation ← D.get_contract_info contract_id
    to_metadata ←
        invoke_json K D.op_get_contract_metadata to_context (object_session to_save_file) []
    to_code_metadata ←
        invoke_json K D.op_get_contract_code_metadata to_context (object_session to_save_file) []
    ti_save_file ←
        mint_object to_context contract_id ledger_attestation to_metadata to_code_metadata
          ti_context
    p ← package_object ledger_key contract_id to_metadata ti_save_file ti_context dg_context kwargs
    _ ←
        K.invoke_contract_op (op_initialize K p.ledger_key p.to_package p.authority) to_context
          (object_session to_save_file) kwargs
    pure to_save_file

  -- The context of one token, under the token object's.
  abbrev token_context : String → Json
  token_context to_save_file = dict (
      ("module", str "${..module}")
      ∷ ("identity", str "${..identity}")
      ∷ ("source", str "${..source}")
      ∷ ("token_issuer_context", str "@{..token_issuer_context}")
      ∷ ("data_guardian_context", str "@{..data_guardian_context}")
      ∷ ("save_file", str to_save_file)
      ∷ [])

  -- A round of the loop, for the tokens that there are.
  unfoldable pub mint_next :
      K.Context → K.Context → K.Context → Kwargs → List Json → Action K.World (List Json)
  mint_next context ti_context dg_context kwargs minted = do
    to_save_file ← mint_one_token context ti_context dg_context kwargs
    let minted' = minted ++ str to_save_file ∷ []
    modify (
        K.context_set context ("token_" <> D.format_number (length minted'))
          (token_context to_save_file))
    pure minted'

  -- `while len(minted_tokens) < token_count`, with fuel; `none` means that the fuel ran out.
  unfoldable pub mint_tokens :
      ℕ
      → K.Context
      → K.Context
      → K.Context
      → Kwargs
      → ℕ
      → List Json
      → Action K.World (Option (List Json))
  mint_tokens zero context ti_context dg_context kwargs token_count minted = pure none
  mint_tokens (suc fuel) context ti_context dg_context kwargs token_count minted =
      elim (ltb (length minted) token_count) [
        | false ↦ pure (some minted)
        | true ↦
            mint_next context ti_context dg_context kwargs minted
            >>= mint_tokens fuel context ti_context dg_context kwargs token_count
      ]

  -- `if a['identity'] != b['identity'] : raise`
  abbrev must_share_identity : String → K.Context → K.Context → Action K.World Unit
  must_share_identity message a b = do
    x ← λ w. lift (K.context_item a "identity" w) w
    y ← λ w. lift (K.context_item b "identity" w) w
    lift (elim (x == y) [ true ↦ ok tt | false ↦ err (other message) ])

  abbrev must_be_positive : ℕ → Result (Unit {0})
  must_be_positive n = elim (num_eq n 0) [
    | true ↦ err (other "invalid configuration, missing token count")
    | false ↦ ok tt
  ]

  -- The guards of the command: the contexts, the count, and the tokens that were minted before.
  unfoldable pub mint_configuration :
      K.Context → Action K.World (K.Context × K.Context × ℕ × List Json)
  mint_configuration context = do
    _ ← λ w. lift (K.get_contract_from_context context w) w
    token_issuer_context ← λ w. lift (K.get_context context "token_issuer_context" w) w
    must_share_identity "token issuer and token object must be created by the same identity"
        token_issuer_context context
    data_guardian_context ← λ w. lift (K.get_context context "data_guardian_context" w) w
    must_share_identity "data guardian and token object must be created by the same identity"
        data_guardian_context context
    count ← gets (K.context_get token_issuer_context "count" (num "0"))
    token_count ← lift (D.natural count)
    _ ← lift (must_be_positive token_count)
    listed ← gets (K.context_get context "token_save_file_list" (list_of []))
    minted ← lift (list_items listed)
    pure (token_issuer_context, data_guardian_context, token_count, minted)

  abbrev save_minted : K.Context → Option (List Json) → Action K.World (Option (List Json))
  save_minted context none = pure none
  save_minted context (some minted) = do
    modify (K.context_set context "token_save_file_list" (list_of minted))
    pure (some minted)

  unfoldable pub cmd_mint_tokens : K.Context → Kwargs → Action K.World (Option (List Json))
  cmd_mint_tokens context kwargs = do
    (ti_context, dg_context, token_count, minted) ← mint_configuration context
    result ←
        mint_tokens (suc (token_count - length minted)) context ti_context dg_context kwargs
          token_count minted
    save_minted context result
