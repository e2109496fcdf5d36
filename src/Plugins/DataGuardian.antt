-- ===== src/Plugins/DataGuardian.antt =====
-- The guardian contracts (exchange-contract/pdo/exchange/plugins/guardian.py).
use pdo_contracts.Base.{
  String, true, false, if◌then◌else◌, Option, none, some, [], ◌∷◌, ◌<>◌, ◌==◌, string_eq,
}
use pdo_contracts.Base.Exec.{Action, Result, ok, err, other, lift, pure, ◌▷◌, ◌>>=◌}
use pdo_contracts.Base.Json.{Json, str, keywords}
use pdo_contracts.Plugins.Client.{Client, Kwargs, transact, invoke_json, find_contract}
use pdo_contracts.Plugins.AssetType.{create, existing}
use pdo_contracts.Plugins.Ledger.{Ledger}

-- `code_hash`, if it is given and not empty
abbrev pub given_hash : Option String → Option String
given_hash none = none
given_hash (some h) = if h == "" then none else some h

module _ (K : Client) where
  unfoldable pub op_provision_token_issuer : Json → K.Session → Action K.World String
  op_provision_token_issuer contract_id =
      transact K "provision_token_issuer" (("contract_id", contract_id) ∷ []) false

  -- The arguments are the entries of the package.
  unfoldable pub op_provision_token_object : Json → K.Session → Action K.World String
  op_provision_token_object provisioning_package session = do
    params ← lift (keywords provisioning_package)
    transact K "provision_token_object" params true session

  unfoldable pub op_process_capability : Json → K.Session → Action K.World String
  op_process_capability capability session = do
    params ← lift (keywords capability)
    transact K "process_capability" params false session

  unfoldable pub cmd_provision_token_object : Json → K.Context → Kwargs → Action K.World Json
  cmd_provision_token_object provisioning_package context kwargs = do
    save_file ← λ w. lift (find_contract K "guardian contract has not been created" context w) w
    invoke_json K (op_provision_token_object provisioning_package) context
        (K.session_parameters save_file) kwargs

module _ (K : Client) (D : Ledger K) where
  -- The hash of a contract's code and name, in base 64.
  abbrev pub code_hash_of : String → Json → K.World → Result Json
  code_hash_of contract_class contract_source w =
      D.create_from_file contract_class contract_source w ▷ λ file. ok (
        str (
          D.byte_array_to_base64
            (D.compute_message_hash (D.string_to_byte_array (file.0 <> file.1)))))

  abbrev pub issuer_code_hash : Option String → Option (String × Json) → K.World → Result Json
  issuer_code_hash (some h) code w = ok (str h)
  issuer_code_hash none (some (contract_class, contract_source)) w =
      code_hash_of contract_class contract_source w
  issuer_code_hash none none w =
      err (other "missing required parameter; must specify verifying key")

  unfoldable pub op_initialize :
      Option String → Option (String × Json) → Json → K.Session → Action K.World String
  op_initialize code_hash token_issuer_code ledger_key session = do
    token_issuer_code_hash ←
        λ w. lift (issuer_code_hash (given_hash code_hash) token_issuer_code w) w
    transact K "initialize"
        (("ledger_verifying_key", ledger_key)
          ∷ ("token_issuer_code_hash", token_issuer_code_hash)
          ∷ [])
        true session

  -- The result is `None` where the context has a contract.
  abbrev create_guardian : K.Context → Kwargs → Option String → Action K.World (Option String)
  create_guardian context kwargs (some _) = pure none
  create_guardian context kwargs none = do
    ledger_key ← D.get_ledger_info
    save_file ← create K context "guardian" kwargs
    issuer_context ← λ w. lift (K.get_context context "token_issuer_context" w) w
    issuer_contract_source ← λ w. lift (K.context_item issuer_context "source" w) w
    _ ←
        K.invoke_contract_op
          (op_initialize none (some ("token_issuer", issuer_contract_source)) ledger_key) context
          (K.session_parameters save_file) kwargs
    pure (some save_file)

  unfoldable pub cmd_create_guardian : K.Context → Kwargs → Action K.World (Option String)
  cmd_create_guardian context kwargs = do
    found ← λ w. lift (K.get_contract_from_context context w) w
    create_guardian context kwargs (existing K found)

  -- A guardian that was created has a file; `None` is the empty name here.
  abbrev created_file : Option String → String
  created_file none = ""
  created_file (some save_file) = save_file

  abbrev guardian_file : K.Context → Kwargs → Option String → Action K.World String
  guardian_file context kwargs (some save_file) = pure save_file
  guardian_file context kwargs none = do
    save_file ← K.invoke_contract_cmd cmd_create_guardian context kwargs
    pure (created_file save_file)

  unfoldable pub cmd_provision_token_issuer :
      Json → Json → Json → Json → K.Context → Kwargs → Action K.World Json
  cmd_provision_token_issuer contract_id ledger_attestation contract_metadata code_metadata context
        kwargs =
      do
        found ← λ w. lift (K.get_contract_from_context context w) w
        save_file ← guardian_file context kwargs (existing K found)
        _ ←
            K.invoke_contract_op
              (D.op_add_endpoint contract_id ledger_attestation contract_metadata code_metadata)
              context (K.session_parameters save_file) kwargs
        invoke_json K (op_provision_token_issuer K contract_id) context
            (K.session_parameters save_file) kwargs
