-- ===== src/Plugins/DigitalAsset.antt =====
-- Digital assets (digital-asset-contract/pdo/digital_asset/plugins/token_object.py and guardian.py).
pub mod Capability
pub mod Guardian
use pdo_contracts.Base.{
  String, Bool, true, false, if◌then◌else◌, Option, none, some, List, [], ◌∷◌, ◌==◌, string_eq, ℕ,
  num_eq,
}
use pdo_contracts.Base.Exec.{Action, Result, ok, err, other, lift, pure, gets, ◌▷◌, ◌>>=◌, ◌>>◌}
use pdo_contracts.Base.Json.{Json, num, str, dict, is_null, get_item, keywords, json_eq}
use pdo_contracts.Plugins.Client.{Client, Kwargs, transact, find_contract}
use pdo_contracts.Plugins.AssetType.{create, existing}
use pdo_contracts.Plugins.Ledger.{Ledger}
use pdo_contracts.Plugins.Storage.{Storage}
use pdo_contracts.Plugins.DataGuardian.{given_hash, code_hash_of}

module _ (K : Client) where
  -- The token's contract is asked for a capability by a method, and the guardian's is sent it. The entry
  -- `commit` of both sessions stays as it is.
  unfoldable pub send_capability : String → String → K.Session → Action K.World String
  send_capability method data_guardian session = do
    capability ← K.send_to_contract (K.invocation_request method []) session
    parsed ← lift (K.json_loads capability)
    params ← lift (keywords parsed)
    K.send_to_contract (K.invocation_request "process_capability" params)
        (K.session_parameters data_guardian)

  unfoldable pub op_get_image_metadata : String → K.Session → Action K.World String
  op_get_image_metadata = send_capability "get_image_metadata"

module _ (K : Client) (S : Storage K) where
  abbrev pub known_service : {A : Type 0} → Option A → Result A
  known_service none = err (other "unknown eservice")
  known_service (some s) = ok s

  -- `__save_image__`
  unfoldable pub save_image : K.Session → String → String → Action K.World Unit
  save_image session result filename = do
    parsed_result ← lift (K.json_loads result)
    found ← S.get_eservice_from_contract session
    eservice_client ← lift (known_service found)
    encryption_key ← lift (get_item parsed_result "encryption_key")
    kv ← S.open_store encryption_key
    state_hash ← lift (get_item parsed_result "state_hash")
    synced ← S.sync_from_block_store state_hash eservice_client kv
    transfer_key ← lift (get_item parsed_result "transfer_key")
    image_data ← S.get transfer_key synced
    S.write_bytes filename image_data

  -- `if image_file : __save_image__(...)`
  abbrev save_if_named : K.Session → String → Option String → Action K.World Unit
  save_if_named session result none = pure tt
  save_if_named session result (some filename) = elim (filename == "") [
    | true ↦ pure tt
    | false ↦ save_image session result filename
  ]

  abbrev get_image : String → String → Option String → K.Session → Action K.World String
  get_image method data_guardian image_file session = do
    result ← send_capability K method data_guardian session
    save_if_named (K.session_parameters data_guardian) result image_file
    pure result

  unfoldable pub op_get_public_image : String → Option String → K.Session → Action K.World String
  op_get_public_image = get_image "get_public_image"

  unfoldable pub op_get_original_image : String → Option String → K.Session → Action K.World String
  op_get_original_image = get_image "get_original_image"

  -- The file of the guardian's contract. It is not tested; `None` is the empty name here.
  abbrev file_or_empty : Option String → String
  file_or_empty none = ""
  file_or_empty (some f) = f

  -- The token's file and its guardian's.
  abbrev token_files : K.Context → Action K.World (String × String)
  token_files context = do
    save_file ← λ w. lift (find_contract K "token has not been created" context w) w
    guardian_context ← λ w. lift (K.get_context context "data_guardian_context" w) w
    guardian_save_file ← λ w. lift (K.get_contract_from_context guardian_context w) w
    pure (save_file, file_or_empty guardian_save_file)

  unfoldable pub cmd_get_image_metadata : K.Context → Kwargs → Action K.World String
  cmd_get_image_metadata context kwargs = do
    (save_file, guardian_save_file) ← token_files context
    K.invoke_contract_op (op_get_image_metadata K guardian_save_file) context
        (K.session_parameters save_file) kwargs

  unfoldable pub cmd_get_public_image : K.Context → String → Kwargs → Action K.World String
  cmd_get_public_image context image_file kwargs = do
    (save_file, guardian_save_file) ← token_files context
    K.invoke_contract_op (op_get_public_image guardian_save_file (some image_file)) context
        (K.session_parameters save_file) kwargs

  unfoldable pub cmd_get_original_image : K.Context → String → Kwargs → Action K.World String
  cmd_get_original_image context image_file kwargs = do
    (save_file, guardian_save_file) ← token_files context
    K.invoke_contract_op (op_get_original_image guardian_save_file (some image_file)) context
        (K.session_parameters save_file) kwargs
