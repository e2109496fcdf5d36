-- ===== src/Plugins/DigitalAsset/Guardian.antt =====
-- The guardian of a digital asset (digital-asset-contract/pdo/digital_asset/plugins/guardian.py).
use pdo_contracts.Base.{String, true, false, Option, none, some, [], ◌∷◌, ◌==◌}
use pdo_contracts.Base.Exec.{Action, Result, ok, lift, pure, ◌▷◌, ◌>>=◌}
use pdo_contracts.Base.Json.{Json, num, str, dict, as_str, json_eq}
use pdo_contracts.Plugins.Client.{Client, Kwargs, transact}
use pdo_contracts.Plugins.AssetType.{create, existing}
use pdo_contracts.Plugins.Ledger.{Ledger}
use pdo_contracts.Plugins.Storage.{Storage}
use pdo_contracts.Plugins.DataGuardian.{given_hash, issuer_code_hash}
use pdo_contracts.Plugins.DigitalAsset.{known_service}

module _ (K : Client) (D : Ledger K) (S : Storage K) where
  -- The image is put into a new store, and the store's blocks are sent to the contract's service.
  unfoldable pub store_image : String → K.Session → Action K.World S.Store
  store_image image session = do
    image_data ← S.read_bytes image
    new ← S.new_store
    kv ← S.set "_transfer_" image_data new
    found ← S.get_eservice_from_contract session
    eservice_client ← lift (known_service K S found)
    S.sync_to_block_store eservice_client kv

  unfoldable pub op_initialize :
      Option String
      → Option (String × Json)
      → Json
      → String
      → Json
      → K.Session
      → Action K.World String
  op_initialize code_hash token_issuer_code ledger_key image border session = do
    token_issuer_code_hash ←
        λ w. lift (issuer_code_hash K D (given_hash code_hash) token_issuer_code w) w
    kv ← store_image image (K.set_commit true session)
    let gparams = dict (
        ("ledger_verifying_key", ledger_key)
        ∷ ("token_issuer_code_hash", token_issuer_code_hash)
        ∷ [])
    transact K "initialize"
        (("guardian", gparams)
          ∷ ("public_border_width", border)
          ∷ ("encryption_key", S.encryption_key kv)
          ∷ ("state_hash", S.hash_identity kv)
          ∷ ("transfer_key", str "_transfer_")
          ∷ [])
        true session

  -- `context['image_file']` where no image is given
  abbrev image_of : K.Context → Option String → K.World → Result String
  image_of context (some image) w = ok image
  image_of context none w = K.context_item context "image_file" w ▷ as_str

  -- `v or 10`
  abbrev or_ten : Json → Json
  or_ten v = elim (v == num "0") [ true ↦ num "10" | false ↦ v ]

  abbrev configured_border : K.Context → K.World → Result Json
  configured_border context w =
      K.context_item context "image_border" w ▷ K.to_int ▷ λ v. ok (or_ten v)

  -- `if border is None or border == 0`
  abbrev border_of : K.Context → Option Json → K.World → Result Json
  border_of context none w = configured_border context w
  border_of context (some border) w = elim (border == num "0") [
    | true ↦ configured_border context w
    | false ↦ ok border
  ]

  -- The result is `None` where the context has a contract.
  abbrev create_asset_guardian :
      K.Context
      → Option String
      → Option Json
      → Kwargs
      → Option String
      → Action K.World (Option String)
  create_asset_guardian context given_image given_border kwargs (some _) = pure none
  create_asset_guardian context given_image given_border kwargs none = do
    image ← λ w. lift (image_of context given_image w) w
    border ← λ w. lift (border_of context given_border w) w
    ledger_key ← D.get_ledger_info
    save_file ← create K context "da_guardian" kwargs
    issuer_context ← λ w. lift (K.get_context context "token_issuer_context" w) w
    issuer_contract_source ← λ w. lift (K.context_item issuer_context "source" w) w
    _ ←
        K.invoke_contract_op
          (op_initialize none (some ("token_issuer", issuer_contract_source)) ledger_key image
            border)
          context (K.session_parameters save_file) kwargs
    pure (some save_file)

  unfoldable pub cmd_create_guardian :
      K.Context → Option String → Option Json → Kwargs → Action K.World (Option String)
  cmd_create_guardian context image border kwargs = do
    found ← λ w. lift (K.get_contract_from_context context w) w
    create_asset_guardian context image border kwargs (existing K found)
