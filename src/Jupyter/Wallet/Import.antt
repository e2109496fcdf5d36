-- ===== src/Jupyter/Wallet/Import.antt =====
-- The form that imports an issuer (ImportIssuerWidget of exchange-contract/pdo/exchange/jupyter/wallet.py).
use pdo_contracts.Base.{
  String, ◌<>◌, ◌==◌, string_eq, Bool, true, false, not, ◌&&◌, List, [], ◌∷◌, ◌++◌,
}
use pdo_contracts.Base.Exec.{Action, Result, ok, err, lift, gets, modify, ◌>>=◌, ◌>>◌}
use pdo_contracts.Base.Json.{Json, str, list_items, list_of}
use pdo_contracts.Plugins.Client.{Client}
use pdo_contracts.Jupyter.Widgets.{Widgets}
use pdo_contracts.Jupyter.Keys.{build_private_key_list}
use pdo_contracts.Jupyter.Keys.Forms.{or_unspecified, show_first}
use pdo_contracts.Jupyter.Notebooks.{Collections, import_contract_collection}
use pdo_contracts.Jupyter.Wallet.{WalletClient}

-- What the form uses beside the wallet.
pub record ImportClient (K : Client) : Type 1 where
  pub collections : Collections K.World K.Context
  -- `with tempfile.NamedTemporaryFile() as fp`: the body, for its name
  pub with_temporary : {A : Type 0} → (String → Action K.World A) → Action K.World A
  -- `fp.write`, to a file that stays open, with what is then still in its buffer
  pub write : String → String → Action K.World Unit
  -- `re.match(r'^\w+$', text)`
  pub is_word : String → Bool
  -- `pbuilder.Context.SaveContextFile(state, context_file, prefix=path)`
  pub save_context_file : String → String → Action K.World Unit

-- A file that was picked.
pub record Upload : Type 0 where
  pub name : String
  pub content : String

pub record ImportForm (W : Widgets) (K : Client) : Type 0 where
  pub identity : W.Dropdown
  pub import_file : List Upload
  pub asset_handle : String
  pub feedback : List String
  pub world : K.World

module _ (W : Widgets) (K : Client) (C : WalletClient K) (I : ImportClient K)
    (context_file wallet_path : String) where
  abbrev Importer : Type 0
  Importer = Action (ImportForm W K) Unit

  abbrev in_world : {A : Type 0} → Action K.World A → Action (ImportForm W K) A
  in_world m f = let (r, w) = m f.world in (r, record f { world = w })

  abbrev say : String → Importer
  say line = modify (λ f. record f { feedback = f.feedback ++ line ∷ [] })

  abbrev clear_feedback : Importer
  clear_feedback = modify (λ f. record f { feedback = [] })

  unfoldable pub clear_widget : Importer
  clear_widget = modify (λ f. record f { asset_handle = ""; import_file = [] })

  unfoldable pub refresh_importer : Importer
  refresh_importer = do
    clear_widget
    clear_feedback
    keys ←
        gets
          (λ f. or_unspecified (build_private_key_list (C.files f.world) (C.search_path f.world)))
    modify (λ f. record f { identity = W.set_options keys f.identity })
    identity ← λ f. lift (show_first W (C.files f.world) keys f.identity) f
    modify (λ f. record f { identity = identity })

  -- The collection, by way of two temporary files.
  abbrev import_upload : Upload → Action K.World Json
  import_upload upload = I.with_temporary (λ asset_import_file. do
    I.write asset_import_file upload.content
    I.with_temporary (λ asset_context_file.
        import_contract_collection I.collections asset_context_file asset_import_file))

  -- The wallet's context with the asset: its collection, its identity, and its handle in the list.
  abbrev pub merge_asset : String → Json → String → Action K.World Unit
  merge_asset asset_path asset_context identity = do
    let context = K.open_context wallet_path
    modify (K.context_set context asset_path asset_context)
    modify (K.context_set context (asset_path <> ".identity") (str identity))
    handles ← λ w. lift (list_items (K.context_get context "asset_list" (list_of []) w)) w
    modify (K.context_set context "asset_list" (list_of (handles ++ str asset_path ∷ [])))

  -- What the `try` covers.
  unfoldable pub import_asset : Upload → String → String → Action K.World Unit
  import_asset upload asset_path identity = do
    asset_context ← import_upload upload
    merge_asset asset_path asset_context identity

  abbrev after_import : String → Result (Unit {0}) → Importer
  after_import import_name (err e) = say ("failed to import the file; " <> C.exception_text e)
  after_import import_name (ok _) = do
    in_world (I.save_context_file context_file wallet_path)
    clear_widget
    say ("imported issuer contract information from " <> import_name)

  abbrev import_first : List Upload → Importer
  import_first [] f = say "No file specified" f
  import_first (upload ∷ _) f =
      let (r, f') = in_world (import_asset upload f.asset_handle (W.value f.identity)) f in
      after_import upload.name r f'

  unfoldable pub import_button_click : Importer
  import_button_click = do
    clear_feedback
    asset_handle ← gets (λ f. f.asset_handle)
    files ← gets (λ f. f.import_file)
    elim (not (asset_handle == "") && I.is_word asset_handle) [
      | false ↦ say "Asset name must be a alphanumeric"
      | true ↦ import_first files
    ]
