-- ===== src/Jupyter/Keys/Forms.antt =====
-- The forms for keys (common-contract/pdo/contracts/jupyter/keys.py): selection, generation, upload.
use pdo_contracts.Base.{
  String, ◌<>◌, ◌==◌, string_eq, Bool, true, false, not, ◌&&◌, List, [], ◌∷◌, ◌++◌,
}
use pdo_contracts.Base.Exec.{Action, Result, ok, gets, modify, pure, ◌>>=◌, ◌>>◌}
use pdo_contracts.Jupyter.Keys.{Files, build_public_key_list, build_private_key_list}
use pdo_contracts.Jupyter.Widgets.{Widgets}

-- `ServiceKeys` of PDO, files, and what the code uses of `os.path` and `re`.
pub record KeyFiles : Type 1 where
  pub World : Type 0
  pub ServiceKeys : Type 0
  pub create_service_keys : Action World ServiceKeys
  pub save_to_file : ServiceKeys → String → Action World Unit
  -- `open(filename, "wb").write(content)`
  pub write_bytes : String → String → Action World Unit
  -- `os.path.join`, and `bindings.expand`
  pub join : String → String → String
  pub expand : String → String
  -- `re.match(r'^\w+$', identity)`
  pub is_word : String → Bool

-- `build_private_key_list(...) or ['unspecified']`, of the forms that import
abbrev pub or_unspecified : List String → List String
or_unspecified [] = "unspecified" ∷ []
or_unspecified (key ∷ keys) = key ∷ keys

module _ (W : Widgets) (F : Files) where
  abbrev pub or_unknown_key : List String → List String
  or_unknown_key [] = "unknown" ∷ []
  or_unknown_key (key ∷ keys) = key ∷ keys

  -- `KeySelectionWidget.create_key_list`
  unfoldable pub create_key_list : Bool → List String → List String
  create_key_list true search_path = or_unknown_key (build_public_key_list F search_path)
  create_key_list false search_path = or_unknown_key (build_private_key_list F search_path)

  abbrev pub show_first : List String → W.Dropdown → Result W.Dropdown
  show_first [] d = ok d
  show_first (key ∷ keys) d = W.set_value key d

  -- `KeySelectionWidget.refresh_button_click`: the drop-down, or the exception
  unfoldable pub refresh_keys : Bool → List String → W.Dropdown → Result W.Dropdown
  refresh_keys is_public search_path dropdown =
      let keys = create_key_list is_public search_path in
      show_first keys (W.set_options keys dropdown)

-- A form with the text for an identity, the type of a key, the files that were picked, by their content,
-- and the lines in its feedback.
pub record KeyForm (K : KeyFiles) : Type 0 where
  pub key : String
  pub key_type : String
  pub key_file : List String
  pub feedback : List String
  pub world : K.World

module _ (K : KeyFiles) where
  unfoldable pub generate_key_pair : String → String → Action K.World (String × String)
  generate_key_pair save_path identity = do
    let keyfile = K.join (K.expand save_path) identity
    service_key ← K.create_service_keys
    K.save_to_file service_key keyfile
    pure (keyfile <> "_private.pem", keyfile <> "_public.pem")

  abbrev on_files : {A : Type 0} → Action K.World A → Action (KeyForm K) A
  on_files m f = let (r, w) = m f.world in (r, record f { world = w })

  abbrev report : String → Action (KeyForm K) Unit
  report line = modify (λ f. record f { feedback = f.feedback ++ line ∷ [] })

  -- `identity and re.match(r'^\w+$', identity)`
  abbrev is_identity : String → Bool
  is_identity identity = not (identity == "") && K.is_word identity

  -- `GenerateKeyWidget.generate_button_click`
  unfoldable pub generate_button_click : Action (KeyForm K) Unit
  generate_button_click = do
    identity ← gets (λ f. f.key)
    elim (is_identity identity) [
      | true ↦ (do
        _ ← on_files (generate_key_pair "${keys}" identity)
        report ("keys created for " <> identity))
      | false ↦ report ("invalid identity " <> identity)
    ]
    modify (λ f. record f { key = "" })

  -- `UploadKeyWidget.upload_button_click` once the form is filled in, for the first of the files
  unfoldable pub upload_key : String → Action (KeyForm K) Unit
  upload_key content = do
    filename ← gets (λ f. K.join (K.expand "${keys}") (f.key <> "_" <> f.key_type <> ".pem"))
    on_files (K.write_bytes filename content)
    report ("keys uploaded to " <> filename)
    modify (λ f. record f { key = ""; key_type = "public"; key_file = [] })

  abbrev upload_first : List String → Action (KeyForm K) Unit
  upload_first [] = report "No file specified"
  upload_first (content ∷ _) = upload_key content

  -- `UploadKeyWidget.upload_button_click`
  unfoldable pub upload_button_click : Action (KeyForm K) Unit
  upload_button_click = do
    modify (λ f. record f { feedback = [] })
    identity ← gets (λ f. f.key)
    files ← gets (λ f. f.key_file)
    elim (is_identity identity) [
      | true ↦ upload_first files
      | false ↦ report "Identity must be alphanumeric"
    ]
