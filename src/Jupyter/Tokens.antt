-- ===== src/Jupyter/Tokens.antt =====
-- The forms that import a token and create a token issuer
-- (digital-asset-contract/pdo/digital_asset/jupyter/token.py and token_issuer.py).
pub mod Made
pub mod Creation
use pdo_contracts.Base.{
  String, ◌<>◌, ◌==◌, string_eq, ℕ, Bool, true, false, not, ◌&&◌, Option, none, some, List, [], ◌∷◌,
  ◌++◌,
}
use pdo_contracts.Base.Dict.{Dict}
use pdo_contracts.Base.Exec.{
  Action, Result, Exn, ok, err, other, lift, gets, modify, pure, ◌>>=◌, ◌>>◌,
}
use pdo_contracts.Base.Json.{Json, str, get_or_none}
use pdo_contracts.Jupyter.Widgets.{Widgets}
use pdo_contracts.Jupyter.Keys.{Files, build_private_key_list}
use pdo_contracts.Jupyter.Keys.Forms.{or_unspecified, show_first}
use pdo_contracts.Jupyter.Notebooks.{
  Notebooks, Collections, import_contract_collection, instantiate_notebook_from_template,
}
use pdo_contracts.Jupyter.Wallet.Import.{Upload}

-- What the forms use beside the notebooks.
pub record TokenClient (N : Notebooks) : Type 1 where
  pub Context : Type 0
  pub collections : Collections N.World Context
  pub files : N.World → Files
  pub search_path : N.World → List String
  -- `with tempfile.NamedTemporaryFile() as fp`: the body, for its name
  pub with_temporary : {A : Type 0} → (String → Action N.World A) → Action N.World A
  -- `NamedTemporaryFile(mode="wb", dir=datadir, suffix=suffix, delete=False)`: the name of a file that stays
  pub create_temporary : String → String → Action N.World String
  -- `fp.write`, before the end of the file's block
  pub write : String → String → Action N.World Unit
  -- `re.match(r'^\w+$', text)`
  pub is_word : String → Bool
  -- `bindings.expand`, and `os.path.join`
  pub expand : String → N.World → String
  pub join : String → String → String
  -- Numbers as values of Python, and values and exceptions as text.
  pub int_value : ℕ → Json
  pub format_value : Json → String
  pub exception_text : Exn → String

-- DigitalAssetImportWidget
pub record TokenForm (W : Widgets) (N : Notebooks) : Type 0 where
  pub identity : W.Dropdown
  pub import_file : List Upload
  pub token_class : String
  pub feedback : List String
  pub world : N.World

-- DigitalAssetIssuerWidget, with the drop-downs of the widgets that select
pub record IssuerForm (W : Widgets) (N : Notebooks) : Type 0 where
  pub issuer_identity : W.Dropdown
  pub eservice_group : W.Dropdown
  pub pservice_group : W.Dropdown
  pub sservice_group : W.Dropdown
  pub token_class : String
  pub token_description : String
  pub count : ℕ
  pub image_file : List Upload
  pub border_width : ℕ
  pub feedback : List String
  pub world : N.World

module _ (W : Widgets) (N : Notebooks) (T : TokenClient N) where
  -- What a click does to a form, or `none` where it never ends.
  abbrev pub Click : Type 0 → Type 0
  Click F = Option (Result (Unit {0}) × F)

  -- `token_class and re.match(r'^\w+$', token_class)`
  abbrev pub is_class : String → Bool
  is_class token_class = not (token_class == "") && T.is_word token_class

  abbrev tell : String → TokenForm W N → TokenForm W N
  tell line f = record f { feedback = f.feedback ++ line ∷ [] }

  abbrev clear_form : TokenForm W N → TokenForm W N
  clear_form f = record f { token_class = ""; import_file = [] }

  -- `DigitalAssetImportWidget.refresh_button_click`
  unfoldable pub refresh_token_form : Action (TokenForm W N) Unit
  refresh_token_form = do
    modify (λ f. record (clear_form f) { feedback = [] })
    keys ←
        gets
          (λ f. or_unspecified (build_private_key_list (T.files f.world) (T.search_path f.world)))
    modify (λ f. record f { identity = W.set_options keys f.identity })
    identity ← λ f. lift (show_first W (T.files f.world) keys f.identity) f
    modify (λ f. record f { identity = identity })

  -- What the `try` covers.
  unfoldable pub import_token : String → String → Action N.World Json
  import_token content context_file = T.with_temporary (λ import_file. do
    T.write import_file content
    import_contract_collection T.collections context_file import_file)

  abbrev token_parameters : TokenForm W N → Json → String → Dict String Json
  token_parameters f token_name context_file =
      ("token_owner", str (W.value f.identity))
      ∷ ("token_class", str f.token_class)
      ∷ ("token_name", token_name)
      ∷ ("context_file", str context_file)
      ∷ []

  -- The link to the notebook, and a clear form.
  abbrev link_token :
      Json → Option (Result String × N.World) → TokenForm W N → Click (TokenForm W N)
  link_token token_name none f = none
  link_token token_name (some (err e, w)) f = some (err e, record f { world = w })
  link_token token_name (some (ok instance_file, w)) f = some (
    ok tt,
    clear_form (
        tell ("[Token " <> T.format_value token_name <> "](" <> instance_file <> ")")
          (record f { world = w })),
  )

  abbrev open_token : String → Result Json → TokenForm W N → Click (TokenForm W N)
  open_token context_file (err e) f = some (err e, f)
  open_token context_file (ok token_name) f =
      link_token token_name
        (instantiate_notebook_from_template N f.token_class "token"
          (token_parameters f token_name context_file) f.world)
        f

  abbrev after_token_import : String → Result Json → TokenForm W N → Click (TokenForm W N)
  after_token_import context_file (err e) f =
      some (ok tt, tell ("failed to import the file; " <> T.exception_text e) f)
  after_token_import context_file (ok token_context) f =
      open_token context_file (get_or_none token_context "token_name") f

  abbrev import_first_token : List Upload → TokenForm W N → Click (TokenForm W N)
  import_first_token [] f = some (ok tt, tell "No file specified" f)
  import_first_token (upload ∷ _) f =
      let context_file = T.join (T.expand "${etc}" f.world) (f.token_class <> "_context.toml") in
      let (r, w) = import_token upload.content context_file f.world in
      after_token_import context_file r (record f { world = w })

  -- `DigitalAssetImportWidget.import_button_click`
  unfoldable pub import_token_click : TokenForm W N → Click (TokenForm W N)
  import_token_click f =
      let f₀ = record f { feedback = [] } in
      elim (is_class f.token_class) [
        | false ↦ some (ok tt, tell "Asset name must be a alphanumeric" f₀)
        | true ↦ import_first_token f.import_file f₀
      ]

  -- The two assertions: no selection is an empty text.
  abbrev pub is_selected : IssuerForm W N → Bool
  is_selected f =
      not (W.value f.eservice_group == "")
      && not (W.value f.pservice_group == "")
      && not (W.value f.sservice_group == "")
      && not (W.value f.issuer_identity == "")

  abbrev write_first : String → List Upload → Action N.World Unit
  write_first image_file_name [] w = (err (other "tuple index out of range"), w)
  write_first image_file_name (upload ∷ _) w = T.write image_file_name upload.content w

  -- The file of the image, which is kept.
  unfoldable pub store_upload : List Upload → Action N.World String
  store_upload uploads = do
    datadir ← gets (T.expand "${data}")
    image_file_name ← T.create_temporary datadir ".bmp"
    write_first image_file_name uploads
    pure image_file_name

  abbrev pub issuer_parameters : IssuerForm W N → String → Dict String Json
  issuer_parameters f image_file_name =
      ("token_owner", str (W.value f.issuer_identity))
      ∷ ("token_class", str f.token_class)
      ∷ ("token_description", str f.token_description)
      ∷ ("count", T.int_value f.count)
      ∷ ("eservice_group", str (W.value f.eservice_group))
      ∷ ("pservice_group", str (W.value f.pservice_group))
      ∷ ("sservice_group", str (W.value f.sservice_group))
      ∷ ("border_width", T.int_value f.border_width)
      ∷ ("image_file", str image_file_name)
      ∷ []

  abbrev pub link_issuer :
      Option (Result String × N.World) → IssuerForm W N → Click (IssuerForm W N)
  link_issuer none f = none
  link_issuer (some (err e, w)) f = some (err e, record f { world = w })
  link_issuer (some (ok instance_file, w)) f =
      some
        (ok tt, record f { feedback = ("[Token Issuer](" <> instance_file <> ")") ∷ []; world = w })

  abbrev pub open_issuer : Result String × N.World → IssuerForm W N → Click (IssuerForm W N)
  open_issuer (err e, w) f = some (err e, record f { world = w })
  open_issuer (ok image_file_name, w) f =
      link_issuer
        (instantiate_notebook_from_template N f.token_class "token_issuer"
          (issuer_parameters f image_file_name) w)
        f

  -- `DigitalAssetIssuerWidget.create_button_click`
  unfoldable pub create_button_click : IssuerForm W N → Click (IssuerForm W N)
  create_button_click f =
      let f₀ = record f { feedback = [] } in
      elim (is_class f.token_class) [
        | false ↦ some (ok tt, record f { feedback = "must specify value for token class" ∷ [] })
        | true ↦ elim (is_selected f) [
          | false ↦ some (err (other "AssertionError"), f₀)
          | true ↦ open_issuer (store_upload f.image_file f.world) f₀
        ]
      ]
