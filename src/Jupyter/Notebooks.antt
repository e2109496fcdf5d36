-- ===== src/Jupyter/Notebooks.antt =====
-- The environment of a notebook, its instances, and contract collections
-- (common-contract/pdo/contracts/jupyter/utility.py).
pub mod Environment
pub mod Instances
use pdo_contracts.Base.{
  String, ◌<>◌, ℕ, Bool, true, false, ◌+◌, Option, none, some, List, [], ◌∷◌, ◌++◌, length,
  string_eq, contains,
}
use pdo_contracts.Base.Dict.{Dict, lookup, insert, keys}
use pdo_contracts.Base.Exec.{
  Action, Result, ok, err, other, lift, gets, pure, or_key_error, ◌▷◌, ◌>>=◌, ◌>>◌,
}
use pdo_contracts.Base.Json.{Json, null, bool, str, list_items, list_of}
use pdo_contracts.Base.Paths.{FilePath}
use pdo_contracts.Context.{base_context}
use pdo_contracts.Jupyter.Family.{family_from}

abbrev pub default_configuration : Dict String Json
default_configuration =
    ("bind", list_of [])
    ∷ ("ledger", null)
    ∷ ("data_dir", null)
    ∷ ("source_dir", list_of [])
    ∷ ("key_dir", list_of [])
    ∷ ("service_db", null)
    ∷ ("groups_db", null)
    ∷ ("config", list_of [])
    ∷ ("client_identity", null)
    ∷ ("client_key_file", null)
    ∷ ("verbose", bool false)
    ∷ ("logfile", str "__screen__")
    ∷ ("loglevel", null)
    ∷ []

-- `configuration.bind += [(k, v)]`
abbrev pub add_binding : String → Json → Dict String Json → Result (Dict String Json)
add_binding k v configuration = or_key_error "bind" (lookup "bind" configuration) ▷ λ bind.
    list_items bind ▷ λ l.
    ok (insert "bind" (list_of (l ++ list_of (str k ∷ v ∷ []) ∷ [])) configuration)

-- `k in _default_configuration_`
abbrev pub is_setting : String → Bool
is_setting k = contains (keys default_configuration) k

-- The loop of `initialize_environment` over its further arguments
unfoldable pub configure : List (String × Json) → Dict String Json → Result (Dict String Json)
configure [] configuration = ok configuration
configure ((k, v) ∷ kwargs) configuration =
    (elim (is_setting k) [
      | true ↦ ok (insert k v configuration)
      | false ↦ add_binding k v configuration
    ])
    ▷ configure kwargs

abbrev pub new_configuration : String → Dict String Json
new_configuration identity = insert "bind" (list_of []) (
    insert "client_key_file" (str (identity <> "_private.pem"))
      (insert "client_identity" (str identity) default_configuration))

-- `initialize_environment`, for `initialize_environment` of the client's shell
unfoldable pub initialize_environment :
    {S E : Type 0}
    → (Dict String Json → Action S (Option E))
    → String
    → List (String × Json)
    → Action S E
initialize_environment shell identity kwargs = do
  configuration ← lift (configure kwargs (new_configuration identity))
  environment ← shell configuration
  lift (elim environment [
    | some e ↦ ok e
    | none ↦ err (other "failed to initialize the environment")
  ])

-- What the code uses of the file system, of chance, and of papermill.
pub record Notebooks : Type 1 where
  pub World : Type 0
  pub getcwd : World → FilePath
  pub exists : FilePath → World → Bool
  pub makedirs : FilePath → Action World Unit
  pub random_letters : ℕ → Action World String
  -- `pm.execute_notebook(..., prepare_only=True)`
  pub execute_notebook : FilePath → FilePath → Dict String Json → Action World Unit
  pub relpath : FilePath → World → String
  pub notebook_root : FilePath
  -- `current_path.startswith(notebook_root)`, of the texts of the paths
  pub starts_with_root : FilePath → Bool

module _ (N : Notebooks) where
  abbrev pub notebook_instance_root : FilePath
  notebook_instance_root = "instances" ∷ N.notebook_root

  abbrev pub contract_family_root : String → FilePath
  contract_family_root family = family ∷ N.notebook_root

  abbrev pub contract_family_template_root : String → FilePath
  contract_family_template_root family = "templates" ∷ contract_family_root family

  abbrev pub contract_family_instance_root : String → FilePath
  contract_family_instance_root family = family ∷ notebook_instance_root

  -- `find_contract_family`: `none` where the search never ends. A search that ends does so before it has
  -- left all the directories of the path.
  unfoldable pub find_contract_family : FilePath → Option (Result (Option String))
  find_contract_family current_path = elim (N.starts_with_root current_path) [
    | false ↦ some (err (other "AssertionError"))
    | true ↦
        elim (family_from (length current_path + 1) N.notebook_root notebook_instance_root
          current_path none) [ none ↦ none | some family ↦ some (ok family) ]
  ]

  abbrev pub instance_directory : String → String → FilePath
  instance_directory family contract_collection_name =
      contract_collection_name ∷ contract_family_instance_root family

  abbrev prepare : FilePath → FilePath → FilePath → Dict String Json → Action N.World Unit
  prepare template_file directory instance_file parameters = do
    is_there ← gets (N.exists instance_file)
    elim is_there [
      | true ↦ pure tt
      | false ↦ (do N.makedirs directory; N.execute_notebook template_file instance_file parameters)
    ]

  -- `instantiate_notebook_from_template` once the family is found
  unfoldable pub instantiate_in :
      String → String → String → Dict String Json → Action N.World String
  instantiate_in family contract_collection_name template_name instance_parameters = do
    let template_file = (template_name <> ".ipynb") ∷ contract_family_template_root family
    let directory = instance_directory family contract_collection_name
    instance_identifier ← N.random_letters 6
    let instance_file = (template_name <> "_" <> instance_identifier <> ".ipynb") ∷ directory
    let parameters = insert "instance_identifier" (str instance_identifier) instance_parameters
    prepare template_file directory instance_file parameters
    gets (N.relpath instance_file)

  -- A family of `None` cannot be joined to a path.
  abbrev pub with_family :
      String → String → Dict String Json → Result (Option String) → Action N.World String
  with_family collection template parameters (err e) w = (err e, w)
  with_family collection template parameters (ok none) w =
      (err (other "join() argument must be str, bytes, or os.PathLike object, not 'NoneType'"), w)
  with_family collection template parameters (ok (some family)) w =
      instantiate_in family collection template parameters w

  -- `instantiate_notebook_from_template`: `none` where it never ends
  unfoldable pub instantiate_notebook_from_template :
      String → String → Dict String Json → N.World → Option (Result String × N.World)
  instantiate_notebook_from_template collection template parameters w =
      elim (find_contract_family (N.getcwd w)) [
        | none ↦ none
        | some found ↦ some (with_family collection template parameters found w)
      ]

-- What exporting and importing use of the bindings, the state, and the commands for collections.
pub record Collections (World Context : Type 0) : Type 1 where
  pub data_binding : World → Option String
  pub save_binding : World → Option String
  pub data_directory : World → String
  pub join : String → String → String
  pub export_collection : Context → List String → String → String → Action World Unit
  pub import_collection : String → String → String → Action World Json

module _ {World Context : Type 0} (D : Collections World Context) where
  -- `bindings.get(name, default)`
  abbrev bound_or : Option String → String → String
  bound_or none default = default
  bound_or (some v) default = v

  abbrev data_of : World → String
  data_of w = bound_or (D.data_binding w) (D.data_directory w)

  abbrev contract_cache : World → String
  contract_cache w = bound_or (D.save_binding w) (D.join (data_of w) "__contract_cache__")

  -- The file, and what the caller's list of paths is afterwards: `+=` extends it in place.
  unfoldable pub export_contract_collection :
      Context → List String → String → Action World (String × List String)
  export_contract_collection context paths identifier = do
    data_directory ← gets data_of
    cache ← gets contract_cache
    let export_file = data_directory <> "/" <> identifier <> ".zip"
    let extended = paths ++ keys base_context
    D.export_collection context extended cache export_file
    pure (export_file, extended)

  unfoldable pub import_contract_collection : String → String → Action World Json
  import_contract_collection context_file import_file = do
    cache ← gets contract_cache
    D.import_collection context_file cache import_file
