-- ===== src/Tests/Notebooks.antt =====
-- The notebook support at concrete paths and key files.
use pdo_contracts.Base.{◌≡◌, refl, ap, ◌<>◌, some, none, [], ◌∷◌, arith, ne_of_compare, string_eq}
use pdo_contracts.Base.{String, List, ◌≢◌, ◌==◌, false, true}
use pdo_contracts.Base.Dict.{Dict}
use pdo_contracts.Base.Exec.{ok}
use pdo_contracts.Base.Json.{Json, bool, num, str}
use pdo_contracts.Jupyter.Notebooks.{
  Notebooks, find_contract_family, instantiate_in, instantiate_notebook_from_template, configure,
  new_configuration,
}
use pdo_contracts.Jupyter.Tokens.{TokenClient, IssuerForm, create_button_click, store_upload}
use pdo_contracts.Jupyter.Tokens.Creation.{Creates, create_button_click-Creates}
use pdo_contracts.Tests.Forms.{DropdownBox, toy_widgets}
use pdo_contracts.Jupyter.Notebooks.Environment.{configured, configure-configured}
use pdo_contracts.Base.Paths.{FilePath, path_eq, base_name}
use pdo_contracts.Base.Dict.{lookup}
use pdo_contracts.Jupyter.Family.{family_from}
use pdo_contracts.Jupyter.Notebooks.Instances.{find_contract_family-outside}
use pdo_contracts.Base.{ℕ}
use pdo_contracts.Jupyter.Keys.{Files}

unbound : (k : String) → "bind" ≢ k → ("bind" == k) ≡ false
unbound k ne = ground arith

-- `/home/nb` and `/home/nb/instances`.
abbrev root : FilePath
root = "nb" ∷ "home" ∷ []

abbrev instance_root : FilePath
instance_root = "instances" ∷ root

-- Two directories that hold a key of the same name.
abbrev pub files : Files
files = record {
  expand = λ d. d;
  glob = λ d pattern. (d <> pattern) ∷ [];
  realpath = λ f. f;
  identity = λ pattern f. "user";
  sort = λ l. l;
}

-- A notebook in the directory `/home/nb/instances/exchange/old`.
abbrev in_instance : Notebooks
in_instance = record {
  World = Unit {0};
  getcwd = λ w. "old" ∷ "exchange" ∷ instance_root;
  exists = λ path w. false;
  makedirs = λ path w. (ok tt, w);
  random_letters = λ n w. (ok "abcdef", w);
  execute_notebook = λ template instance_file parameters w. (ok tt, w);
  relpath = λ path w. base_name path;
  notebook_root = root;
  starts_with_root = λ path. true;
}

instantiated :
    instantiate_in in_instance "exchange" "mine" "order" [] tt ≡ (ok "order_abcdef.ipynb", tt)
unfolding instantiate_in
instantiated = refl

abbrev arguments : List (String × Json)
arguments = ("verbose", bool true) ∷ ("host", str "localhost") ∷ []

configure-configured_example :
    (d : Dict String Json) × (configure arguments (new_configuration "alice") ≡ ok d)
    × ((s : String) → lookup s d ≡ configured arguments [] (new_configuration "alice") s)
configure-configured_example = configure-configured "alice" arguments (
  unbound "verbose" (ne_of_compare "bind" "verbose" refl),
  (unbound "host" (ne_of_compare "bind" "host" refl), tt),
)

abbrev toy_tokens : TokenClient in_instance
toy_tokens = record {
  Context = Unit {0};
  collections = record {
    data_binding = λ w. none;
    save_binding = λ w. none;
    data_directory = λ w. "data";
    join = λ a b. a <> "/" <> b;
    export_collection = λ c paths cache file w. (ok tt, w);
    import_collection = λ context_file cache file w. (ok (str "collection"), w);
  };
  files = λ w. files;
  search_path = λ w. "keys" ∷ [];
  with_temporary = λ body. body "tmp";
  create_temporary = λ dir suffix w. (ok (dir <> suffix), w);
  write = λ name content w. (ok tt, w);
  is_word = λ text. true;
  expand = λ text w. text;
  join = λ a b. a <> "/" <> b;
  int_value = λ n. num "5";
  format_value = λ j. "token";
  exception_text = λ e. "error";
}

abbrev box : String → DropdownBox
box v = record { entries = v ∷ []; shown = v }

abbrev issuer_form : IssuerForm toy_widgets in_instance
issuer_form = record {
  issuer_identity = box "alice";
  eservice_group = box "default";
  pservice_group = box "default";
  sservice_group = box "default";
  token_class = "mine";
  token_description = "a token";
  count = 5;
  image_file = record { name = "image.bmp"; content = "BM" } ∷ [];
  border_width = 5;
  feedback = [];
  world = tt;
}

linked :
    create_button_click toy_widgets in_instance toy_tokens issuer_form
    ≡ some
        (ok tt, record issuer_form { feedback = "[Token Issuer](token_issuer_abcdef.ipynb)" ∷ [] })
unfolding create_button_click string_eq path_eq store_upload instantiate_notebook_from_template
    find_contract_family family_from instantiate_in
linked = refl

create_button_click-Creates_example :
    Creates toy_widgets in_instance toy_tokens issuer_form "exchange"
      (create_button_click toy_widgets in_instance toy_tokens issuer_form)
create_button_click-Creates_example =
    create_button_click-Creates toy_widgets in_instance toy_tokens
      (record { getcwd-create = λ dir suffix w. refl; getcwd-write = λ name content w. refl })
      "exchange" "old" issuer_form refl refl

-- `/home/nbx`, whose text starts with that of the root: the one directory that counts here.
abbrev beside : Notebooks
beside = record in_instance {
  getcwd = λ w. "nbx" ∷ "home" ∷ [];
  starts_with_root = λ path. path == ("nbx" ∷ "home" ∷ []);
}

find_contract_family-outside_example :
    (find_contract_family beside ("nbx" ∷ "home" ∷ []) ≡ none)
    × ((rounds : ℕ) → family_from rounds root instance_root ("nbx" ∷ "home" ∷ []) none ≡ none)
unfolding path_eq string_eq
find_contract_family-outside_example =
    find_contract_family-outside beside ("nbx" ∷ "home" ∷ []) refl (
      (λ p. ne_of_compare "nbx" "nb" refl (ap base_name p)),
      (λ p. cc),
      ((λ p. cc), (λ p. cc), ((λ p. cc), (λ p. cc))),
    )
