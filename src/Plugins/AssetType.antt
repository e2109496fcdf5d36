-- ===== src/Plugins/AssetType.antt =====
-- Asset types (exchange-contract/pdo/exchange/plugins/asset_type.py).
pub mod Fields
use pdo_contracts.Base.{
  String, Bool, true, false, Option, none, some, List, [], ◌∷◌, ◌==◌, string_eq,
}
use pdo_contracts.Base.Exec.{Action, Result, ok, err, lift, gets, modify, pure, ◌>>=◌, ◌>>◌}
use pdo_contracts.Base.Json.{Json, str}
use pdo_contracts.Plugins.Client.{Client, Kwargs, transact}

module _ (K : Client) where
  unfoldable pub op_initialize : Json → Json → Json → K.Session → Action K.World String
  op_initialize description name link =
      transact K "initialize" (("name", name) ∷ ("description", description) ∷ ("link", link) ∷ [])
        true

  unfoldable pub op_get_asset_type_identifier : K.Session → Action K.World String
  op_get_asset_type_identifier = transact K "get_asset_type_identifier" [] false

  -- The three texts that are displayed; the result is `True`.
  unfoldable pub op_describe : K.Session → Action K.World (String × String × String)
  op_describe session = do
    name ← transact K "get_name" [] false session
    description ← transact K "get_description" [] false session
    link ← transact K "get_link" [] false session
    pure (name, description, link)

  -- Where a context has a contract already, with a name that is not empty, it is the result.
  abbrev pub existing : Option String → Option String
  existing none = none
  existing (some save_file) = elim (save_file == "") [ true ↦ none | false ↦ some save_file ]

  -- `create_contract_from_context`, and the new contract's file in the context
  abbrev pub create : K.Context → String → Kwargs → Action K.World String
  create context contract_class kwargs = do
    save_file ← K.create_contract_from_context context contract_class kwargs
    modify (K.context_set context "save_file" (str save_file))
    pure save_file

  abbrev unless_existing : Option String → Action K.World String → Action K.World String
  unless_existing none m = m
  unless_existing (some save_file) m = pure save_file

  -- `save_file = get_contract_from_context(context)`, `if save_file : return save_file`, and the rest
  abbrev pub found_or : K.Context → Action K.World String → Action K.World String
  found_or context m = do
    found ← λ w. lift (K.get_contract_from_context context w) w
    unless_existing (existing found) m

  unfoldable pub cmd_create_asset_type : K.Context → Kwargs → Action K.World String
  cmd_create_asset_type context kwargs = found_or context (do
    save_file ← create context "asset_type" kwargs
    name ← λ w. lift (K.context_item context "name" w) w
    description ← λ w. lift (K.context_item context "description" w) w
    link ← λ w. lift (K.context_item context "link" w) w
    -- the parameters in the order of the call
    _ ←
        K.invoke_contract_op (op_initialize name description link) context
          (K.session_parameters save_file) kwargs
    pure save_file)
