-- ===== src/Jupyter/Services.antt =====
-- The services that the notebooks know, and the box to select some of them
-- (common-contract/pdo/contracts/jupyter/services.py).
use pdo_contracts.Base.{String, true, false, List, [], ◌∷◌, contains, string_eq, if◌then◌else◌}
use pdo_contracts.Base.Dict.{Dict, insert, keys}
use pdo_contracts.Base.Exec.{Action, Result, ok, err, other, lift, gets, modify, ◌▷◌, ◌>>=◌, ◌>>◌}
use pdo_contracts.Base.Json.{Json}
use pdo_contracts.Jupyter.Widgets.{Widgets}

-- The databases of services and of their groups (pdo.service_client), and the command that adds a group.
pub record Database : Type 1 where
  pub World : Type 0
  pub Info : Type 0
  pub service_types : List String
  pub list_services : String → World → List (String × Info)
  pub serialize : Info → Json
  pub list_groups : String → World → List (String × Info)
  pub import_service_information : Json → Action World Unit
  pub add_group : String → String → List String → Dict String Json → Action World Unit
  -- The keys are byte strings; `decode` reads them as text.
  pub decode : String → Result String
  -- `list.sort`
  pub sort : List String → List String
  -- `toml.loads(codecs.decode(content, encoding='utf-8'))`
  pub toml_loads : String → Result Json

-- The label of a type of service; another is a KeyError.
unfoldable pub service_labels : Dict String String
service_labels =
    ("eservice", "Enclave Service")
    ∷ ("pservice", "Provisioning Service")
    ∷ ("sservice", "Storage Service")
    ∷ []

module _ (D : Database) where
  abbrev pub must_be_known : String → Result (Unit {0})
  must_be_known service_type = elim (contains D.service_types service_type) [
    | true ↦ ok tt
    | false ↦ err (other "Unknown service type")
  ]

  -- A dictionary of what a list holds, the last for a name.
  abbrev pub add_all : List (String × D.Info) → Dict String Json → Dict String Json
  add_all [] d = d
  add_all ((name, info) ∷ rest) d = add_all rest (insert name (D.serialize info) d)

  unfoldable pub build_services_map : String → D.World → Result (Dict String Json)
  build_services_map service_type w =
      must_be_known service_type ▷ λ _. ok (add_all (D.list_services service_type w) [])

  unfoldable pub build_services_list : String → D.World → Result (List String)
  build_services_list service_type w =
      build_services_map service_type w ▷ λ services_info_map. ok (keys services_info_map)

  abbrev decode_all : List String → Result (List String)
  decode_all [] = ok []
  decode_all (s ∷ rest) = D.decode s ▷ λ text. decode_all rest ▷ λ texts. ok (text ∷ texts)

  -- `ServiceSelectionWidget.create_service_list`; the map is never `None`.
  unfoldable pub create_service_list : String → D.World → Result (List String)
  create_service_list service_type w = build_services_map service_type w ▷ λ services_info_map.
      decode_all (keys services_info_map) ▷ λ texts. ok (D.sort texts)

-- A box of services with a drop-down that follows it: what the group forms have in common.
pub record Chooser (W : Widgets) : Type 0 where
  pub service_list : W.SelectMultiple
  pub choice : W.Dropdown

module _ (W : Widgets) where
  -- What a selection leaves to choose from.
  abbrev pub available : List String → List String
  available [] = "unknown" ∷ []
  available (url ∷ urls) = url ∷ urls

  -- `if value not in selection : value = selection[0]`
  abbrev pub kept_or_first : String → List String → String
  kept_or_first value [] = value
  kept_or_first value (url ∷ urls) = if contains (url ∷ urls) value then value else url

  abbrev set_choice : String → Action (Chooser W) Unit
  set_choice value c = elim (W.set_value value c.choice) [
    | ok d ↦ (ok tt, record c { choice = d })
    | err e ↦ (err e, c)
  ]

  -- `update_preferred_list` and `update_persistent_list`, on a change of the value
  unfoldable pub update_list : Action (Chooser W) Unit
  update_list = do
    value ← gets (λ c. W.value c.choice)
    selection ← gets (λ c. available (W.selection c.service_list))
    modify (λ c. record c { choice = W.set_options selection c.choice })
    set_choice (kept_or_first value selection)

  -- The box takes a new state, and its observer is called on a change.
  unfoldable pub change_services : W.SelectMultiple → Action (Chooser W) Unit
  change_services box c = elim (W.notifies (W.selection c.service_list) (W.selection box)) [
    | true ↦ update_list (record c { service_list = box })
    | false ↦ (ok tt, record c { service_list = box })
  ]

  -- `service_list.value = urls`, also by the user
  unfoldable pub select_services : List String → Action (Chooser W) Unit
  select_services urls c = elim (W.set_selection urls c.service_list) [
    | ok box ↦ change_services box c
    | err e ↦ (err e, c)
  ]

  -- `service_list.options = urls`, of the refresh button
  unfoldable pub offer_services : List String → Action (Chooser W) Unit
  offer_services urls c = change_services (W.set_choices urls c.service_list) c

  -- `ServiceSelectionWidget.reset_widget`, for the services that there are, then the drop-down's
  unfoldable pub reset_services : List String → Action (Chooser W) Unit
  reset_services urls = do
    offer_services urls
    select_services []
    modify (λ c. record c { choice = W.set_options ("unknown" ∷ []) c.choice })
    set_choice "unknown"

  -- The user chooses from the drop-down.
  unfoldable pub choose : String → Action (Chooser W) Unit
  choose = set_choice

-- `ServiceUploadWidget.on_button_click`: the files that were picked, the first of which is read.
module _ (D : Database) where
  abbrev imported : Result (Unit {0}) → List String
  imported (ok _) = "Service data imported" ∷ []
  imported (err e) = "Unable to import service data" ∷ []

  -- What is printed. The exception's text is left out, and the files are forgotten in every case.
  unfoldable pub upload : List String → D.World → List String × D.World
  upload [] w = ("No file specified" ∷ [], w)
  upload (content ∷ _) w =
      let (r, w') =
        (do service_info ← lift (D.toml_loads content); D.import_service_information service_info)
          w in
      (imported r, w')
