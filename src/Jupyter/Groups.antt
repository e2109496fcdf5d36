-- ===== src/Jupyter/Groups.antt =====
-- Groups of services and the forms that create them
-- (common-contract/pdo/contracts/jupyter/groups.py).
pub mod Selection
pub mod Events
pub mod Storage
use pdo_contracts.Base.{
  String, ◌==◌, ◌<>◌, ℕ, leb, length, Bool, true, false, not, if◌then◌else◌, Option, none, some,
  List, [], ◌∷◌, ◌++◌, contains, string_eq,
}
use pdo_contracts.Base.Dict.{Dict, keys}
use pdo_contracts.Base.Exec.{Action, Result, ok, err, lift, gets, modify, pure, ◌▷◌, ◌>>=◌, ◌>>◌}
use pdo_contracts.Base.Json.{Json, str, num}
use pdo_contracts.Jupyter.Widgets.{Widgets}
use pdo_contracts.Jupyter.Services.{
  Database, must_be_known, add_all, create_service_list, Chooser, reset_services,
}

module _ (D : Database) where
  unfoldable pub build_groups_map : String → D.World → Result (Dict String Json)
  build_groups_map service_type w =
      must_be_known D service_type ▷ λ _. ok (add_all D (D.list_groups service_type w) [])

  unfoldable pub build_groups_list : String → D.World → Result (List String)
  build_groups_list service_type w =
      build_groups_map service_type w ▷ λ groups_info_map. ok (keys groups_info_map)

  -- `groups or ['unknown']`
  abbrev or_unknown : List String → List String
  or_unknown [] = "unknown" ∷ []
  or_unknown (group ∷ groups) = group ∷ groups

  -- `ServiceGroupSelectionWidget.create_groups_list`
  unfoldable pub create_groups_list : String → D.World → Result (List String)
  create_groups_list service_type w =
      build_groups_list service_type w ▷ λ groups. ok (D.sort (or_unknown groups))

-- A form's widgets, the lines in its feedback, and what is outside. The drop-down is the preferred
-- service of enclave services, or the persistent one of storage services.
pub record Form (W : Widgets) (D : Database) : Type 0 where
  pub group_name : String
  pub chooser : Chooser W
  pub feedback : List String
  pub world : D.World

-- The sliders of a storage form, with the rest of it.
pub record StorageForm (W : Widgets) (D : Database) : Type 0 where
  pub form : Form W D
  pub replicas : ℕ
  pub duration : ℕ

module _ (W : Widgets) (D : Database) where
  abbrev pub on_chooser : Action (Chooser W) Unit → Action (Form W D) Unit
  on_chooser m f = let (r, c) = m f.chooser in (r, record f { chooser = c })

  abbrev on_world : Action D.World Unit → Action (Form W D) Unit
  on_world m f = let (r, w) = m f.world in (r, record f { world = w })

  abbrev print : String → Action (Form W D) Unit
  print line = modify (λ f. record f { feedback = f.feedback ++ line ∷ [] })

  abbrev clear_output : Action (Form W D) Unit
  clear_output = modify (λ f. record f { feedback = [] })

  abbrev pub selected : Form W D → List String
  selected f = W.selection f.chooser.service_list

  -- `value or None`
  abbrev or_none : String → Option String
  or_none value = if value == "" then none else some value

  abbrev pub chosen : Form W D → Option String
  chosen f = or_none (W.value f.chooser.choice)

  -- `preferred and preferred not in self.services.selection`
  abbrev pub outside : Option String → List String → Bool
  outside none selection = false
  outside (some url) selection = not (contains selection url)

  abbrev pub with_choice : String → Option String → Dict String Json → Dict String Json
  with_choice field none params = params
  with_choice field (some url) params = params ++ (field, str url) ∷ []

  -- `reset_widget`
  unfoldable pub reset_widget : String → Action (Form W D) Unit
  reset_widget service_type = do
    modify (λ f. record f { group_name = "" })
    urls ← λ f. lift (create_service_list D service_type f.world) f
    on_chooser (reset_services W urls)

  -- The group is added, reported, and the form is reset.
  unfoldable pub create_group : String → String → Dict String Json → Action (Form W D) Unit
  create_group service_type label params = do
    group_name ← gets (λ f. f.group_name)
    selection ← gets selected
    on_world (D.add_group service_type group_name selection params)
    print (label <> " service group " <> group_name <> " created")
    reset_widget service_type

  -- `submit_button_click` of the form for enclave services
  unfoldable pub submit_enclave : Action (Form W D) Unit
  submit_enclave = do
    clear_output
    preferred ← gets chosen
    selection ← gets selected
    elim (outside preferred selection) [
      | true ↦ print "Preferred service must be part of the group"
      | false ↦ create_group "eservice" "Enclave" (with_choice "preferred" preferred [])
    ]

  abbrev on_form : Action (Form W D) Unit → Action (StorageForm W D) Unit
  on_form m s = let (r, f) = m s.form in (r, record s { form = f })

  -- The sliders return to their first values between the name and the boxes.
  unfoldable pub create_storage_group : (ℕ → Json) → Option String → Action (StorageForm W D) Unit
  create_storage_group number persistent s =
      let params =
        with_choice "persistent" persistent
          (("replicas", number s.replicas) ∷ ("duration", number s.duration) ∷ []) in
      (do
        on_form (on_world (D.add_group "sservice" s.form.group_name (selected s.form) params))
        on_form (print ("Storage service group " <> s.form.group_name <> " created"))
        modify (λ t. record t { replicas = 2; duration = 120 })
        on_form (reset_widget "sservice"))
        s

  -- `submit_button_click` of the form for storage services; `number` is a number as a JSON value.
  unfoldable pub submit_storage : (ℕ → Json) → Action (StorageForm W D) Unit
  submit_storage number = do
    on_form clear_output
    persistent ← gets (λ s. chosen s.form)
    selection ← gets (λ s. selected s.form)
    replicas ← gets (λ s. s.replicas)
    elim (outside persistent selection) [
      | true ↦ on_form (print "Persistent service must be part of the group")
      | false ↦ elim (leb (length selection) replicas) [
        | true ↦ on_form (print "Number of replicas must be less than the number of services")
        | false ↦ create_storage_group number persistent
      ]
    ]

-- The form for provisioning services, which has no drop-down.
pub record ProvisioningForm (W : Widgets) (D : Database) : Type 0 where
  pub group_name : String
  pub service_list : W.SelectMultiple
  pub feedback : List String
  pub world : D.World

module _ (W : Widgets) (D : Database) where
  abbrev clear_selection : Action (ProvisioningForm W D) Unit
  clear_selection f = elim (W.set_selection [] f.service_list) [
    | ok box ↦ (ok tt, record f { service_list = box })
    | err e ↦ (err e, f)
  ]

  -- Its `submit_button_click`, with the reset at the end
  unfoldable pub submit_provisioning : Action (ProvisioningForm W D) Unit
  submit_provisioning = do
    name ← gets (λ f. f.group_name)
    selection ← gets (λ f. W.selection f.service_list)
    modify (λ f. record f { feedback = [] })
    λ f.
        let (r, w) = D.add_group "pservice" name selection [] f.world in (r, record f { world = w })
    modify (λ f. record f {
      feedback = ("Provisioning service group " <> name <> " created") ∷ [];
      group_name = "";
    })
    urls ← λ f. lift (create_service_list D "pservice" f.world) f
    modify (λ f. record f { service_list = W.set_choices urls f.service_list })
    clear_selection
