-- ===== src/Tests/Forms.antt =====
-- A concrete notebook: boxes that keep their options, and a database that records the groups.
use pdo_contracts.Base.{
  String, ◌≡◌, refl, ◌<◌, true, false, List, [], ◌∷◌, length, contains, string_eq, arith, ◌⊎◌,
  if◌then◌else◌,
}
use pdo_contracts.Base.Exec.{Result, ok, err, other}
use pdo_contracts.Base.Json.{null, num, str}
use pdo_contracts.Jupyter.Widgets.{Widgets, IsLawful}
use pdo_contracts.Jupyter.Services.{Database}
use pdo_contracts.Jupyter.Groups.{
  Form, StorageForm, submit_enclave, submit_storage, selected, chosen, outside,
}
use pdo_contracts.Jupyter.Groups.Selection.{InStep}
use pdo_contracts.Jupyter.Groups.Events.{
  Event, rename, select, pick, refresh, submit, new_form, run_events, run_events-InStep,
  submit_enclave-reached,
}
use pdo_contracts.Jupyter.Groups.Storage.{submit_storage-adds}

pub record DropdownBox : Type 0 where
  pub entries : List String
  pub shown : String

pub record MultipleBox : Type 0 where
  pub choices : List String
  pub picked : List String

abbrev pub show : String → DropdownBox → Result DropdownBox
show v d =
    if contains d.entries v then ok (record d { shown = v }) else err (other "invalid selection")

abbrev pub toy_widgets : Widgets
toy_widgets = record {
  Dropdown = DropdownBox;
  options = λ d. d.entries;
  value = λ d. d.shown;
  set_options = λ l d. record { entries = l; shown = "" };
  set_value = show;
  unknown_dropdown = record { entries = "unknown" ∷ []; shown = "unknown" };
  SelectMultiple = MultipleBox;
  selection = λ m. m.picked;
  select_multiple = λ l. record { choices = l; picked = [] };
  set_choices = λ l m. record { choices = l; picked = [] };
  set_selection = λ l m. ok (record m { picked = l });
  notifies = λ a b. true;
}

toy_widgets-IsLawful : IsLawful toy_widgets
toy_widgets-IsLawful = record {
  options-set = λ l d. refl;
  set_value-option = λ v d h. (record d { shown = v }, rw h refl, refl, refl);
  set_value-other = λ v d h. (other "invalid selection", rw h refl);
  set_selection-nil = λ m. (record m { picked = [] }, refl, refl);
  options-unknown = refl;
  value-unknown = refl;
  selection-new = λ l. refl;
  silent_eq = λ a b h. ground arith;
}

-- The groups that were added, by their names.
abbrev toy_database : Database
toy_database = record {
  World = List String;
  Info = Unit {0};
  service_types = "eservice" ∷ "pservice" ∷ "sservice" ∷ [];
  list_services = λ t w. ("http://a", tt) ∷ ("http://b", tt) ∷ ("http://c", tt) ∷ [];
  serialize = λ i. null;
  list_groups = λ t w. [];
  import_service_information = λ j w. (ok tt, w);
  add_group = λ t name urls params w. (ok tt, name ∷ w);
  decode = ok;
  sort = λ l. l;
  toml_loads = λ s. ok (str s);
}

abbrev three_urls : List String
three_urls = "http://a" ∷ "http://b" ∷ "http://c" ∷ []

abbrev some_events : List Event
some_events =
    refresh ∷ rename "mine" ∷ select three_urls ∷ pick "http://b" ∷ submit ∷ select three_urls ∷ []

abbrev toy_form : Form toy_widgets toy_database
toy_form =
    run_events toy_widgets toy_database some_events
      (new_form toy_widgets toy_database three_urls [])

run_events-InStep_example : InStep toy_widgets toy_form.chooser
run_events-InStep_example =
    run_events-InStep toy_widgets toy_database toy_widgets-IsLawful three_urls [] some_events

submit_enclave-reached_example :
    ((selected toy_widgets toy_database toy_form ≡ [])
      × (submit_enclave toy_widgets toy_database toy_form ≡ (
        ok tt,
        record toy_form { feedback = "Preferred service must be part of the group" ∷ [] },
      )))
    ⊎ ((contains (selected toy_widgets toy_database toy_form) toy_form.chooser.choice.shown ≡ true)
        × ((submit_enclave toy_widgets toy_database toy_form).1.world
            ≡ toy_form.group_name ∷ toy_form.world))
submit_enclave-reached_example =
    submit_enclave-reached toy_widgets toy_database toy_widgets-IsLawful three_urls [] some_events

abbrev storage_form : StorageForm toy_widgets toy_database
storage_form = record { form = toy_form; replicas = 2; duration = 120 }

submit_storage-adds_example :
    let w' = (submit_storage toy_widgets toy_database (λ n. num "2") storage_form).1.form.world in
    (w' ≡ toy_form.world)
    ⊎ ((2 < length (selected toy_widgets toy_database toy_form))
        × (outside toy_widgets toy_database
              (chosen toy_widgets toy_database toy_form)
              (selected toy_widgets toy_database toy_form)
            ≡ false)
        × (w' ≡ toy_form.group_name ∷ toy_form.world))
submit_storage-adds_example =
    submit_storage-adds toy_widgets toy_database (λ n. num "2") storage_form
