-- ===== src/Jupyter/Groups/Events.antt =====
-- What a user does to a form for enclave services, in any order.
use pdo_contracts.Base.{
  String, ◌≡◌, refl, sym, ◌∙◌, ap, true, false, List, [], ◌∷◌, contains, string_eq, arith,
  Bool-cases, ◌⊎◌, inl, inr, ne_of_compare,
}
use mathlib.Core.Path.{subst}
use pdo_contracts.Base.Exec.{Result-cases, Action, ok, lift, ◌>>=◌}
use pdo_contracts.Base.Json.{Json}
use pdo_contracts.Jupyter.Widgets.{Widgets, IsLawful}
use pdo_contracts.Jupyter.Services.{
  Database, available, select_services, offer_services, reset_services, choose, create_service_list,
}
use pdo_contracts.Jupyter.Groups.{
  Form, submit_enclave, create_group, reset_widget, on_chooser, selected, chosen, outside,
  with_choice,
}
use pdo_contracts.Jupyter.Groups.Selection.{
  InStep, choose-InStep, select_services-InStep, offer_services-InStep, reset_services-InStep,
}

List-cases : {A : Type 0} (l : List A) → (l ≡ []) ⊎ ((x : A) × (xs : List A) × (l ≡ x ∷ xs))
List-cases [] = inl refl
List-cases (x ∷ xs) = inr (x, xs, refl)

-- The user types a name, selects services, chooses from the drop-down, or clicks a button.
pub data Event : Type 0 where
  rename : String → Event
  select : List String → Event
  pick : String → Event
  refresh : Event
  submit : Event

module _ (W : Widgets) (D : Database) where
  -- `EnclaveServiceGroupCreateWidget.__init__`, for the services that there are
  abbrev pub new_form : List String → D.World → Form W D
  new_form urls w = record {
    group_name = "";
    chooser = record { service_list = W.select_multiple urls; choice = W.unknown_dropdown };
    feedback = [];
    world = w;
  }

  -- `refresh_button_click` of the box of services
  unfoldable pub refresh_services : String → Action (Form W D) Unit
  refresh_services service_type = do
    urls ← λ f. lift (create_service_list D service_type f.world) f
    on_chooser W D (offer_services W urls)

  -- An exception is shown, and the form stays as the handler left it.
  unfoldable pub event_step : Event → Form W D → Form W D
  event_step (rename name) f = record f { group_name = name }
  event_step (select urls) f = (on_chooser W D (select_services W urls) f).1
  event_step (pick url) f = (on_chooser W D (choose W url) f).1
  event_step refresh f = (refresh_services "eservice" f).1
  event_step submit f = (submit_enclave W D f).1

  unfoldable pub run_events : List Event → Form W D → Form W D
  run_events [] f = f
  run_events (e ∷ events) f = run_events events (event_step e f)

  pub world-reset_widget :
      (service_type : String) (f : Form W D) → (reset_widget W D service_type f).1.world ≡ f.world
  unfolding reset_widget
  world-reset_widget service_type f = ground arith

  world-create_group :
      (service_type label : String) (params : List (String × Json)) (f : Form W D)
      → (create_group W D service_type label params f).1.world
        ≡ (D.add_group service_type f.group_name (selected W D f) params f.world).1
  unfolding create_group
  world-create_group service_type label params f = grind (arith, world-reset_widget)

  submit_enclave-refused :
      (f : Form W D)
      → outside W D (chosen W D f) (selected W D f) ≡ true
      → submit_enclave W D f
        ≡ (ok tt, record f { feedback = "Preferred service must be part of the group" ∷ [] })
  unfolding submit_enclave
  submit_enclave-refused f h = ground arith

  submit_enclave-creates :
      (f : Form W D)
      → outside W D (chosen W D f) (selected W D f) ≡ false
      → submit_enclave W D f
        ≡ create_group W D "eservice" "Enclave"
            (with_choice W D "preferred" (chosen W D f) [])
            (record f { feedback = [] })
  unfolding submit_enclave
  submit_enclave-creates f h = ground arith

module _ (W : Widgets) (D : Database) (L : IsLawful W) where
  reset_widget-InStep :
      (service_type : String) (f : Form W D)
      → InStep W f.chooser
      → InStep W (reset_widget W D service_type f).1.chooser
  unfolding reset_widget
  reset_widget-InStep service_type f s =
      elim (Result-cases (create_service_list D service_type f.world)) [
        | inl (urls, h) ↦
            let p : (reset_widget W D service_type f).1.chooser
                ≡ (reset_services W urls f.chooser).1 =
              ground arith in
            rw p (reset_services-InStep W L urls f.chooser s).0
        | inr (e, h) ↦
            let p : (reset_widget W D service_type f).1.chooser ≡ f.chooser = ground arith in rw p s
      ]

  create_group-InStep :
      (service_type label : String) (params : List (String × Json)) (f : Form W D)
      → InStep W f.chooser
      → InStep W (create_group W D service_type label params f).1.chooser
  unfolding create_group
  create_group-InStep service_type label params f s = grind (arith, reset_widget-InStep)

  refresh_services-InStep :
      (f : Form W D) → InStep W f.chooser → InStep W (refresh_services W D "eservice" f).1.chooser
  unfolding refresh_services
  refresh_services-InStep f s = elim (Result-cases (create_service_list D "eservice" f.world)) [
    | inl (urls, h) ↦
        let p : (refresh_services W D "eservice" f).1.chooser
            ≡ (offer_services W urls f.chooser).1 =
          ground arith in
        rw p (offer_services-InStep W L urls f.chooser s).0
    | inr (e, h) ↦
        let p : (refresh_services W D "eservice" f).1.chooser ≡ f.chooser = ground arith in rw p s
  ]

  submit_enclave-InStep :
      (f : Form W D) → InStep W f.chooser → InStep W (submit_enclave W D f).1.chooser
  unfolding submit_enclave
  submit_enclave-InStep f s = elim (Bool-cases (outside W D (chosen W D f) (selected W D f))) [
    | inl h ↦ rw (submit_enclave-refused W D f h) s
    | inr h ↦
        rw (submit_enclave-creates W D f h)
          (create_group-InStep "eservice" "Enclave" _ (record f { feedback = [] }) s)
  ]

  event_step-InStep :
      (e : Event) (f : Form W D) → InStep W f.chooser → InStep W (event_step W D e f).chooser
  unfolding event_step
  event_step-InStep (rename name) f s = s
  event_step-InStep (select urls) f s = select_services-InStep W L urls f.chooser s
  event_step-InStep (pick url) f s = choose-InStep W L url f.chooser s
  event_step-InStep refresh f s = refresh_services-InStep f s
  event_step-InStep submit f s = submit_enclave-InStep f s

  run_events-keeps :
      (events : List Event) (f : Form W D)
      → InStep W f.chooser
      → InStep W (run_events W D events f).chooser
  unfolding run_events
  run_events-keeps [] f s = s
  run_events-keeps (e ∷ rest) f s =
      run_events-keeps rest (event_step W D e f) (event_step-InStep e f s)

  refused-unknown :
      (f : Form W D)
      → InStep W f.chooser
      → selected W D f ≡ []
      → outside W D (chosen W D f) (selected W D f) ≡ true
  refused-unknown f s none_selected =
      let offers : W.options f.chooser.choice ≡ "unknown" ∷ [] =
        s.offers ∙ ap (available W) none_selected in
      let shows : contains ("unknown" ∷ []) (W.value f.chooser.choice) ≡ true =
        subst (λ (l : List String). contains l (W.value f.chooser.choice) ≡ true) offers s.among in
      let named : W.value f.chooser.choice ≡ "unknown" = ground arith in
      ground (arith, ne_of_compare "unknown" "" refl)

  submit_enclave-InStep_cases :
      (f : Form W D)
      → InStep W f.chooser
      → ((selected W D f ≡ [])
          × (submit_enclave W D f ≡ (
            ok tt,
            record f { feedback = "Preferred service must be part of the group" ∷ [] },
          )))
        ⊎ ((contains (selected W D f) (W.value f.chooser.choice) ≡ true)
            × ((submit_enclave W D f).1.world
                ≡ (D.add_group "eservice" f.group_name
                    (selected W D f)
                    (with_choice W D "preferred" (chosen W D f) [])
                    f.world).1))
  submit_enclave-InStep_cases f s = elim (List-cases (selected W D f)) [
    | inl none_selected ↦
        inl (none_selected, submit_enclave-refused W D f (refused-unknown f s none_selected))
    | inr (url, rest, h) ↦
        let among : contains (selected W D f) (W.value f.chooser.choice) ≡ true =
          subst (λ (l : List String). contains l (W.value f.chooser.choice) ≡ true)
            (s.offers ∙ ap (available W) h ∙ sym h) s.among in
        let inside : outside W D (chosen W D f) (selected W D f) ≡ false = ground arith in
        inr (
          among,
          rw (submit_enclave-creates W D f inside) (
              world-create_group W D "eservice" "Enclave"
                (with_choice W D "preferred" (chosen W D f) []) (record f { feedback = [] })),
        )
  ]

  -- Whatever the user does with a new form for enclave services, the drop-down offers exactly the
  -- selected services, or one that is unknown, and shows one of those that it offers.
  pub run_events-InStep :
      (urls : List String) (w : D.World) (events : List Event)
      → InStep W (run_events W D events (new_form W D urls w)).chooser
  run_events-InStep urls w events = run_events-keeps events (new_form W D urls w) (record {
    offers = L.options-unknown ∙ ap (available W) (sym (L.selection-new urls));
    among = rw (L.options-unknown, L.value-unknown) (ground arith);
  })

  -- The submission of a form for enclave services, after whatever the user did: if no service is
  -- selected, it is refused and changes nothing outside; otherwise it adds exactly the group of the
  -- form, with the service of the drop-down, one of the group, as the preferred one.
  pub submit_enclave-reached :
      (urls : List String) (w : D.World) (events : List Event)
      → let f = run_events W D events (new_form W D urls w) in
        ((selected W D f ≡ [])
          × (submit_enclave W D f ≡ (
            ok tt,
            record f { feedback = "Preferred service must be part of the group" ∷ [] },
          )))
        ⊎ ((contains (selected W D f) (W.value f.chooser.choice) ≡ true)
            × ((submit_enclave W D f).1.world
                ≡ (D.add_group "eservice" f.group_name
                    (selected W D f)
                    (with_choice W D "preferred" (chosen W D f) [])
                    f.world).1))
  submit_enclave-reached urls w events =
      submit_enclave-InStep_cases (run_events W D events (new_form W D urls w))
        (run_events-InStep urls w events)
