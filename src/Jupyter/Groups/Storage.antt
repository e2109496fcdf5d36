-- ===== src/Jupyter/Groups/Storage.antt =====
-- The submission of a form for storage services.
use pdo_contracts.Base.{
  String, ◌≡◌, ℕ, ◌<◌, leb, false, [], ◌∷◌, length, arith, string_eq, Bool-cases, ◌⊎◌, inl, inr,
  Option,
}
use pdo_contracts.Base.Json.{Json}
use pdo_contracts.Jupyter.Widgets.{Widgets}
use pdo_contracts.Jupyter.Services.{Database}
use pdo_contracts.Jupyter.Groups.{
  StorageForm, submit_storage, create_storage_group, selected, chosen, outside, with_choice,
}
use pdo_contracts.Jupyter.Groups.Events.{world-reset_widget}

module _ (W : Widgets) (D : Database) where
  world-create_storage_group :
      (number : ℕ → Json) (persistent : Option String) (s : StorageForm W D)
      → (create_storage_group W D number persistent s).1.form.world
        ≡ (D.add_group "sservice" s.form.group_name
            (selected W D s.form)
            (with_choice W D "persistent" persistent
              (("replicas", number s.replicas) ∷ ("duration", number s.duration) ∷ []))
            s.form.world).1
  unfolding create_storage_group
  world-create_storage_group number persistent s = grind (arith, world-reset_widget)

  -- A storage form adds a group only with more services than replicas, and with no persistent service
  -- or one of these; then it adds exactly the group of the form. Otherwise nothing outside changes.
  pub submit_storage-adds :
      (number : ℕ → Json) (s : StorageForm W D)
      → let w = s.form.world in
        let w' = (submit_storage W D number s).1.form.world in
        let selection = selected W D s.form in
        let persistent = chosen W D s.form in
        let params =
          with_choice W D "persistent" persistent
            (("replicas", number s.replicas) ∷ ("duration", number s.duration) ∷ []) in
        (w' ≡ w)
        ⊎ ((s.replicas < length selection)
            × (outside W D persistent selection ≡ false)
            × (w' ≡ (D.add_group "sservice" s.form.group_name selection params w).1))
  unfolding submit_storage
  submit_storage-adds number s =
      let cleared = record s { form = record s.form { feedback = [] } } in
      elim (Bool-cases (outside W D (chosen W D s.form) (selected W D s.form))) [
        | inl h ↦ inl (ground arith)
        | inr h ↦ elim (Bool-cases (leb (length (selected W D s.form)) s.replicas)) [
          | inl few ↦ inl (ground arith)
          | inr many ↦ inr (
            ground arith,
            h,
            ground (arith, world-create_storage_group number (chosen W D s.form) cleared),
          )
        ]
      ]
