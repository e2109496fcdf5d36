-- ===== src/Jupyter/Groups/Selection.antt =====
-- The drop-down of a form stays in step with the services that are selected.
use pdo_contracts.Base.{
  String, ◌≡◌, refl, sym, ◌∙◌, ap, true, List, [], ◌∷◌, contains, string_eq, arith, Bool-cases, inl,
  inr,
}
use pdo_contracts.Base.Exec.{Result-cases, ok}
use pdo_contracts.Jupyter.Widgets.{Widgets, IsLawful}
use pdo_contracts.Jupyter.Services.{
  Chooser, available, kept_or_first, update_list, change_services, select_services, offer_services,
  reset_services, choose,
}

module _ (W : Widgets) where
  -- The drop-down offers exactly what the selection leaves, and its value is one of these.
  pub record InStep (c : Chooser W) : Type 0 where
    pub offers : W.options c.choice ≡ available W (W.selection c.service_list)
    pub among : contains (W.options c.choice) (W.value c.choice) ≡ true

  contains-kept_or_first :
      (v : String) (l : List String)
      → contains (available W l) (kept_or_first W v (available W l)) ≡ true
  contains-kept_or_first v [] = ground arith
  contains-kept_or_first v (url ∷ urls) = ground arith

module _ (W : Widgets) (L : IsLawful W) where
  pub choose-InStep : (v : String) (c : Chooser W) → InStep W c → InStep W (choose W v c).1
  unfolding choose
  choose-InStep v c s = elim (Bool-cases (contains (W.options c.choice) v)) [
    | inl h ↦
        let (d, e, o, u) = L.set_value-option v c.choice h in
        record { offers = ground (arith, s.offers); among = ground arith }
    | inr h ↦
        let (e, r) = L.set_value-other v c.choice h in
        record { offers = ground (arith, s.offers); among = ground (arith, s.among) }
  ]

  -- The observer brings the drop-down in step, wherever it stood, and does not raise.
  update_list-InStep :
      (c : Chooser W)
      → InStep W (update_list W c).1
        × ((update_list W c).1.service_list ≡ c.service_list)
        × ((update_list W c).0 ≡ ok tt)
  unfolding update_list
  update_list-InStep c =
      let l = available W (W.selection c.service_list) in
      let v = kept_or_first W (W.value c.choice) l in
      let d = W.set_options l c.choice in
      let o = L.options-set l c.choice in
      let h : contains (W.options d) v ≡ true =
        ap (λ (x : List String). contains x v) o
        ∙ contains-kept_or_first W (W.value c.choice) (W.selection c.service_list) in
      let (d', e, o', u) = L.set_value-option v d h in
      let p : update_list W c ≡ (ok tt, record c { choice = d' }) = ground arith in
      rw p (record { offers = o' ∙ o; among = rw (o', u) h }, refl, refl)

  change_services-InStep :
      (box : W.SelectMultiple) (c : Chooser W)
      → InStep W c
      → InStep W (change_services W box c).1
        × ((change_services W box c).1.service_list ≡ box)
        × ((change_services W box c).0 ≡ ok tt)
  unfolding change_services
  change_services-InStep box c s =
      elim (Bool-cases (W.notifies (W.selection c.service_list) (W.selection box))) [
        | inl h ↦ rw (change_services, h) (update_list-InStep (record c { service_list = box }))
        | inr h ↦
            let same = L.silent_eq (W.selection c.service_list) (W.selection box) h in
            rw (change_services, h)
              (record { offers = ground (arith, s.offers); among = s.among }, refl, refl)
      ]

  pub offer_services-InStep :
      (urls : List String) (c : Chooser W)
      → InStep W c
      → InStep W (offer_services W urls c).1 × ((offer_services W urls c).0 ≡ ok tt)
  unfolding offer_services
  offer_services-InStep urls c s =
      let q = change_services-InStep (W.set_choices urls c.service_list) c s in (q.0, q.2)

  pub select_services-InStep :
      (urls : List String) (c : Chooser W) → InStep W c → InStep W (select_services W urls c).1
  unfolding select_services
  select_services-InStep urls c s = elim (Result-cases (W.set_selection urls c.service_list)) [
    | inl (box, h) ↦ rw (select_services, h) (change_services-InStep box c s).0
    | inr (e, h) ↦ rw (select_services, h) s
  ]

  select_none-InStep :
      (c : Chooser W)
      → InStep W c
      → InStep W (select_services W [] c).1
        × (W.selection (select_services W [] c).1.service_list ≡ [])
        × ((select_services W [] c).0 ≡ ok tt)
  unfolding select_services
  select_none-InStep c s =
      let (box, e, n) = L.set_selection-nil c.service_list in
      let q = change_services-InStep box c s in
      rw (select_services, e) (q.0, ap W.selection q.1 ∙ n, q.2)

  -- The reset never raises; it leaves nothing selected.
  pub reset_services-InStep :
      (urls : List String) (c : Chooser W)
      → InStep W c
      → InStep W (reset_services W urls c).1 × ((reset_services W urls c).0 ≡ ok tt)
  unfolding reset_services
  reset_services-InStep urls c s =
      let q = offer_services-InStep urls c s in
      let c₁ = (offer_services W urls c).1 in
      let t = select_none-InStep c₁ q.0 in
      let c₂ = (select_services W [] c₁).1 in
      let d = W.set_options ("unknown" ∷ []) c₂.choice in
      let o = L.options-set ("unknown" ∷ []) c₂.choice in
      let h : contains (W.options d) "unknown" ≡ true =
        ap (λ (x : List String). contains x "unknown") o ∙ ground arith in
      let (d', e, o', u) = L.set_value-option "unknown" d h in
      let p : reset_services W urls c ≡ (ok tt, record c₂ { choice = d' }) = ground arith in
      let off : W.options d' ≡ available W (W.selection c₂.service_list) =
        o' ∙ o ∙ sym (ap (available W) t.1) in
      rw p (record { offers = off; among = rw (o', u) h }, refl)
