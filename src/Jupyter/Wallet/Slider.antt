-- ===== src/Jupyter/Wallet/Slider.antt =====
-- The amount of a transfer stays within the balance that the form shows.
use pdo_contracts.Base.{String, string_eq, ◌≤◌, arith, Bool, List, [], ◌∷◌}
use pdo_contracts.Base.Exec.{Result, ok, err}
use pdo_contracts.Plugins.Client.{Client}
use pdo_contracts.Jupyter.Widgets.{Widgets}
use pdo_contracts.Jupyter.Wallet.{WalletClient}
use pdo_contracts.Jupyter.Wallet.Transfer.{
  TransferForm, Handler, Event, choose_source, slide, choose_owner, refresh, submit, show_source,
  update_source_information, handle_source_change, set_source_options, set_source_value,
  reset_widget, refresh_button_click, choose_new_owner, after_transfer, submit_button_click,
  event_step, run_events,
}

module _ (W : Widgets) (K : Client) (C : WalletClient K) (wallet_path : String) where
  abbrev pub Within : TransferForm W K → Type 0
  Within f = f.balance ≤ f.balance_max

  abbrev Bounded : {A : Type 0} → Handler W K C wallet_path A → Type 0
  Bounded m = (f : TransferForm W K) → Within f → Within (m f).1

  show_source-Bounded :
      (asset_handle : String) → Bounded (show_source W K C wallet_path asset_handle)
  unfolding show_source
  show_source-Bounded asset_handle f h = ground arith

  update_source_information-Bounded : Bounded (update_source_information W K C wallet_path)
  unfolding update_source_information
  update_source_information-Bounded f h = ground (arith, show_source-Bounded (W.value f.source) f h)

  handle_source_change-Bounded :
      (old : String) → Bounded (handle_source_change W K C wallet_path old)
  unfolding handle_source_change
  handle_source_change-Bounded old f h = ground (arith, update_source_information-Bounded f h)

  set_source_options-Bounded :
      (handles : List String) → Bounded (set_source_options W K C wallet_path handles)
  unfolding set_source_options
  set_source_options-Bounded handles f h = grind (arith, handle_source_change-Bounded)

  set_source_value-Bounded : (v : String) → Bounded (set_source_value W K C wallet_path v)
  unfolding set_source_value
  set_source_value-Bounded v f h = grind (arith, handle_source_change-Bounded)

  reset_widget-Bounded : Bounded (reset_widget W K C wallet_path)
  unfolding reset_widget
  reset_widget-Bounded f h = grind (
    arith, set_source_options-Bounded, set_source_value-Bounded, update_source_information-Bounded,
  )

  refresh_button_click-Bounded : Bounded (refresh_button_click W K C wallet_path)
  unfolding refresh_button_click
  refresh_button_click-Bounded f h = grind (arith, reset_widget-Bounded)

  after_transfer-Bounded : (r : Result Bool) → Bounded (after_transfer W K C wallet_path r)
  after_transfer-Bounded (err e) f h = h
  after_transfer-Bounded (ok b) f h = grind (arith, reset_widget-Bounded)

  submit_button_click-Bounded : Bounded (submit_button_click W K C wallet_path)
  unfolding submit_button_click
  submit_button_click-Bounded f h = grind (arith, after_transfer-Bounded)

  event_step-Within :
      (e : Event) (f : TransferForm W K) → Within f → Within (event_step W K C wallet_path e f)
  unfolding event_step choose_new_owner
  event_step-Within (choose_source v) f h = set_source_value-Bounded v f h
  event_step-Within (slide n) f h = omega arith
  event_step-Within (choose_owner v) f h = ground arith
  event_step-Within refresh f h = refresh_button_click-Bounded f h
  event_step-Within submit f h = submit_button_click-Bounded f h

  -- Whatever a user does, the amount to transfer stays at most the maximum of the slider, also where a
  -- handler raises half-way.
  pub run_events-Within :
      (events : List Event) (f : TransferForm W K)
      → Within f
      → Within (run_events W K C wallet_path events f)
  unfolding run_events
  run_events-Within [] f h = h
  run_events-Within (e ∷ events) f h =
      run_events-Within events (event_step W K C wallet_path e f) (event_step-Within e f h)
