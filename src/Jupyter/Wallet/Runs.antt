-- ===== src/Jupyter/Wallet/Runs.antt =====
-- What a user does with the form for transfers: at most one transaction for each click.
use pdo_contracts.Jupyter.Wallet.Slider.{Within, run_events-Within}
use pdo_contracts.Base.{String, string_eq, ◌≤◌, ◌+◌, arith, ℕ, suc, List, [], ◌∷◌, length, inl, inr}
use pdo_contracts.Plugins.Client.{Client}
use pdo_contracts.Plugins.Client.Laws.{IsLawful}
use pdo_contracts.Jupyter.Widgets.{Widgets}
use pdo_contracts.Jupyter.Wallet.{WalletClient}
use pdo_contracts.Jupyter.Wallet.Transfer.{
  TransferForm, Event, choose_source, slide, choose_owner, refresh, submit, event_step, run_events,
}
use pdo_contracts.Jupyter.Wallet.Quiet.{
  IsQuiet, trades, set_source_value-Quiet, refresh_button_click-Quiet, choose_new_owner-Quiet,
}
use pdo_contracts.Jupyter.Wallet.Clicks.{submit_button_click-Transfers}

module _ (W : Widgets) (K : Client) (L : IsLawful K) (C : WalletClient K) (Q : IsQuiet K L C)
    (wallet_path : String) where
  -- The clicks on Transfer among what a user does.
  abbrev pub clicks : List Event → ℕ
  clicks [] = 0
  clicks (submit ∷ events) = suc (clicks events)
  clicks (_ ∷ events) = clicks events

  event_step-clicks :
      (e : Event) (f : TransferForm W K)
      → length (trades K L C Q (event_step W K C wallet_path e f).world)
        ≤ clicks (e ∷ []) + length (trades K L C Q f.world)
  unfolding event_step
  event_step-clicks (choose_source v) f =
      ground (arith, set_source_value-Quiet W K L C Q wallet_path v f)
  event_step-clicks (slide n) f = ground arith
  event_step-clicks (choose_owner v) f =
      ground (arith, choose_new_owner-Quiet W K L C Q wallet_path v f)
  event_step-clicks refresh f = ground (arith, refresh_button_click-Quiet W K L C Q wallet_path f)
  event_step-clicks submit f = elim (submit_button_click-Transfers W K L C Q wallet_path f) [
    | inl (s, why) ↦ ground (arith, s)
    | inr (c, m, a, t, s) ↦ ground (arith, s)
  ]

  run_events-trades :
      (events : List Event) (f : TransferForm W K)
      → length (trades K L C Q (run_events W K C wallet_path events f).world)
        ≤ clicks events + length (trades K L C Q f.world)
  unfolding run_events
  run_events-trades [] f = ground arith
  run_events-trades (e ∷ events) f =
      ground
        (arith, event_step-clicks e f, run_events-trades events (event_step W K C wallet_path e f))

  -- Whatever a user does with a form whose amount is within the maximum of the slider, also where
  -- handlers raise half-way: the amount stays within the maximum, and at most as many transactions are
  -- committed as there are clicks on Transfer.
  pub run_events-clicks :
      (events : List Event) (f : TransferForm W K)
      → Within W K C wallet_path f
      → let f' = run_events W K C wallet_path events f in
        Within W K C wallet_path f'
        × (length (trades K L C Q f'.world) ≤ clicks events + length (trades K L C Q f.world))
  run_events-clicks events f h =
      (run_events-Within W K C wallet_path events f h, run_events-trades events f)
