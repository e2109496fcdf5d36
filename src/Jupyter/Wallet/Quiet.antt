-- ===== src/Jupyter/Wallet/Quiet.antt =====
-- What the handlers of the form do without a transaction: everything but the transfer itself.
use pdo_contracts.Base.{
  String, ◌==◌, string_eq, ◌≡◌, arith, false, none, List, [], ◌∷◌, Bool-cases, inl, inr,
}
use pdo_contracts.Base.Exec.{Action, Result, lift, Result-cases, ◌>>=◌}
use pdo_contracts.Base.Json.{Json}
use pdo_contracts.Plugins.Client.{Client, Kwargs, find_contract}
use pdo_contracts.Plugins.Client.Laws.{Sent, IsLawful, committed, invoke-Sends}
use pdo_contracts.Plugins.Issuer.{op_get_balance, cmd_get_balance}
use pdo_contracts.Jupyter.Widgets.{Widgets}
use pdo_contracts.Jupyter.Wallet.{WalletClient, asset_context, try_balance, get_asset_balance}
use pdo_contracts.Jupyter.Wallet.Transfer.{
  TransferForm, Handler, show_source, update_source_information, handle_source_change,
  set_source_options, set_source_value, reset_widget, refresh_button_click, choose_new_owner,
}

-- What the wallet relies on: a command runs with arguments that the client made, or the call raises, and
-- neither this nor emptying the cache sends a message.
pub record IsQuiet (K : Client) (L : IsLawful K) (C : WalletClient K) : Type 1 where
  pub effective_kwargs : K.Context → Kwargs → K.World → Result Kwargs
  pub commanded :
      {A : Type 0} (cmd : K.Context → Kwargs → Action K.World A) (c : K.Context) (kwargs : Kwargs)
      (w : K.World)
      → K.invoke_contract_cmd cmd c kwargs w ≡ (lift (effective_kwargs c kwargs w) >>= cmd c) w
  pub sent-flush : (w : K.World) → L.sent (C.flush_contract_cache w) ≡ L.sent w

module _ (K : Client) (L : IsLawful K) (C : WalletClient K) (Q : IsQuiet K L C) where
  -- The transactions that were committed so far.
  abbrev pub trades : K.World → List Sent
  trades w = committed (L.sent w)

  cmd_get_balance-quiet :
      (c : K.Context) (kwargs : Kwargs) (w : K.World)
      → trades (cmd_get_balance K c kwargs w).1 ≡ trades w
  unfolding cmd_get_balance op_get_balance committed
  cmd_get_balance-quiet c kwargs w =
      elim (Result-cases (find_contract K "issuer contract must be created and initialized" c w)) [
        | inr (e, h) ↦ ground arith
        | inl (file, h) ↦ elim (invoke-Sends K L "get_balance" [] false c file kwargs w) [
          | inl s ↦ ground (arith, s)
          | inr (e, r, s) ↦ ground (arith, s)
        ]
      ]

  try_balance-quiet :
      (wallet_path : String) (c : K.Context) (owner : Json) (w : K.World)
      → trades (try_balance K C wallet_path c owner w).1 ≡ trades w
  try_balance-quiet wallet_path c owner w =
      let run = Q.commanded (cmd_get_balance K) c (("identity", owner) ∷ []) w in
      elim (Result-cases (Q.effective_kwargs c (("identity", owner) ∷ []) w)) [
        | inr (e, h) ↦ ground (arith, run)
        | inl (kwargs, h) ↦ ground (arith, run, cmd_get_balance-quiet c kwargs w)
      ]

  pub get_asset_balance-quiet :
      (wallet_path asset_handle : String) (w : K.World)
      → trades (get_asset_balance K C wallet_path asset_handle none w).1 ≡ trades w
  unfolding get_asset_balance
  get_asset_balance-quiet wallet_path asset_handle w =
      elim (Result-cases (asset_context K C wallet_path asset_handle "issuer" w)) [
        | inr (e, h) ↦ ground arith
        | inl (c, h) ↦
            ground
              (arith, try_balance-quiet wallet_path c (K.context_get c "identity" Json.null w) w)
      ]

module _ (W : Widgets) (K : Client) (L : IsLawful K) (C : WalletClient K) (Q : IsQuiet K L C)
    (wallet_path : String) where
  -- A handler that commits no transaction, from every form, whether it raises or not.
  abbrev pub Quiet : {A : Type 0} → Handler W K C wallet_path A → Type 0
  Quiet m = (f : TransferForm W K) → trades K L C Q (m f).1.world ≡ trades K L C Q f.world

  show_source-Quiet : (asset_handle : String) → Quiet (show_source W K C wallet_path asset_handle)
  unfolding show_source
  show_source-Quiet asset_handle f =
      ground (arith, get_asset_balance-quiet K L C Q wallet_path asset_handle f.world)

  pub update_source_information-Quiet : Quiet (update_source_information W K C wallet_path)
  unfolding update_source_information
  update_source_information-Quiet f = elim (Bool-cases (W.value f.source == "unknown")) [
    | inl h ↦ ground arith
    | inr h ↦ ground (arith, show_source-Quiet (W.value f.source) f)
  ]

  handle_source_change-Quiet : (old : String) → Quiet (handle_source_change W K C wallet_path old)
  unfolding handle_source_change
  handle_source_change-Quiet old f =
      elim (Bool-cases (W.notifies (old ∷ []) (W.value f.source ∷ []))) [
        | inl h ↦ ground (arith, update_source_information-Quiet f)
        | inr h ↦ ground arith
      ]

  set_source_options-Quiet :
      (handles : List String) → Quiet (set_source_options W K C wallet_path handles)
  unfolding set_source_options
  set_source_options-Quiet handles f = grind (arith, handle_source_change-Quiet)

  pub set_source_value-Quiet : (v : String) → Quiet (set_source_value W K C wallet_path v)
  unfolding set_source_value
  set_source_value-Quiet v f = grind (arith, handle_source_change-Quiet)

  pub reset_widget-Quiet : Quiet (reset_widget W K C wallet_path)
  unfolding reset_widget
  reset_widget-Quiet f =
      grind
        (arith, set_source_options-Quiet, set_source_value-Quiet, update_source_information-Quiet)

  pub refresh_button_click-Quiet : Quiet (refresh_button_click W K C wallet_path)
  unfolding refresh_button_click committed
  refresh_button_click-Quiet f = grind (arith, reset_widget-Quiet, Q.sent-flush f.world)

  pub choose_new_owner-Quiet : (key : String) → Quiet (choose_new_owner W K C wallet_path key)
  unfolding choose_new_owner
  choose_new_owner-Quiet key f = ground arith
