-- ===== src/Jupyter/Wallet/Transfer.antt =====
-- The form that transfers assets (AssetTransferWidget of exchange-contract/pdo/exchange/jupyter/wallet.py).
use pdo_contracts.Base.{
  String, ◌<>◌, ◌==◌, string_eq, ℕ, min, num_eq, Bool, true, false, none, some, List, [], ◌∷◌, ◌++◌,
}
use pdo_contracts.Base.Exec.{Action, Result, ok, err, other, lift, gets, modify, ◌▷◌, ◌>>=◌, ◌>>◌}
use pdo_contracts.Base.Json.{str, get_item, as_str}
use pdo_contracts.Plugins.Client.{Client}
use pdo_contracts.Jupyter.Widgets.{Widgets}
use pdo_contracts.Jupyter.Keys.Forms.{create_key_list, show_first}
use pdo_contracts.Jupyter.Wallet.{
  WalletClient, asset_list, get_asset_type, get_asset_owner, get_asset_balance, transfer_assets,
}

-- The values of the boxes, the slider with its maximum, and the lines in the feedback.
pub record TransferForm (W : Widgets) (K : Client) : Type 0 where
  pub source : W.Dropdown
  pub old_owner : String
  pub asset_type : String
  pub balance : ℕ
  pub balance_max : ℕ
  pub new_owner : W.Dropdown
  pub feedback : List String
  pub world : K.World

-- What a user does: choose from the drop-downs, move the slider, click a button.
pub data Event : Type 0 where
  choose_source : String → Event
  slide : ℕ → Event
  choose_owner : String → Event
  refresh : Event
  submit : Event

module _ (W : Widgets) (K : Client) (C : WalletClient K) (wallet_path : String) where
  abbrev pub Handler : Type 0 → Type 0
  Handler A = Action (TransferForm W K) A

  abbrev pub on_world : {A : Type 0} → Action K.World A → Handler A
  on_world m f = let (r, w) = m f.world in (r, record f { world = w })

  abbrev pub print : String → Handler Unit
  print line = modify (λ f. record f { feedback = f.feedback ++ line ∷ [] })

  abbrev pub clear_output : Handler Unit
  clear_output = modify (λ f. record f { feedback = [] })

  -- The fields for a handle that is selected.
  unfoldable pub show_source : String → Handler Unit
  show_source asset_handle = do
    info ← λ f. lift (get_asset_type K C wallet_path asset_handle f.world) f
    name ← lift (get_item info "name" ▷ as_str)
    modify (λ f. record f { asset_type = name })
    identity ← λ f. lift (get_asset_owner K C wallet_path asset_handle f.world) f
    owner ← lift (as_str identity)
    modify (λ f. record f { old_owner = owner; balance = 0 })
    reply ← on_world (get_asset_balance K C wallet_path asset_handle none)
    limit ← lift (C.slider_max reply)
    modify (λ f. record f { balance_max = limit })

  unfoldable pub update_source_information : Handler Unit
  update_source_information f = elim (W.value f.source == "unknown") [
    | true ↦ (
      ok tt,
      record f { old_owner = "unknown"; asset_type = "unknown"; balance = 0; balance_max = 0 },
    )
    | false ↦ show_source (W.value f.source) f
  ]

  -- The observer of the drop-down, which is called where its value went from another to this one
  unfoldable pub handle_source_change : String → Handler Unit
  handle_source_change old f = elim (W.notifies (old ∷ []) (W.value f.source ∷ [])) [
    | true ↦ update_source_information f
    | false ↦ (ok tt, f)
  ]

  unfoldable pub set_source_options : List String → Handler Unit
  set_source_options handles = do
    old ← gets (λ f. W.value f.source)
    modify (λ f. record f { source = W.set_options handles f.source })
    handle_source_change old

  unfoldable pub set_source_value : String → Handler Unit
  set_source_value asset_handle = do
    old ← gets (λ f. W.value f.source)
    source ← λ f. lift (W.set_value asset_handle f.source) f
    modify (λ f. record f { source = source })
    handle_source_change old

  -- `options[0]`
  abbrev first_option : List String → Result String
  first_option [] = err (other "list index out of range")
  first_option (v ∷ _) = ok v

  unfoldable pub reset_widget : Handler Unit
  reset_widget = do
    handles ← λ f. lift (C.options_of (asset_list K C wallet_path (str "unknown" ∷ []) f.world)) f
    set_source_options handles
    first ← λ f. lift (first_option (W.options f.source)) f
    set_source_value first
    update_source_information
    keys ← gets (λ f. create_key_list W (C.files f.world) true (C.search_path f.world))
    modify (λ f. record f { new_owner = W.set_options keys f.new_owner })
    new_owner ← λ f. lift (show_first W (C.files f.world) keys f.new_owner) f
    modify (λ f. record f { new_owner = new_owner })

  unfoldable pub refresh_button_click : Handler Unit
  refresh_button_click = do
    clear_output
    modify (λ f. record f { world = C.flush_contract_cache f.world })
    reset_widget

  abbrev pub transfer : Handler Bool
  transfer f =
      on_world
        (transfer_assets K C wallet_path (W.value f.source) (C.int_value f.balance)
          (str (W.value f.new_owner)) (some f.old_owner))
        f

  -- What follows `transfer_assets`: an exception is shown.
  abbrev pub after_transfer : Result Bool → Handler Unit
  after_transfer (err e) = print ("transfer failed with an error; " <> C.exception_text e)
  after_transfer (ok _) = do
    line ← gets (λ f.
        "transferred "
        <> K.format_value (C.int_value f.balance)
        <> " "
        <> f.asset_type
        <> " assets from "
        <> f.old_owner
        <> " to "
        <> W.value f.new_owner)
    print line
    reset_widget

  abbrev pub try_transfer : Handler Unit
  try_transfer f = let (r, f') = transfer f in after_transfer r f'

  unfoldable pub submit_button_click : Handler Unit
  submit_button_click = do
    clear_output
    source ← gets (λ f. W.value f.source)
    count ← gets (λ f. f.balance)
    new_owner ← gets (λ f. W.value f.new_owner)
    elim (source == "unknown") [
      | true ↦ print "select a valid source account"
      | false ↦ elim (num_eq count 0) [
        | true ↦ print "no assets specified for transfer"
        | false ↦ elim (new_owner == "unknown") [
          | true ↦ print "no destination provided for transfer"
          | false ↦ try_transfer
        ]
      ]
    ]

  unfoldable pub choose_new_owner : String → Handler Unit
  choose_new_owner key = do
    new_owner ← λ f. lift (W.set_value key f.new_owner) f
    modify (λ f. record f { new_owner = new_owner })

  -- An exception is shown, and the form stays as the handler left it. The slider stops at its maximum.
  unfoldable pub event_step : Event → TransferForm W K → TransferForm W K
  event_step (choose_source v) f = (set_source_value v f).1
  event_step (slide n) f = record f { balance = min n f.balance_max }
  event_step (choose_owner v) f = (choose_new_owner v f).1
  event_step refresh f = (refresh_button_click f).1
  event_step submit f = (submit_button_click f).1

  unfoldable pub run_events : List Event → TransferForm W K → TransferForm W K
  run_events [] f = f
  run_events (e ∷ events) f = run_events events (event_step e f)
