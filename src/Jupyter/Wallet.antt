-- ===== src/Jupyter/Wallet.antt =====
-- The assets of a wallet (exchange-contract/pdo/exchange/jupyter/wallet.py), over the client library and
-- the commands of issuers.
pub mod Transfer
pub mod Quiet
pub mod Clicks
pub mod Runs
pub mod Slider
pub mod Import
pub mod Listing
use pdo_contracts.Base.{
  map, String, ◌<>◌, ◌==◌, string_eq, ℕ, Bool, true, false, Option, none, some, List, [], ◌∷◌,
}
use pdo_contracts.Base.Exec.{
  Action, Result, Exn, ok, err, other, lift, gets, modify, pure, ◌▷◌, ◌>>=◌, ◌>>◌,
}
use pdo_contracts.Base.Json.{
  Json, null, array, object, to_list, num, str, get_item, list_items, list_of, as_str,
}
use pdo_contracts.Plugins.Client.{Client}
use pdo_contracts.Plugins.Issuer.{cmd_get_balance, cmd_transfer_assets}
use pdo_contracts.Jupyter.Keys.{Files}

-- What the wallet uses beside the commands.
pub record WalletClient (K : Client) : Type 1 where
  -- `Context.context`, the properties of a context
  pub properties : K.Context → K.World → Result Json
  pub flush_contract_cache : K.World → K.World
  -- Whether an exception is a `ValueError`.
  pub is_value_error : Exn → Bool
  -- The files of keys, and the search path for them.
  pub files : K.World → Files
  pub search_path : K.World → List String
  -- The characters of a text, and what a drop-down offers when its options are set to a value.
  pub characters : String → List Json
  pub options_of : Json → Result (List String)
  -- The number that `IntSlider.max` becomes when it is set to a value.
  pub slider_max : Json → Result ℕ
  -- Numbers as values of Python, and exceptions as text.
  pub int_value : ℕ → Json
  pub exception_text : Exn → String

-- A row of the table of balances.
pub record BalanceRow : Type 0 where
  pub asset_handle : String
  pub owner : Json
  pub name : Json
  pub balance : Json

module _ (K : Client) (C : WalletClient K) (wallet_path : String) where
  -- `pbuilder.Context(state, f'{wallet_path}.{asset_handle}').get_context(label)`
  abbrev pub asset_context : String → String → K.World → Result K.Context
  asset_context asset_handle label =
      K.get_context (K.open_context (wallet_path <> "." <> asset_handle)) label

  unfoldable pub get_asset_type : String → K.World → Result Json
  get_asset_type asset_handle w = asset_context asset_handle "asset_type" w ▷ λ asset_type_context.
      C.properties asset_type_context w

  unfoldable pub get_asset_owner : String → K.World → Result Json
  get_asset_owner asset_handle w = asset_context asset_handle "issuer" w ▷ λ issuer_context.
      ok (K.context_get issuer_context "identity" null w)

  -- `owner or issuer_context.get('identity')`
  abbrev pub or_identity : Option String → K.Context → K.World → Json
  or_identity none issuer_context w = K.context_get issuer_context "identity" null w
  or_identity (some owner) issuer_context w = elim (owner == "") [
    | true ↦ K.context_get issuer_context "identity" null w
    | false ↦ str owner
  ]

  -- The result of `try: return ... except ValueError: return 0`
  abbrev zero_if_value_error : Result String → Result Json
  zero_if_value_error (ok balance) = ok (str balance)
  zero_if_value_error (err e) = elim (C.is_value_error e) [ true ↦ ok (num "0") | false ↦ err e ]

  abbrev pub try_balance : K.Context → Json → Action K.World Json
  try_balance issuer_context owner w =
      let (r, w') =
        K.invoke_contract_cmd (cmd_get_balance K) issuer_context (("identity", owner) ∷ []) w in
      (zero_if_value_error r, w')

  unfoldable pub get_asset_balance : String → Option String → Action K.World Json
  get_asset_balance asset_handle owner = do
    issuer_context ← λ w. lift (asset_context asset_handle "issuer" w) w
    identity ← gets (or_identity owner issuer_context)
    try_balance issuer_context identity

  unfoldable pub transfer_assets : String → Json → Json → Option String → Action K.World Bool
  transfer_assets asset_handle count new_owner old_owner = do
    issuer_context ← λ w. lift (asset_context asset_handle "issuer" w) w
    identity ← gets (or_identity old_owner issuer_context)
    K.invoke_contract_cmd (λ c kwargs. cmd_transfer_assets K c new_owner count kwargs)
        issuer_context (("identity", identity) ∷ [])

  -- `wallet_context.get('asset_list', default)`
  abbrev pub asset_list : List Json → K.World → Json
  asset_list default w = K.context_get (K.open_context wallet_path) "asset_list" (list_of default) w

  -- What `for asset_handle in value` goes through: for a mapping, its keys.
  abbrev pub iterated : Json → Result (List Json)
  iterated (array js) = list_items (array js)
  iterated (object fs) = ok (map (λ (k, v). str k) (to_list fs))
  iterated (str s) = ok (C.characters s)
  iterated _ = err (other "object is not iterable")

  -- The loop of `AssetBalanceWidget.create_balance_list`
  unfoldable balance_rows : List String → Action K.World (List BalanceRow)
  balance_rows [] = pure []
  balance_rows (asset_handle ∷ handles) = do
    balance ← get_asset_balance asset_handle none
    owner ← λ w. lift (get_asset_owner asset_handle w) w
    name ← λ w. lift (get_asset_type asset_handle w ▷ λ info. get_item info "name") w
    rows ← balance_rows handles
    pure (
        record { asset_handle = asset_handle; owner = owner; name = name; balance = balance }
        ∷ rows)

  -- `AssetBalanceWidget.create_balance_list`
  unfoldable pub create_balance_list : Action K.World (List BalanceRow)
  unfolding balance_rows
  create_balance_list = do
    handles ← λ w. lift (iterated (asset_list [] w)) w
    balance_rows (map K.format_value handles)

  -- `AssetBalanceWidget.refresh_button_click`: the new table
  unfoldable pub refresh_balances : Action K.World (List BalanceRow)
  refresh_balances = do modify C.flush_contract_cache; create_balance_list
