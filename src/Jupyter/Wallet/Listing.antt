-- ===== src/Jupyter/Wallet/Listing.antt =====
-- What importing an issuer does to the list of assets of a wallet.
use pdo_contracts.Base.{String, ◌<>◌, ◌≡◌, ◌≢◌, ◌∙◌, arith, Bool, true, List, [], ◌∷◌, ◌++◌}
use pdo_contracts.Base.Exec.{ok}
use pdo_contracts.Base.Json.{Json, Fields, str, object, list_items, list_of}
use pdo_contracts.Plugins.Client.{Client}
use pdo_contracts.Jupyter.Widgets.{Widgets}
use pdo_contracts.Jupyter.Wallet.{WalletClient}
use pdo_contracts.Jupyter.Wallet.Import.{ImportClient, merge_asset}

-- What is known of contexts: a word is the key of one entry, `word.identity` that of an entry inside of
-- it, and an entry is what it was set to; `asset_list` is a word.
pub record HasEntries (K : Client) (is_word : String → Bool) : Type 0 where
  pub list_word : is_word "asset_list" ≡ true
  pub get-set :
      (c : K.Context) (k : String) (d j : Json) (w : K.World)
      → K.context_get c k d (K.context_set c k j w) ≡ j
  pub get-set_ne :
      (c : K.Context) (k p : String) (d j : Json) (w : K.World)
      → is_word p ≡ true
      → is_word k ≡ true
      → p ≢ k
      → K.context_get c k d (K.context_set c p j w) ≡ K.context_get c k d w
  pub get-set_inside_ne :
      (c : K.Context) (k p : String) (d j : Json) (w : K.World)
      → is_word p ≡ true
      → is_word k ≡ true
      → p ≢ k
      → K.context_get c k d (K.context_set c (p <> ".identity") j w) ≡ K.context_get c k d w
  -- An entry inside a mapping is set in the mapping.
  pub get-set_inside :
      (c : K.Context) (k : String) (d j : Json) (w : K.World) (fs : Fields)
      → is_word k ≡ true
      → K.context_get c k d w ≡ object fs
      → (fs' : Fields) × (K.context_get c k d (K.context_set c (k <> ".identity") j w) ≡ object fs')

module _ (W : Widgets) (K : Client) (C : WalletClient K) (I : ImportClient K)
    (E : HasEntries K I.is_word) (context_file wallet_path : String) where
  -- The entry for the handles of a wallet
  abbrev pub handles_in : K.World → Json
  handles_in w = K.context_get (K.open_context wallet_path) "asset_list" (list_of []) w

  -- An asset under a handle that is a word, and not `asset_list`, is added at the end of the list, also
  -- where the list already has the handle.
  pub merge_asset-lists :
      (asset_path : String) (asset_context : Json) (identity : String) (handles : List Json)
      (w : K.World)
      → I.is_word asset_path ≡ true
      → asset_path ≢ "asset_list"
      → list_items (handles_in w) ≡ ok handles
      → let (r, w') =
          merge_asset W K C I context_file wallet_path asset_path asset_context identity w in
        (r ≡ ok tt) × (handles_in w' ≡ list_of (handles ++ str asset_path ∷ []))
  merge_asset-lists asset_path asset_context identity handles w word ne listed =
      let c = K.open_context wallet_path in
      let w₁ = K.context_set c asset_path asset_context w in
      let w₂ = K.context_set c (asset_path <> ".identity") (str identity) w₁ in
      let kept : handles_in w₂ ≡ handles_in w =
        E.get-set_inside_ne c "asset_list" asset_path (list_of []) (str identity) w₁ word
          E.list_word ne
        ∙ E.get-set_ne c "asset_list" asset_path (list_of []) asset_context w word E.list_word ne in
      (
        ground (arith, kept),
        ground (
          arith,
          kept,
          E.get-set c "asset_list" (list_of []) (list_of (handles ++ str asset_path ∷ [])) w₂,
        ),
      )
