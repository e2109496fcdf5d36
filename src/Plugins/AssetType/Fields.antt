-- ===== src/Plugins/AssetType/Fields.antt =====
-- The fields with which an asset type is initialized.
use pdo_contracts.Base.{String, ◌≡◌, ◌⊎◌, inl, inr, none, true, arith, List, [], ◌∷◌}
use pdo_contracts.Base.Exec.{Result, ok, err, Exn}
use pdo_contracts.Base.Json.{Json}
use pdo_contracts.Plugins.Client.{Client, Kwargs, transact}
use pdo_contracts.Plugins.Client.Laws.{IsLawful, message_to, invoke-Sends}
use pdo_contracts.Plugins.AssetType.{op_initialize, cmd_create_asset_type, create}

module _ (K : Client) (L : IsLawful K) (context : K.Context) (kwargs : Kwargs)
    (w w₁ : K.World) where
  sent-created :
      (save_file : String)
      → create K context "asset_type" kwargs w ≡ (ok save_file, w₁)
      → L.sent w₁ ≡ L.sent w
  sent-created save_file created = grind (arith, L.sent-create, L.sent-set)

  -- Where a context has no contract and one is created, whose context then has a name, a description
  -- and a link: the command sends at most one message, a committed initialization with the description
  -- in place of the name and the name in place of the description; it raises if it sends none.
  cmd_create_asset_type-swaps :
      (save_file : String) (name description link : Json)
      → K.get_contract_from_context context w ≡ ok none
      → create K context "asset_type" kwargs w ≡ (ok save_file, w₁)
      → K.context_item context "name" w₁ ≡ ok name
      → K.context_item context "description" w₁ ≡ ok description
      → K.context_item context "link" w₁ ≡ ok link
      → let (r, w') = cmd_create_asset_type K context kwargs w in
        ((answer : Result String) × (L.sent w'
            ≡ message_to K L save_file true "initialize"
                (("name", description) ∷ ("description", name) ∷ ("link", link) ∷ [])
                answer
              ∷ L.sent w))
        ⊎ ((e : Exn) × (r ≡ err e) × (L.sent w' ≡ L.sent w))
  unfolding cmd_create_asset_type op_initialize
  cmd_create_asset_type-swaps save_file name description link fresh created named described linked =
      let arguments : List (String × Json) =
        ("name", description) ∷ ("description", name) ∷ ("link", link) ∷ [] in
      let same = sent-created save_file created in
      elim (invoke-Sends K L "initialize" arguments true context save_file kwargs w₁) [
        | inl s ↦ inl (
          (K.invoke_contract_op (transact K "initialize" arguments true) context
              (K.session_parameters save_file) kwargs w₁).0,
          ground (arith, same),
        )
        | inr (e, h, s) ↦ inr (e, ground arith, ground (arith, same))
      ]
