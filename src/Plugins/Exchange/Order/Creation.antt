-- ===== src/Plugins/Exchange/Order/Creation.antt =====
-- What the creation of an order puts into escrow.
use pdo_contracts.Base.{String, ◌≡◌, ◌⊎◌, List, true, false, [], ◌∷◌}
use pdo_contracts.Base.Exec.{Result, ok, err, Exn}
use pdo_contracts.Base.Json.{Json, dict}
use pdo_contracts.Plugins.Client.{Client, Kwargs, with_identity}
use pdo_contracts.Plugins.Client.Laws.{IsLawful, message_to, committed}
use pdo_contracts.Plugins.Client.Custody.{Hands}
use pdo_contracts.Plugins.Exchange.Order.{OrderArguments, Prepared, prepare_order}

module _ (K : Client) (L : IsLawful K) where
  -- The initialization of an order's contract, with the offer's attestation.
  abbrev initialization : Prepared K → Json → List (String × Json)
  initialization p a =
      (
        "asset_request",
        dict (
            ("issuer_verifying_key", p.request_issuer_verifying_key)
            ∷ ("asset_type_identifier", p.asset_type_contract_id)
            ∷ ("count", p.request_amount)
            ∷ ("owner_identity", p.user_key)
            ∷ []),
      )
      ∷ ("offered_authoritative_asset", a)
      ∷ []

  module _ (context : K.Context) (arguments : OrderArguments) (kwargs : Kwargs) (w : K.World) where
    -- What the creation of an order sends, once it is prepared.
    abbrev pub Creates : Result String × K.World → Type 0
    Creates (r, w') =
        ((e : Exn) × (r ≡ err e) × (committed (L.sent w') ≡ committed (L.sent w)))
        ⊎ ((p : Prepared K) × (w₁ : K.World) × (prepare_order K context arguments
                (with_identity K kwargs w) w
              ≡ (ok p, w₁))
            × (committed (L.sent w₁) ≡ committed (L.sent w))
            × Hands K
                (message_to K L p.offer_issuer_save_file true "escrow"
                  (("escrow_agent_identity", p.verifying_key) ∷ ("count", p.offer_amount) ∷ []))
                (message_to K L p.offer_issuer_save_file false "escrow_attestation"
                  (("escrow_agent_identity", p.verifying_key) ∷ []))
                (λ a. message_to K L p.save_file true "initialize" (initialization p a)) (L.sent w₁)
                (L.sent w') p.save_file r)
