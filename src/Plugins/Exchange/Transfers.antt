-- ===== src/Plugins/Exchange/Transfers.antt =====
-- What the commands of an exchange send, in every case.
use pdo_contracts.Base.{String, ◌≡◌, ap, ◌⊎◌, inl, inr, true, false, arith, [], ◌∷◌}
use pdo_contracts.Base.Exec.{Result, ok, err, Exn, Result-cases}
use pdo_contracts.Plugins.Client.{Client, Kwargs, find_contract_or_none, with_identity}
use pdo_contracts.Plugins.Client.Laws.{IsLawful, message_to}
use pdo_contracts.Plugins.Client.Relay.{Relays, relay, relay-Relays}
use pdo_contracts.Plugins.Issuer.{op_claim}
use pdo_contracts.Plugins.Exchange.{
  order_contract, op_claim_offered_asset, op_claim_exchanged_asset, cmd_claim_offer,
  cmd_claim_payment,
}

abbrev not_created : String
not_created = "issuer contract has not been created"

module _ (K : Client) (L : IsLawful K) (context : K.Context) (kwargs : Kwargs) (w : K.World) where
  -- The order's contract and the issuer's, by their save files.
  pub record Located (label message : String) (file file' : String) : Type 0 where
    pub order : order_contract K context w ≡ ok file
    pub issuer : K.Context
    pub named : K.get_context context label w ≡ ok issuer
    pub created : find_contract_or_none K message issuer w ≡ ok file'

  -- A claim raises before it sends anything and changes nothing, or it sends what `Relays` says: the
  -- question to the order's contract, and to the issuer the claim with the attestation.
  abbrev pub Claims : String → String → Result String × K.World → Type 0
  Claims label method (r, w') =
      ((e : Exn) × (r ≡ err e) × (w' ≡ w))
      ⊎ ((file file' : String) × Located label not_created file file'
          × Relays K (message_to K L file false method [])
              (λ a. message_to K L file' true "claim" (("claim_request", a) ∷ [])) (L.sent w)
              (L.sent w') file r)

  module _ (label method : String) where
    abbrev claim_relay : K.Context → String → String → Result String × K.World
    claim_relay issuer file file' =
        relay K L method [] "claim" (λ a. ("claim_request", a) ∷ []) context issuer file file' file
          (with_identity K kwargs w) w

    -- A command claims if it stops at the first contract that is not found, and is a relay otherwise.
    Claims-of :
        (run : Result String × K.World)
        → ((e : Exn) → order_contract K context w ≡ err e → run ≡ (err e, w))
        → ((e : Exn) (file : String)
            → order_contract K context w ≡ ok file
            → K.get_context context label w ≡ err e
            → run ≡ (err e, w))
        → ((e : Exn) (file : String) (issuer : K.Context)
            → order_contract K context w ≡ ok file
            → K.get_context context label w ≡ ok issuer
            → find_contract_or_none K not_created issuer w ≡ err e
            → run ≡ (err e, w))
        → ((file file' : String) (issuer : K.Context)
            → order_contract K context w ≡ ok file
            → K.get_context context label w ≡ ok issuer
            → find_contract_or_none K not_created issuer w ≡ ok file'
            → run ≡ claim_relay issuer file file')
        → Claims label method run
    Claims-of run no_order no_context no_issuer found =
        elim (Result-cases (order_contract K context w)) [
          | inr (e, h) ↦ inl (e, ground (arith, no_order e h), ground (arith, no_order e h))
          | inl (file, h) ↦ elim (Result-cases (K.get_context context label w)) [
            | inr (e, h₁) ↦
                inl (
                  e,
                  ap (λ x. x.0) (no_context e file h h₁),
                  ap (λ x. x.1) (no_context e file h h₁),
                )
            | inl (issuer, h₁) ↦
                elim (Result-cases (find_contract_or_none K not_created issuer w)) [
                  | inr (e, h₂) ↦ inl (
                    e,
                    ap (λ x. x.0) (no_issuer e file issuer h h₁ h₂),
                    ap (λ x. x.1) (no_issuer e file issuer h h₁ h₂),
                  )
                  | inl (file', h₂) ↦ inr (
                    file,
                    file',
                    record { order = h; issuer = issuer; named = h₁; created = h₂ },
                    rw (found file file' issuer h h₁ h₂) (
                        relay-Relays K L method [] "claim" (λ a. ("claim_request", a) ∷ []) context
                          issuer file file' file (with_identity K kwargs w) w),
                  )
                ]
          ]
        ]

  -- Claiming the offered assets changes nothing and raises, or sends at most two messages: the order's
  -- contract is asked for the claim, and the issuer of the offered assets is sent a claim, committed,
  -- only with the attestation that the answer is; it succeeds only if the claim is answered.
  pub cmd_claim_offer-Claims :
      Claims "offer.issuer_context" "claim_offered_asset" (cmd_claim_offer K context kwargs w)
  unfolding cmd_claim_offer op_claim_offered_asset op_claim
  cmd_claim_offer-Claims =
      Claims-of "offer.issuer_context" "claim_offered_asset" (cmd_claim_offer K context kwargs w)
        (λ e h. ground arith) (λ e file h h₁. ground arith) (λ e file issuer h h₁ h₂. ground arith)
        (λ file file' issuer h h₁ h₂. ground arith)

  -- Claiming the payment changes nothing and raises, or sends at most two messages: the order's
  -- contract is asked for the claim of the exchanged asset, and the issuer of the requested assets is
  -- sent a claim, committed, only with the attestation that the answer is; it succeeds only if the claim
  -- is answered.
  pub cmd_claim_payment-Claims :
      Claims "request.issuer_context" "claim_exchanged_asset" (cmd_claim_payment K context kwargs w)
  unfolding cmd_claim_payment op_claim_exchanged_asset op_claim
  cmd_claim_payment-Claims =
      Claims-of "request.issuer_context" "claim_exchanged_asset"
        (cmd_claim_payment K context kwargs w) (λ e h. ground arith) (λ e file h h₁. ground arith)
        (λ e file issuer h h₁ h₂. ground arith) (λ file file' issuer h h₁ h₂. ground arith)
