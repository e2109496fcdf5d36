-- ===== src/Plugins/Exchange/Escrow.antt =====
-- What the commands of an exchange put into escrow, and what they take out of it.
use pdo_contracts.Base.{String, ◌≡◌, ◌⊎◌, inl, inr, Option, true, false, arith, ap, [], ◌∷◌}
use pdo_contracts.Base.Exec.{Result, ok, err, Exn, Result-cases}
use pdo_contracts.Base.Json.{Json}
use pdo_contracts.Plugins.Client.{Client, Kwargs, find_contract, find_contract_or_none, invoke_json}
use pdo_contracts.Plugins.Client.Laws.{IsLawful, message_to, committed, invoke_json-committed}
use pdo_contracts.Plugins.Client.Custody.{Hands, hand, hand-Hands}
use pdo_contracts.Plugins.Issuer.{op_escrow, op_release}
use pdo_contracts.Plugins.Exchange.{
  order_contract, issuer_of, count_of, op_cancel_exchange, op_exchange, cmd_cancel_order,
  cmd_match_order,
}

abbrev no_issuer : String
no_issuer = "failed to find the issuer contract"

abbrev no_issuer_contract : String
no_issuer_contract = "unable to locate issuer contract"

module _ (K : Client) (L : IsLawful K) (context : K.Context) (w : K.World) where
  -- The contracts of the order and of the issuer of the offered assets.
  pub record Cancellable (file file' : String) : Type 0 where
    pub issuer : K.Context
    pub named : K.get_context context "offer.issuer_context" w ≡ ok issuer
    pub created : find_contract K no_issuer issuer w ≡ ok file'
    pub order : order_contract K context w ≡ ok file

  -- What a cancellation sends.
  abbrev pub Cancels : Result String × K.World → Type 0
  Cancels (r, w') =
      ((e : Exn) × (r ≡ err e) × (w' ≡ w))
      ⊎ ((file file' : String) × Cancellable file file'
          × Hands K (message_to K L file true "cancel_exchange" [])
              (message_to K L file false "cancel_exchange_attestation" [])
              (λ a. message_to K L file' true "release" (("release_request", a) ∷ [])) (L.sent w)
              (L.sent w') file r)

  abbrev cancel_hand : Kwargs → String → String → Result String × K.World
  cancel_hand kwargs file file' =
      hand K L "cancel_exchange" [] "cancel_exchange_attestation" [] "release"
        (λ a. ("release_request", a) ∷ []) context context file file' file kwargs w

  cmd_cancel_order-hand :
      (kwargs : Kwargs) {file file' : String}
      → Cancellable file file'
      → cmd_cancel_order K context kwargs w ≡ cancel_hand kwargs file file'
  unfolding cmd_cancel_order op_cancel_exchange op_release
  cmd_cancel_order-hand kwargs c = ground (arith, c.named, c.created, c.order)

  -- Cancelling an order changes nothing and raises, or sends up to three messages in this order: the
  -- cancellation, committed, to the order's contract; the question for its attestation, only once the
  -- cancellation was answered; and the release, committed, to the issuer of the offered assets, only
  -- with the attestation that was answered. It succeeds only if the release is answered.
  pub cmd_cancel_order-Cancels : (kwargs : Kwargs) → Cancels (cmd_cancel_order K context kwargs w)
  cmd_cancel_order-Cancels kwargs =
      elim (Result-cases (K.get_context context "offer.issuer_context" w)) [
        | inr (e, h) ↦ stopped e (unfold cmd_cancel_order in ground arith)
        | inl (issuer, h) ↦ elim (Result-cases (find_contract K no_issuer issuer w)) [
          | inr (e, h₁) ↦ stopped e (unfold cmd_cancel_order in ground arith)
          | inl (file', h₁) ↦ elim (Result-cases (order_contract K context w)) [
            | inr (e, h₂) ↦ stopped e (unfold cmd_cancel_order in ground arith)
            | inl (file, h₂) ↦
                let c : Cancellable file file' = record {
                  issuer = issuer;
                  named = h;
                  created = h₁;
                  order = h₂;
                } in
                inr (
                  file,
                  file',
                  c,
                  rw (cmd_cancel_order-hand kwargs c) (
                      hand-Hands K L "cancel_exchange" [] "cancel_exchange_attestation" [] "release"
                        (λ a. ("release_request", a) ∷ []) context context file file' file kwargs
                        w),
                )
          ]
        ]
      ]
    where
      stopped :
          (e : Exn)
          → cmd_cancel_order K context kwargs w ≡ (err e, w)
          → Cancels (cmd_cancel_order K context kwargs w)
      stopped e h = inl (e, ap (λ x. x.0) h, ap (λ x. x.1) h)

  -- The contracts, the count and the key with which an order is matched, and the world after the
  -- order's contract was asked for its key.
  pub record Matched (issuer_path : Option String) (given_count : Option Json) (file file' : String)
      (count key : Json) (w₁ : K.World) : Type 0 where
    pub order : order_contract K context w ≡ ok file
    pub issuer : K.Context
    pub named : issuer_of K context issuer_path w ≡ ok issuer
    pub created : find_contract_or_none K no_issuer_contract issuer w ≡ ok file'
    pub counted : count_of K context given_count w ≡ ok count
    pub keyed :
        invoke_json K K.op_get_verifying_key context (K.session_parameters file) [] w ≡ (ok key, w₁)
    pub uncommitted : committed (L.sent w₁) ≡ committed (L.sent w)

  -- What matching an order sends.
  abbrev pub Matches : Option String → Option Json → Result String × K.World → Type 0
  Matches issuer_path given_count (r, w') =
      ((e : Exn) × (r ≡ err e) × (committed (L.sent w') ≡ committed (L.sent w)))
      ⊎ ((file file' : String) × (count key : Json) × (w₁ : K.World) × Matched issuer_path
            given_count file file' count key w₁
          × Hands K
              (message_to K L file' true "escrow"
                (("escrow_agent_identity", key) ∷ ("count", count) ∷ []))
              (message_to K L file' false "escrow_attestation"
                (("escrow_agent_identity", key) ∷ []))
              (λ a.
                message_to K L file true "exchange_asset"
                  (("exchanged_authoritative_asset", a) ∷ []))
              (L.sent w₁) (L.sent w') file r)

  module _ (issuer_path : Option String) (given_count : Option Json) (kwargs : Kwargs) where
    abbrev match_run : Result String × K.World
    match_run = cmd_match_order K context issuer_path given_count kwargs w

    cmd_match_order-hand :
        {file file' : String} {count key : Json} {w₁ : K.World}
        (m : Matched issuer_path given_count file file' count key w₁)
        → match_run
          ≡ hand K L "escrow"
              (("escrow_agent_identity", key) ∷ ("count", count) ∷ [])
              "escrow_attestation"
              (("escrow_agent_identity", key) ∷ [])
              "exchange_asset"
              (λ a. ("exchanged_authoritative_asset", a) ∷ [])
              m.issuer
              context
              file'
              file
              file
              kwargs
              w₁
    unfolding cmd_match_order op_escrow op_exchange
    cmd_match_order-hand m = ground (arith, m.order, m.named, m.created, m.counted, m.keyed)

    -- Matching an order commits nothing and raises, or sends, once the order's contract has given its
    -- key, up to three messages in this order: the escrow of the assets for that key, committed, to the
    -- issuer; the question for its attestation, only once the escrow was answered; and the exchange,
    -- committed, to the order's contract, only with the attestation that was answered. It succeeds only
    -- if the exchange is answered.
    pub cmd_match_order-Matches : Matches issuer_path given_count match_run
    cmd_match_order-Matches = elim (Result-cases (order_contract K context w)) [
      | inr (e, h) ↦ stopped e (unfold cmd_match_order in ground arith)
      | inl (file, h) ↦ elim (Result-cases (issuer_of K context issuer_path w)) [
        | inr (e, h₁) ↦ stopped e (unfold cmd_match_order in ground arith)
        | inl (issuer, h₁) ↦
            elim (Result-cases (find_contract_or_none K no_issuer_contract issuer w)) [
              | inr (e, h₂) ↦ stopped e (unfold cmd_match_order in ground arith)
              | inl (file', h₂) ↦ elim (Result-cases (count_of K context given_count w)) [
                | inr (e, h₃) ↦ stopped e (unfold cmd_match_order in ground arith)
                | inl (count, h₃) ↦ keyed file issuer file' count h h₁ h₂ h₃
              ]
            ]
      ]
    ]
      where
        stopped : (e : Exn) → match_run ≡ (err e, w) → Matches issuer_path given_count match_run
        stopped e h = inl (e, ap (λ x. x.0) h, ap (λ x. committed (L.sent x.1)) h)

        keyed :
            (file : String) (issuer : K.Context) (file' : String) (count : Json)
            → order_contract K context w ≡ ok file
            → issuer_of K context issuer_path w ≡ ok issuer
            → find_contract_or_none K no_issuer_contract issuer w ≡ ok file'
            → count_of K context given_count w ≡ ok count
            → Matches issuer_path given_count match_run
        keyed file issuer file' count h h₁ h₂ h₃ =
            let q = invoke_json K K.op_get_verifying_key context (K.session_parameters file) [] w in
            let same = invoke_json-committed K L context (K.session_parameters file) [] w in
            elim (Result-cases q.0) [
              | inr (e, h₄) ↦ inl (
                e,
                unfold cmd_match_order in ground arith,
                unfold cmd_match_order in ground (arith, same),
              )
              | inl (key, h₄) ↦
                  let m : Matched issuer_path given_count file file' count key q.1 = record {
                    order = h;
                    issuer = issuer;
                    named = h₁;
                    created = h₂;
                    counted = h₃;
                    keyed = ground arith;
                    uncommitted = same;
                  } in
                  inr (
                    file,
                    file',
                    count,
                    key,
                    q.1,
                    m,
                    rw (cmd_match_order-hand m) (
                        hand-Hands K L "escrow"
                          (("escrow_agent_identity", key) ∷ ("count", count) ∷ [])
                          "escrow_attestation" (("escrow_agent_identity", key) ∷ [])
                          "exchange_asset" (λ a. ("exchanged_authoritative_asset", a) ∷ []) issuer
                          context file' file file kwargs q.1),
                  )
            ]
