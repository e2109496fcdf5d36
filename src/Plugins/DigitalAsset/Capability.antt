-- ===== src/Plugins/DigitalAsset/Capability.antt =====
-- The capability goes from the token to the guardian.
use pdo_contracts.Base.{String, ◌≡◌, ◌⊎◌, inl, inr, arith, List, [], ◌∷◌}
use pdo_contracts.Base.Exec.{Result, ok, err, Exn, Result-cases}
use pdo_contracts.Base.Json.{Json, keywords}
use pdo_contracts.Plugins.Client.{Client}
use pdo_contracts.Plugins.Client.Laws.{Sent, IsLawful}
use pdo_contracts.Plugins.DigitalAsset.{send_capability}

module _ (K : Client) (L : IsLawful K) (method data_guardian : String) (session : K.Session)
    (w : K.World) where
  -- The request for a capability, to the token's contract.
  abbrev pub request_of : Result String → Sent
  request_of a = record {
    save_file = L.save_file session;
    commit = L.commit session;
    message = K.invocation_request method [];
    answer = a;
  }

  -- The processing of a capability, by the guardian's contract.
  abbrev pub processing : List (String × Json) → Result String → Sent
  processing params a = record {
    save_file = data_guardian;
    commit = L.commit (K.session_parameters data_guardian);
    message = K.invocation_request "process_capability" params;
    answer = a;
  }

  -- One message goes to the token's contract. A second goes to the guardian's only if the first was
  -- answered by a capability, with its entries as arguments, and its answer is then the result; in
  -- every other case the operation raises.
  pub send_capability-carries :
      let (r, w') = send_capability K method data_guardian session w in
      ((e : Exn) × (answer : Result String) × (r ≡ err e)
        × (L.sent w' ≡ request_of answer ∷ L.sent w))
      ⊎ ((capability : String) × (j : Json) × (params : List (String × Json)) × (K.json_loads
              capability
            ≡ ok j)
          × (keywords j ≡ ok params)
          × (L.sent w' ≡ processing params r ∷ request_of (ok capability) ∷ L.sent w))
  unfolding send_capability
  send_capability-carries =
      let m = K.send_to_contract (K.invocation_request method []) session w in
      let first = L.sent-send (K.invocation_request method []) session w in
      elim (Result-cases m.0) [
        | inr (e, h) ↦ inl (e, m.0, ground arith, ground (arith, first))
        | inl (capability, h) ↦ elim (Result-cases (K.json_loads capability)) [
          | inr (e, h₁) ↦ inl (e, m.0, ground arith, ground (arith, first))
          | inl (j, h₁) ↦ elim (Result-cases (keywords j)) [
            | inr (e, h₂) ↦ inl (e, m.0, ground arith, ground (arith, first))
            | inl (params, h₂) ↦ inr (
              capability,
              j,
              params,
              h₁,
              h₂,
              ground (
                arith,
                first,
                L.sent-send (K.invocation_request "process_capability" params)
                    (K.session_parameters data_guardian) m.1,
                L.save_file-session data_guardian,
              ),
            )
          ]
        ]
      ]
