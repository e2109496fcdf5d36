-- ===== src/Plugins/Client/Relay.antt =====
-- One contract is asked for an attestation, and another is sent it.
use pdo_contracts.Base.{String, ◌≡◌, inl, inr, true, false, arith, List, ◌∷◌}
use pdo_contracts.Base.Dict.{Dict}
use pdo_contracts.Base.Exec.{Action, Result, ok, err, Exn, Result-cases, pure, ◌▷◌, ◌>>=◌}
use pdo_contracts.Base.Json.{Json}
use pdo_contracts.Plugins.Client.{Client, Kwargs, transact, invoke_json}
use pdo_contracts.Plugins.Client.Laws.{Sent, IsLawful, invoke-Sends, message_to}

-- What such a step sends and gives: nothing, the question alone, or the question and then an order, for
-- the attestation that the answer to the question is. It succeeds only if the order is answered.
pub data Relays (K : Client) (question : Result String → Sent) (order : Json → Result String → Sent)
    (before after : List Sent) (value : String) (r : Result String) : Type 0 where
  silent : (e : Exn) → r ≡ err e → after ≡ before → Relays K question order before after value r
  asked :
      (answer : Result String) (e : Exn)
      → r ≡ err e
      → after ≡ question answer ∷ before
      → Relays K question order before after value r
  ordered :
      (text : String) (attestation : Json) (answer : Result String)
      → K.json_loads text ≡ ok attestation
      → r ≡ (answer ▷ λ _. ok value)
      → after ≡ order attestation answer ∷ question (ok text) ∷ before
      → Relays K question order before after value r

module _ (K : Client) (L : IsLawful K) (ask : String) (ask_arguments : Dict String Json)
    (tell : String) (tell_arguments : Json → Dict String Json) (c c' : K.Context)
    (file file' value : String) (kwargs : Kwargs) where
  abbrev pub relay : Action K.World String
  relay = do
    attestation ←
        invoke_json K (transact K ask ask_arguments false) c (K.session_parameters file) kwargs
    _ ←
        K.invoke_contract_op (transact K tell (tell_arguments attestation) true) c'
          (K.session_parameters file') kwargs
    pure value

  pub relay-Relays :
      (w : K.World)
      → let (r, w') = relay w in
        Relays K
          (message_to K L file false ask ask_arguments)
          (λ a. message_to K L file' true tell (tell_arguments a))
          (L.sent w)
          (L.sent w')
          value
          r
  relay-Relays w =
      let m =
        K.invoke_contract_op (transact K ask ask_arguments false) c (K.session_parameters file)
          kwargs w in
      let w₁ = m.1 in
      elim (invoke-Sends K L ask ask_arguments false c file kwargs w) [
        | inr (e, h, s) ↦ silent e (ground arith) (ground arith)
        | inl s ↦ elim (Result-cases m.0) [
          | inr (e, h) ↦ asked m.0 e (ground arith) (ground arith)
          | inl (text, h) ↦ elim (Result-cases (K.json_loads text)) [
            | inr (e, h₁) ↦ asked m.0 e (ground arith) (ground arith)
            | inl (a, h₁) ↦
                elim (invoke-Sends K L tell (tell_arguments a) true c' file' kwargs w₁) [
                  | inr (e, h₂, s₂) ↦ asked m.0 e (ground arith) (ground arith)
                  | inl s₂ ↦
                      ordered text a
                        (K.invoke_contract_op (transact K tell (tell_arguments a) true) c'
                          (K.session_parameters file') kwargs w₁).0
                        h₁ (ground arith) (ground arith)
                ]
          ]
        ]
      ]
