-- ===== src/Plugins/Client/Custody.antt =====
-- A contract is sent a transaction and asked for its attestation, and another contract is sent that.
use pdo_contracts.Base.{String, ◌≡◌, ◌⊎◌, inl, inr, true, false, arith, List, ◌∷◌}
use pdo_contracts.Base.Dict.{Dict}
use pdo_contracts.Base.Exec.{Action, Result, ok, err, Exn, Result-cases, pure, ◌▷◌, ◌>>=◌}
use pdo_contracts.Base.Json.{Json}
use pdo_contracts.Plugins.Client.{Client, Kwargs, transact, invoke_json}
use pdo_contracts.Plugins.Client.Laws.{Sent, IsLawful, message_to, transact-sent, invoke-Sends}

-- What such a step sends and gives: the transaction is sent first, the attestation is asked for only if
-- the transaction was answered, and the order is sent only with the attestation that the answer is. It
-- succeeds only if the order is answered.
pub data Hands (K : Client) (transaction question : Result String → Sent)
    (order : Json → Result String → Sent) (before after : List Sent) (value : String)
    (r : Result String) : Type 0 where
  silent :
      (e : Exn)
      → r ≡ err e
      → after ≡ before
      → Hands K transaction question order before after value r
  refused :
      (e : Exn)
      → r ≡ err e
      → after ≡ transaction (err e) ∷ before
      → Hands K transaction question order before after value r
  held :
      (text : String) (answer : Result String) (e : Exn)
      → r ≡ err e
      → after ≡ question answer ∷ transaction (ok text) ∷ before
      → Hands K transaction question order before after value r
  handed :
      (text attested : String) (attestation : Json) (answer : Result String)
      → K.json_loads attested ≡ ok attestation
      → r ≡ (answer ▷ λ _. ok value)
      → after ≡ order attestation answer ∷ question (ok attested) ∷ transaction (ok text) ∷ before
      → Hands K transaction question order before after value r

module _ (K : Client) (L : IsLawful K) (act : String) (act_arguments : Dict String Json)
    (ask : String) (ask_arguments : Dict String Json) where
  -- The operation of the first contract.
  abbrev pub attested : K.Session → Action K.World String
  attested session = do
    _ ← transact K act act_arguments true session
    transact K ask ask_arguments false session

  -- What the operation sends.
  abbrev Attests : String → K.World → Result String × K.World → Type 0
  Attests file w (r, w') =
      ((text : String) × (L.sent w'
          ≡ message_to K L file false ask ask_arguments r
            ∷ message_to K L file true act act_arguments (ok text)
            ∷ L.sent w))
      ⊎ ((e : Exn) × (r ≡ err e)
          × ((L.sent w' ≡ L.sent w)
              ⊎ (L.sent w' ≡ message_to K L file true act act_arguments (err e) ∷ L.sent w)))

  invoke-Attests :
      (c : K.Context) (file : String) (kwargs : Kwargs) (w : K.World)
      → Attests file w (K.invoke_contract_op attested c (K.session_parameters file) kwargs w)
  invoke-Attests c file kwargs w =
      let run = L.invoked attested c (K.session_parameters file) kwargs w in
      elim (Result-cases (L.effective c (K.session_parameters file) kwargs w)) [
        | inr (e, h) ↦ inr (e, ground (arith, run), inl (ground (arith, run)))
        | inl (s', h) ↦
            let same = L.effective_file c (K.session_parameters file) s' kwargs w h in
            let first = transact-sent K L act act_arguments true s' w in
            elim (Result-cases (transact K act act_arguments true s' w).0) [
              | inr (e, h₁) ↦ inr (
                e,
                ground (arith, run),
                inr (ground (arith, run, same, first, L.save_file-session file)),
              )
              | inl (text, h₁) ↦ inl (
                text,
                ground (
                  arith,
                  run,
                  same,
                  first,
                  transact-sent K L ask ask_arguments false s'
                      (transact K act act_arguments true s' w).1,
                  L.save_file-session file,
                ),
              )
            ]
      ]

  module _ (tell : String) (tell_arguments : Json → Dict String Json) (c c' : K.Context)
      (file file' value : String) (kwargs : Kwargs) where
    abbrev pub hand : Action K.World String
    hand = do
      attestation ← invoke_json K attested c (K.session_parameters file) kwargs
      _ ←
          K.invoke_contract_op (transact K tell (tell_arguments attestation) true) c'
            (K.session_parameters file') kwargs
      pure value

    pub hand-Hands :
        (w : K.World)
        → let (r, w') = hand w in
          Hands K
            (message_to K L file true act act_arguments)
            (message_to K L file false ask ask_arguments)
            (λ a. message_to K L file' true tell (tell_arguments a))
            (L.sent w)
            (L.sent w')
            value
            r
    hand-Hands w =
        let m = K.invoke_contract_op attested c (K.session_parameters file) kwargs w in
        elim (invoke-Attests c file kwargs w) [
          | inr (e, h, inl s) ↦ silent e (ground arith) (ground arith)
          | inr (e, h, inr s) ↦ refused e (ground arith) (ground arith)
          | inl (text, s) ↦ elim (Result-cases m.0) [
            | inr (e, h) ↦ held text m.0 e (ground arith) (ground arith)
            | inl (answered, h) ↦ elim (Result-cases (K.json_loads answered)) [
              | inr (e, h₁) ↦ held text m.0 e (ground arith) (ground arith)
              | inl (a, h₁) ↦
                  elim (invoke-Sends K L tell (tell_arguments a) true c' file' kwargs m.1) [
                    | inr (e, h₂, s₂) ↦ held text m.0 e (ground arith) (ground arith)
                    | inl s₂ ↦
                        handed text answered a
                          (K.invoke_contract_op (transact K tell (tell_arguments a) true) c'
                            (K.session_parameters file') kwargs m.1).0
                          h₁ (ground arith) (ground arith)
                  ]
            ]
          ]
        ]
