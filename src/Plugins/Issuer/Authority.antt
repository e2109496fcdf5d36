-- ===== src/Plugins/Issuer/Authority.antt =====
-- Where an issuer's authority comes from.
use pdo_contracts.Base.{Bool, inl, inr, String, ◌≡◌, true, false, arith, sym, [], ◌∷◌}
use mathlib.Core.Path.{subst}
use pdo_contracts.Base.Exec.{Result, Exn, ok, err, Result-cases, ◌▷◌}
use pdo_contracts.Base.Json.{Json}
use pdo_contracts.Plugins.Client.{Client, find_contract, find_contract_or_none}
use pdo_contracts.Plugins.Client.Laws.{IsLawful, message_to, committed, invoke_json-committed}
use pdo_contracts.Plugins.Client.Relay.{Relays, relay, relay-Relays}
use pdo_contracts.Plugins.Vetting.{op_get_issuer_authority}
use pdo_contracts.Plugins.Issuer.{op_initialize, cmd_initialize_issuer, verifying_key_of}

abbrev no_issuer : String
no_issuer = "issuer contract must be created and approved"

abbrev no_vetting : String
no_vetting = "vetting contract has not been created"

module _ (K : Client) (L : IsLawful K) (context vetting : K.Context) (w w₁ : K.World) where
  module _ (file file' : String) (key : Json)
      (found : find_contract K "issuer contract must be created and approved" context w ≡ ok file)
      (keyed : verifying_key_of K context file w ≡ (ok key, w₁))
      (named : K.get_context context "vetting_context" w₁ ≡ ok vetting)
      (vetted : find_contract_or_none K "vetting contract has not been created" vetting w₁
        ≡ ok file') where
    abbrev authority_relay : Result String × K.World
    authority_relay =
        relay K L "get_issuer_authority" (("issuer_verifying_key", key) ∷ []) "initialize"
          (λ a. ("asset_authority_chain", a) ∷ []) vetting context file' file file [] w₁

    cmd_initialize_issuer-relay :
        (let (r, w') = cmd_initialize_issuer K context w in (r ▷ λ _. ok file, w'))
        ≡ authority_relay
    unfolding cmd_initialize_issuer op_get_issuer_authority op_initialize
    cmd_initialize_issuer-relay = ground (arith, found, keyed, named, vetted)

    -- With contract, key and vetting organization found, the command is the relay of the authority.
    cmd_initialize_issuer-Relays :
        let (r, w') = cmd_initialize_issuer K context w in
        Relays K
          (message_to K L file' false "get_issuer_authority" (("issuer_verifying_key", key) ∷ []))
          (λ a. message_to K L file true "initialize" (("asset_authority_chain", a) ∷ []))
          (L.sent w₁)
          (L.sent w')
          file
          (r ▷ λ _. ok file)
    cmd_initialize_issuer-Relays =
        subst
          (λ x.
            Relays K
              (message_to K L file' false "get_issuer_authority"
                (("issuer_verifying_key", key) ∷ []))
              (λ a. message_to K L file true "initialize" (("asset_authority_chain", a) ∷ []))
              (L.sent w₁) (L.sent x.1) file x.0)
          (sym cmd_initialize_issuer-relay)
          (relay-Relays K L "get_issuer_authority" (("issuer_verifying_key", key) ∷ []) "initialize"
            (λ a. ("asset_authority_chain", a) ∷ []) vetting context file' file file [] w₁)

-- What of an issuer is not found, and the exception that this raises.
pub data Unfound (K : Client) (context : K.Context) (w : K.World) (e : Exn) : Type 0 where
  no_contract : find_contract K no_issuer context w ≡ err e → Unfound K context w e
  no_key :
      (file : String)
      → find_contract K no_issuer context w ≡ ok file
      → (verifying_key_of K context file w).0 ≡ err e
      → Unfound K context w e
  no_organization :
      (file : String)
      → find_contract K no_issuer context w ≡ ok file
      → K.get_context context "vetting_context" (verifying_key_of K context file w).1 ≡ err e
      → Unfound K context w e
  no_vetting_contract :
      (file : String) (vetting : K.Context)
      → find_contract K no_issuer context w ≡ ok file
      → K.get_context context "vetting_context" (verifying_key_of K context file w).1 ≡ ok vetting
      → find_contract_or_none K no_vetting vetting (verifying_key_of K context file w).1 ≡ err e
      → Unfound K context w e

-- What initializing an issuer does: it raises without a transaction, or it has found the issuer's
-- contract, its key and the vetting organization, and then relays the authority for the key.
pub data Initializes (K : Client) (L : IsLawful K) (context : K.Context) (w : K.World)
    (r : Result Bool) (w' : K.World) : Type 0 where
  refused :
      (e : Exn)
      → Unfound K context w e
      → r ≡ err e
      → committed (L.sent w') ≡ committed (L.sent w)
      → Initializes K L context w r w'
  relayed :
      (vetting : K.Context) (w₁ : K.World) (file file' : String) (key : Json)
      → find_contract K no_issuer context w ≡ ok file
      → verifying_key_of K context file w ≡ (ok key, w₁)
      → committed (L.sent w₁) ≡ committed (L.sent w)
      → K.get_context context "vetting_context" w₁ ≡ ok vetting
      → find_contract_or_none K no_vetting vetting w₁ ≡ ok file'
      → Relays K
          (message_to K L file' false "get_issuer_authority" (("issuer_verifying_key", key) ∷ []))
          (λ a. message_to K L file true "initialize" (("asset_authority_chain", a) ∷ []))
          (L.sent w₁)
          (L.sent w')
          file
          (r ▷ λ _. ok file)
      → Initializes K L context w r w'

module _ (K : Client) (L : IsLawful K) (context : K.Context) (w : K.World) where
  verifying_key_of-committed :
      (file : String)
      → committed (L.sent (verifying_key_of K context file w).1) ≡ committed (L.sent w)
  verifying_key_of-committed file =
      ground (arith, invoke_json-committed K L context (K.session_parameters file) [] w)

  -- Initializing an issuer raises without a transaction where its contract, its key or the contract of
  -- the vetting organization is not found. Otherwise the issuer is sent the message that initializes
  -- it, which is the one that is committed, only with the authority that the vetting organization
  -- answered for its key, and the command succeeds only if this message is answered.
  pub cmd_initialize_issuer-Initializes :
      let (r, w') = cmd_initialize_issuer K context w in Initializes K L context w r w'
  unfolding cmd_initialize_issuer
  cmd_initialize_issuer-Initializes = elim (Result-cases (find_contract K no_issuer context w)) [
    | inr (e, h) ↦ refused e (no_contract h) (ground arith) (ground arith)
    | inl (file, h) ↦
        let k = verifying_key_of-committed file in
        let w₁ = (verifying_key_of K context file w).1 in
        elim (Result-cases (verifying_key_of K context file w).0) [
          | inr (e, h₁) ↦ refused e (no_key file h h₁) (ground arith) (ground (arith, k))
          | inl (key, h₁) ↦ elim (Result-cases (K.get_context context "vetting_context" w₁)) [
            | inr (e, h₂) ↦ refused e (no_organization file h h₂) (ground arith) (ground (arith, k))
            | inl (vetting, h₂) ↦
                elim (Result-cases (find_contract_or_none K no_vetting vetting w₁)) [
                  | inr (e, h₃) ↦
                      refused e (no_vetting_contract file vetting h h₂ h₃) (ground arith)
                        (ground (arith, k))
                  | inl (file', h₃) ↦ relayed vetting w₁ file file' key h (ground arith) k h₂ h₃ (
                      cmd_initialize_issuer-Relays K L context vetting w w₁ file file' key h
                        (ground arith) h₂ h₃)
                ]
          ]
        ]
  ]
