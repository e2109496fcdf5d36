-- ===== src/Guardian/AddEndpoint/Policy.antt =====
-- Which endpoints are registered, and what a registration changes.
use pdo_contracts.Base.{
  String, ◌≡◌, ◌≢◌, ◌⊎◌, true, none, some, [], arith, string_eq, inl, inr, map, contains,
  Option-cases,
}
use pdo_contracts.Base.Dict.{insert}
use pdo_contracts.Base.Exec.{ok, Result-cases}
use pdo_contracts.Base.Json.{Json, str, get_item, as_str, json_eq}
use pdo_contracts.Platform.{Platform}
use pdo_contracts.Guardian.World.{World}
use pdo_contracts.Guardian.Registry.{Endpoints, set_endpoint, enclave_keys_of}
use pdo_contracts.Guardian.Http.{value, Outcome-cases}
use pdo_contracts.Guardian.AddEndpoint.{
  AddEndpointApp, Request, unpack, check_code_hash, check_contract_id, add_endpoint,
}

-- The policy, from the configuration: a configured hash is that of the contract's code, and a
-- configured list of contracts has the contract.
abbrev pub IsAuthorized : AddEndpointApp → Request → Type 0
IsAuthorized app request =
    (app.code_hash ≢ ""
      → get_item request.contract_code_metadata "code_hash" ≡ ok (str app.code_hash))
    × (app.contract_ids ≢ [] → contains (map str app.contract_ids) request.contract_id ≡ true)

module _ (P : Platform) where
  world-unpack : (environ : P.Environ) (w : World P) → (unpack P environ w).1 ≡ w
  unfolding unpack
  world-unpack environ w = ground arith

  world-check_code_hash :
      (app : AddEndpointApp) (j : Json) (w : World P) → (check_code_hash P app j w).1 ≡ w
  unfolding check_code_hash
  world-check_code_hash app j w = ground arith

  check_code_hash-passes :
      (app : AddEndpointApp) (j : Json) (w : World P)
      → (check_code_hash P app j w).0 ≡ value tt
      → app.code_hash ≢ ""
      → get_item j "code_hash" ≡ ok (str app.code_hash)
  unfolding check_code_hash
  check_code_hash-passes app j w passed configured = ground arith

  world-check_contract_id :
      (app : AddEndpointApp) (j : Json) (w : World P) → (check_contract_id P app j w).1 ≡ w
  unfolding check_contract_id
  world-check_contract_id app j w = ground arith

  check_contract_id-passes :
      (app : AddEndpointApp) (j : Json) (w : World P)
      → (check_contract_id P app j w).0 ≡ value tt
      → app.contract_ids ≢ []
      → contains (map str app.contract_ids) j ≡ true
  unfolding check_contract_id
  check_contract_id-passes app j w passed configured = ground arith

  -- A request that was authorized, and the world with its endpoint.
  pub record Registers (app : AddEndpointApp) (environ : P.Environ) (w w' : World P) : Type 0 where
    pub request : Request
    pub unpacked : (unpack P environ w).0 ≡ value request
    pub authorized : IsAuthorized app request
    pub contract_id : String
    pub identified : request.contract_id ≡ str contract_id
    pub verifying_key : Json
    pub encryption_key : Json
    pub verified : get_item request.contract_metadata "verifying_key" ≡ ok verifying_key
    pub encrypted : get_item request.contract_metadata "encryption_key" ≡ ok encryption_key
    pub shelf : Endpoints
    pub opened : w.registry ≡ some shelf
    pub stored :
        w' ≡ record w { registry = some (insert contract_id (verifying_key, encryption_key) shelf) }

  set_endpoint-stores :
      (k : String) (v e : Json) (w : World P) (shelf : Endpoints)
      → w.registry ≡ some shelf
      → set_endpoint P k v e w
        ≡ (enclave_keys_of P v e, record w { registry = some (insert k (v, e) shelf) })
  unfolding set_endpoint
  set_endpoint-stores k v e w shelf h = ground arith

  set_endpoint_closed :
      (k : String) (v e : Json) (w : World P) → w.registry ≡ none → (set_endpoint P k v e w).1 ≡ w
  unfolding set_endpoint
  set_endpoint_closed k v e w h = ground arith

  pub as_str-eq-ok : (j : Json) (s : String) → as_str j ≡ ok s → j ≡ str s
  as_str-eq-ok j s h = ground arith

  module _ (app : AddEndpointApp) (environ : P.Environ) (w : World P) where
    abbrev after : World P
    after = (add_endpoint P app environ w).1

    -- The part of the handler after the two tests.
    registration :
        (request : Request)
        → (unpack P environ w).0 ≡ value request
        → (check_code_hash P app request.contract_code_metadata w).0 ≡ value tt
        → (check_contract_id P app request.contract_id w).0 ≡ value tt
        → (after ≡ w) ⊎ Registers app environ w after
    unfolding add_endpoint
    registration request e₁ e₂ e₃ =
        elim (Result-cases (get_item request.contract_metadata "verifying_key")) [
          | inr (x, e₄) ↦ inl (ground (arith, reads request))
          | inl (v, e₄) ↦
              elim (Result-cases (get_item request.contract_metadata "encryption_key")) [
                | inr (x, e₅) ↦ inl (ground (arith, reads request))
                | inl (e, e₅) ↦ elim (Result-cases (as_str request.contract_id)) [
                  | inr (x, e₆) ↦ inl (ground (arith, reads request))
                  | inl (k, e₆) ↦ elim (Option-cases w.registry) [
                    | inl closed ↦
                        inl (ground (arith, reads request, set_endpoint_closed k v e w closed))
                    | inr (shelf, e₇) ↦ inr (record {
                      request = request;
                      unpacked = e₁;
                      authorized = (
                        check_code_hash-passes app request.contract_code_metadata w e₂,
                        check_contract_id-passes app request.contract_id w e₃,
                      );
                      contract_id = k;
                      identified = as_str-eq-ok request.contract_id k e₆;
                      verifying_key = v;
                      encryption_key = e;
                      verified = e₄;
                      encrypted = e₅;
                      shelf = shelf;
                      opened = e₇;
                      stored = ground (arith, reads request, set_endpoint-stores k v e w shelf e₇);
                    })
                  ]
                ]
              ]
        ]
      where
        reads :
            (request : Request)
            → ((unpack P environ w).1 ≡ w)
              × ((check_code_hash P app request.contract_code_metadata w).1 ≡ w)
              × ((check_contract_id P app request.contract_id w).1 ≡ w)
        reads request = (
          world-unpack environ w,
          world-check_code_hash app request.contract_code_metadata w,
          world-check_contract_id app request.contract_id w,
        )

    -- A request changes nothing, or it was authorized by the configured policy and the one change is
    -- the endpoint that it registers.
    pub add_endpoint-policy : (after ≡ w) ⊎ Registers app environ w after
    unfolding add_endpoint
    add_endpoint-policy = elim (Outcome-cases (unpack P environ w).0) [
      | inr ends ↦ inl (ground (arith, world-unpack environ w))
      | inl (request, e₁) ↦
          let h = world-check_code_hash app request.contract_code_metadata w in
          elim (Outcome-cases (check_code_hash P app request.contract_code_metadata w).0) [
            | inr ends ↦ inl (ground (arith, world-unpack environ w))
            | inl (_, e₂) ↦ elim (Outcome-cases (check_contract_id P app request.contract_id w).0) [
              | inr ends ↦ inl (
                  ground (
                    arith,
                    world-unpack environ w,
                    world-check_contract_id app request.contract_id w,
                  ))
              | inl (_, e₃) ↦ registration request e₁ e₂ e₃
            ]
          ]
    ]
