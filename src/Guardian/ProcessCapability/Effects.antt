-- ===== src/Guardian/ProcessCapability/Effects.antt =====
-- What serving a capability request can change.
use pdo_contracts.Guardian.Keys.{CapabilityKeys}
use pdo_contracts.Guardian.Keystore.{get_capability_key}
use pdo_contracts.Guardian.Secrets.{recv_secret}
use pdo_contracts.Guardian.Still.{world-get_capability_key, world-recv_secret}
use pdo_contracts.Base.{String, true, ◌≡◌, ◌⊎◌, arith, inl, inr}
use pdo_contracts.Base.Exec.{ok, Result-cases}
use pdo_contracts.Base.Json.{Json, str, as_str, get_item}
use pdo_contracts.Platform.{Platform}
use pdo_contracts.Guardian.World.{World}
use pdo_contracts.Guardian.Http.{value, Outcome-cases}
use pdo_contracts.Guardian.ProcessCapability.{
  validate_json, input_schema, operation_schema, Operation, HandlerMap, Request, unpack,
  find_operation, check_identifier, check_replay, process_capability,
}
use pdo_contracts.Guardian.ProcessCapability.Replay.{world-unpack, dispatch_lem}

module _ (P : Platform) where
  -- A request of the schema, and the message of an identity that was decrypted from it under the key of
  -- the identity, and is of the schema for operations.
  pub record Validated (environ : P.Environ) (w : World P) (identity : String) (message : Json)
      : Type 0 where
    pub body : Json
    pub received : P.unpack_json_request environ ≡ ok body
    pub well_formed : validate_json P body input_schema ≡ ok true
    pub identified : get_item body "minted_identity" ≡ ok (str identity)
    pub key : CapabilityKeys P
    pub held : (get_capability_key P identity w).0 ≡ ok key
    pub secret : Json
    pub carried : get_item body "operation" ≡ ok secret
    pub decrypted : (recv_secret P key secret w).0 ≡ ok message
    pub message_well_formed : validate_json P message operation_schema ≡ ok true

  unpack-Validated :
      (environ : P.Environ) (w : World P) (request : Request)
      → (unpack P environ w).0 ≡ value request
      → Validated environ w request.minted_identity request.operation_message
  unfolding unpack
  unpack-Validated environ w request h = elim (Result-cases (P.unpack_json_request environ)) [
    | inr (e, h₁) ↦ absurd (ground arith)
    | inl (body, h₁) ↦ elim (Result-cases (validate_json P body input_schema)) [
      | inr (e, h₂) ↦ absurd (ground arith)
      | inl (valid, h₂) ↦ elim (Result-cases (get_item body "minted_identity")) [
        | inr (e, h₃) ↦ absurd (ground arith)
        | inl (j, h₃) ↦ elim (Result-cases (as_str j)) [
          | inr (e, h₄) ↦ absurd (ground arith)
          | inl (identity, h₄) ↦ elim (Result-cases (get_capability_key P identity w).0) [
            | inr (e, h₅) ↦ absurd (ground arith)
            | inl (key, h₅) ↦ elim (Result-cases (get_item body "operation")) [
              | inr (e, h₆) ↦ absurd (ground arith)
              | inl (secret, h₆) ↦ elim (Result-cases (recv_secret P key secret w).0) [
                | inr (e, h₇) ↦ absurd (ground (arith, world-get_capability_key P identity w))
                | inl (message, h₇) ↦
                    elim (Result-cases (validate_json P message operation_schema)) [
                      | inr (e, h₈) ↦ absurd (
                          ground (
                            arith,
                            world-get_capability_key P identity w,
                            world-recv_secret P key secret w,
                          ))
                      | inl (valid', h₈) ↦
                          let g = world-get_capability_key P identity w in
                          let g' = world-recv_secret P key secret w in
                          let same : request.minted_identity ≡ identity = ground (arith, g, g') in
                          let same' : request.operation_message ≡ message = ground (arith, g, g') in
                          record {
                            body = body;
                            received = h₁;
                            well_formed = ground (arith, g, g');
                            identified = ground (arith, same);
                            key = key;
                            held = ground (arith, same);
                            secret = secret;
                            carried = h₆;
                            decrypted = ground (arith, same');
                            message_well_formed = ground (arith, g, g', same');
                          }
                    ]
              ]
            ]
          ]
        ]
      ]
    ]
  ]

  -- An operation that a validated message names, with the parameters that it carries.
  pub record Ordered (handlers : HandlerMap P) (environ : P.Environ) (w : World P) (o : P.Outside)
      : Type 0 where
    pub identity : String
    pub message : Json
    pub method : Json
    pub parameters : Json
    pub operation : Operation P
    pub validated : Validated environ w identity message
    pub named : get_item message "method_name" ≡ ok method
    pub given : get_item message "parameters" ≡ ok parameters
    pub found : find_operation P handlers method ≡ ok operation
    pub performed : o ≡ (operation.perform parameters w.outside).1

  check_identifier-keeps :
      (identity : String) (id : Json) (w : World P)
      → let w' = (check_identifier P identity id w).1 in
        (w'.outside ≡ w.outside) × (w'.keystore ≡ w.keystore) × (w'.registry ≡ w.registry)
  unfolding check_identifier
  check_identifier-keeps identity id w = ground arith

  check_replay-keeps :
      (operation : Operation P) (request : Request) (w : World P)
      → let w' = (check_replay P operation request w).1 in
        (w'.outside ≡ w.outside) × (w'.keystore ≡ w.keystore) × (w'.registry ≡ w.registry)
  unfolding check_replay
  check_replay-keeps operation request w = grind (arith, check_identifier-keeps)

  -- Serving a request changes neither the key store nor the endpoints.
  pub process_capability-keeps :
      (handlers : HandlerMap P) (environ : P.Environ) (w : World P)
      → let w' = (process_capability P handlers environ w).1 in
        (w'.keystore ≡ w.keystore) × (w'.registry ≡ w.registry)
  unfolding process_capability
  process_capability-keeps handlers environ w =
      grind (arith, world-unpack, check_replay-keeps, dispatch_lem)

  -- Serving a request leaves the world outside alone, or changes it as one call of an operation does.
  -- The operation is named by a message that was decrypted under the key of the identity in the
  -- request; the request and the message both are of their schema.
  pub process_capability-effect :
      (handlers : HandlerMap P) (environ : P.Environ) (w : World P)
      → let o = (process_capability P handlers environ w).1.outside in
        (o ≡ w.outside) ⊎ Ordered handlers environ w o
  unfolding process_capability
  process_capability-effect handlers environ w = elim (Outcome-cases (unpack P environ w).0) [
    | inr ends ↦ inl (ground (arith, world-unpack P environ w))
    | inl (request, e₁) ↦ elim (Result-cases (get_item request.operation_message "method_name")) [
      | inr (x, e₂) ↦ inl (ground (arith, world-unpack P environ w))
      | inl (method, e₂) ↦ elim (Result-cases (get_item request.operation_message "parameters")) [
        | inr (x, e₃) ↦ inl (ground (arith, world-unpack P environ w))
        | inl (parameters, e₃) ↦ elim (Result-cases (find_operation P handlers method)) [
          | inr (x, e₄) ↦ inl (ground (arith, world-unpack P environ w))
          | inl (operation, e₄) ↦ elim (Outcome-cases (check_replay P operation request w).0) [
            | inr ends ↦
                inl
                  (ground (arith, world-unpack P environ w, check_replay-keeps operation request w))
            | inl (_, e₅) ↦ inr (record {
              identity = request.minted_identity;
              message = request.operation_message;
              method = method;
              parameters = parameters;
              operation = operation;
              validated = unpack-Validated environ w request e₁;
              named = e₂;
              given = e₃;
              found = e₄;
              performed = ground (
                arith,
                world-unpack P environ w,
                check_replay-keeps operation request w,
                dispatch_lem P operation parameters (check_replay P operation request w).1,
              );
            })
          ]
        ]
      ]
    ]
  ]
