-- ===== src/Guardian/ProcessCapability.antt =====
-- `ProcessCapabilityApp` (guardian/wsgi/process_capability.py).
pub mod Replay
pub mod History
pub mod Effects
pub mod Protocol
pub mod Abstract
use pdo_contracts.Base.{
  String, Bool, true, false, not, contains, string_eq, Option, none, some, List, [], ◌∷◌,
}
use pdo_contracts.Base.Dict.{Dict, lookup, insert}
use pdo_contracts.Base.Exec.{
  Action, Result, ok, err, key_error, other, or_key_error, lift, modify, ◌▷◌,
}
use pdo_contracts.Base.Json.{
  Json, null, bool, num, str, dict, strings, get_item, get_or_none, as_str, hashable, is_null,
  json_eq,
}
use pdo_contracts.Platform.{Platform}
use pdo_contracts.Guardian.World.{World, attempt}
use pdo_contracts.Guardian.Keystore.{get_capability_key}
use pdo_contracts.Guardian.Secrets.{of_type, validate_json, recv_secret}
use pdo_contracts.Guardian.Http.{
  Handler, Response, error_response, not_found, unauthorized, unprocessable_entity, call, yields,
  respond, return_if, excepting, serve, refusal, refusal_about, octet_reply, ◌>>=◌, ◌>>◌,
}

abbrev pub input_schema : Json
input_schema = dict (
    ("type", str "object")
    ∷ (
      "properties",
      dict (
          ("minted_identity", of_type "string")
          ∷ (
            "operation",
            dict (
                ("type", str "object")
                ∷ (
                  "properties",
                  dict (
                      ("encrypted_session_key", of_type "string")
                      ∷ ("session_key_iv", of_type "string")
                      ∷ ("encrypted_message", of_type "string")
                      ∷ []),
                )
                ∷ (
                  "required",
                  strings ("encrypted_session_key" ∷ "session_key_iv" ∷ "encrypted_message" ∷ []),
                )
                ∷ []),
          )
          ∷ []),
    )
    ∷ ("required", strings ("minted_identity" ∷ "operation" ∷ []))
    ∷ [])

abbrev pub operation_schema : Json
operation_schema = dict (
    ("type", str "object")
    ∷ (
      "properties",
      dict (
          ("nonce", of_type "string")
          ∷ ("request_identifier", of_type "string")
          ∷ ("method_name", of_type "string")
          ∷ ("parameters", of_type "object")
          ∷ []),
    )
    ∷ ("required", strings ("nonce" ∷ "method_name" ∷ "parameters" ∷ []))
    ∷ [])

-- A handler of the operation module: its attribute `unique_requests`, if it has one, and its call,
-- whose result `None` is `null`.
pub record Operation (P : Platform) : Type 0 where
  pub unique_requests : Option Bool
  pub perform : Json → Action P.Outside Json

-- `hasattr(operation, 'unique_requests') and operation.unique_requests is True`
abbrev pub is_unique : Option Bool → Bool
is_unique none = false
is_unique (some b) = b

abbrev pub HandlerMap : Platform → Type 0
HandlerMap P = Dict String (Operation P)

-- What the first part of `__call__` extracts.
pub record Request : Type 0 where
  pub minted_identity : String
  pub operation_message : Json

module _ (P : Platform) where
  -- `__init__`: every handler of the operation module is made for the configuration
  unfoldable pub capability_handler_map :
      List (String × Result (Operation P)) → HandlerMap P → Result (HandlerMap P)
  capability_handler_map [] m = ok m
  capability_handler_map ((op, made) ∷ items) m =
      made ▷ λ handler. capability_handler_map items (insert op handler m)

  unfoldable pub unpack : P.Environ → Handler P (World P) Request
  unpack environ = do
    request ← call (lift (P.unpack_json_request environ))
    valid ← call (lift (validate_json P request input_schema))
    return_if (not valid) (refusal "invalid JSON, malformed request")
    minted_identity ← call (lift (get_item request "minted_identity" ▷ as_str))
    capability_key ← call (get_capability_key P minted_identity)
    operation ← call (lift (get_item request "operation"))
    operation_message ← call (recv_secret P capability_key operation)
    valid_operation ← call (lift (validate_json P operation_message operation_schema))
    return_if (not valid_operation) (refusal "invalid JSON, malformed operation")
    yields (record { minted_identity = minted_identity; operation_message = operation_message })

  -- `self.capability_handler_map[method_name]`
  abbrev pub find_operation : HandlerMap P → Json → Result (Operation P)
  find_operation m (str s) = or_key_error s (lookup s m)
  find_operation m (num s) = err (key_error s)
  find_operation m (bool _) = err (key_error "bool")
  find_operation m null = err (key_error "None")
  find_operation m _ = err (other "unhashable type")

  -- `except KeyError` alone: what else is raised leaves the handler.
  abbrev operation_found : Result (Operation P) → Handler P (World P) (Operation P)
  operation_found (ok operation) = yields operation
  operation_found (err (key_error k)) =
      respond (error_response "unknown operation" (some (key_error k)) (some not_found))
  operation_found (err e) = call (lift (err e))

  -- `self.request_registry[minted_identity]`
  abbrev seen_by : String → World P → Result (List Json)
  seen_by identity w = or_key_error identity (lookup identity w.request_registry)

  abbrev remember : String → List Json → World P → World P
  remember identity ids w = record w { request_registry = insert identity ids w.request_registry }

  -- The registry of an identity is made, empty, when it is first asked for.
  abbrev make_registry : String → Option (List Json) → World P → World P
  make_registry identity none w = remember identity [] w
  make_registry identity (some _) w = w

  -- `x in s` and `s.add(x)` on a set want a hashable `x`.
  abbrev hash : Json → Result (Unit {0})
  hash j = elim (hashable j) [ true ↦ ok tt | false ↦ err (other "unhashable type") ]

  -- The check of one identifier, for an operation with unique requests.
  unfoldable pub check_identifier : String → Json → Handler P (World P) Unit
  check_identifier identity id = do
    return_if (is_null id) (refusal "missing request identifier for unique operation")
    call (modify (λ w. make_registry identity (lookup identity w.request_registry) w))
    call (lift (hash id))
    ids ← call (λ w. lift (seen_by identity w) w)
    return_if (contains ids id)
        (error_response "duplicate request for unique operation" none (some unauthorized))
    call (modify (remember identity (id ∷ ids)))

  unfoldable pub check_replay : Operation P → Request → Handler P (World P) Unit
  check_replay operation request = elim (is_unique operation.unique_requests) [
    | false ↦ yields tt
    | true ↦
        excepting (λ _. refusal "unexpected error checking for duplicate request")
          (λ _. refusal "unexpected error checking for duplicate request")
          (do
            id ← call (lift (get_or_none request.operation_message "request_identifier"))
            check_identifier request.minted_identity id)
  ]

  unfoldable pub dispatch : Operation P → Json → Handler P (World P) Json
  dispatch operation parameters =
      excepting (λ _. refusal "unknown exception while performing operation")
        (λ _. refusal "unknown exception while performing operation")
        (do
          result ← call (attempt (operation.perform parameters))
          return_if (is_null result)
              (error_response "operation failed" none (some unprocessable_entity))
          yields result)

  unfoldable pub process_capability : HandlerMap P → P.Environ → Action (World P) (Response P)
  process_capability handlers environ = serve (do
    request ←
        excepting (refusal_about "missing field in request")
          (λ _. refusal "unknown exception while unpacking request") (unpack environ)
    method_name ← call (lift (get_item request.operation_message "method_name"))
    parameters ← call (lift (get_item request.operation_message "parameters"))
    operation ← operation_found (find_operation handlers method_name)
    check_replay operation request
    result ← dispatch operation parameters
    yields (octet_reply P result))
