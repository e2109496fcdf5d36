-- ===== src/Guardian/ProcessCapability/Replay.antt =====
-- Unique operations: the check for replayed requests, and what a run of requests remembers.
use pdo_contracts.Base.{
  String, ◌≡◌, Option, none, some, Bool, true, false, arith, List, [], ◌∷◌, contains, string_eq,
}
use pdo_contracts.Base.Dict.{lookup, insert, lookup-insert, insert-insert}
use pdo_contracts.Base.Exec.{Result, ok, err}
use pdo_contracts.Base.Json.{Json, str, get_item, get_or_none, is_null, json_eq}
use pdo_contracts.Platform.{Platform}
use pdo_contracts.Guardian.World.{World}
use pdo_contracts.Guardian.Http.{
  Response, error_response, unauthorized, unprocessable_entity, refusal, octet_reply, Outcome,
  value, returned,
}
use pdo_contracts.Guardian.ProcessCapability.{
  Operation, HandlerMap, is_unique, unpack, find_operation, check_identifier, check_replay,
  dispatch, process_capability,
}
use pdo_contracts.Guardian.Still.{world-get_capability_key, world-recv_secret}

abbrev pub identifiers : Option (List Json) → List Json
identifiers none = []
identifiers (some ids) = ids

module _ (P : Platform) where
  -- The identifiers that the registry holds for an identity.
  abbrev pub seen : String → World P → List Json
  seen identity w = identifiers (lookup identity w.request_registry)

  -- What a request asks for in a world: it unpacks to a message that names a unique operation and
  -- carries an identifier.
  pub record Asks (handlers : HandlerMap P) (environ : P.Environ) (w : World P)
      (identity id : String) (operation : Operation P) (parameters : Json) : Type 0 where
    pub message : Json
    pub method : Json
    pub unpacked :
        (unpack P environ w).0
        ≡ value (record { minted_identity = identity; operation_message = message })
    pub named : get_item message "method_name" ≡ ok method
    pub given : get_item message "parameters" ≡ ok parameters
    pub found : find_operation P handlers method ≡ ok operation
    pub unique : is_unique operation.unique_requests ≡ true
    pub identified : get_or_none message "request_identifier" ≡ ok (str id)

  abbrev pub replayed : Response P
  replayed = error_response "duplicate request for unique operation" none (some unauthorized)

  -- The response to an operation that was performed, by its result.
  abbrev pub answer_value : Json → Bool → Response P
  answer_value j true = error_response "operation failed" none (some unprocessable_entity)
  answer_value j false = octet_reply P j

  abbrev pub answer : Result Json → Response P
  answer (err _) = refusal "unknown exception while performing operation"
  answer (ok j) = answer_value j (is_null j)

  pub world-unpack : (environ : P.Environ) (w : World P) → (unpack P environ w).1 ≡ w
  unfolding unpack
  world-unpack environ w = grind (arith, world-get_capability_key, world-recv_secret)

  -- The world with one more identifier in the registry.
  abbrev pub remembering : String → String → World P → World P
  remembering identity id w = record w {
    request_registry = insert identity (str id ∷ seen identity w) w.request_registry;
  }

  pub check_identifier-replayed :
      (identity id : String) (w : World P)
      → contains (seen identity w) (str id) ≡ true
      → check_identifier P identity (str id) w ≡ (returned replayed, w)
  unfolding check_identifier
  check_identifier-replayed identity id w h = ground arith

  pub check_identifier-fresh :
      (identity id : String) (w : World P)
      → contains (seen identity w) (str id) ≡ false
      → check_identifier P identity (str id) w ≡ (value tt, remembering identity id w)
  unfolding check_identifier
  check_identifier-fresh identity id w h = ground (
    arith,
    lookup-insert identity identity [] w.request_registry,
    insert-insert identity [] (str id ∷ []) w.request_registry,
  )

  abbrev pub dispatched_value : Json → Bool → Outcome P Json
  dispatched_value j true =
      returned (error_response "operation failed" none (some unprocessable_entity))
  dispatched_value j false = value j

  abbrev pub dispatched : Result Json → Outcome P Json
  dispatched (err _) = returned (refusal "unknown exception while performing operation")
  dispatched (ok j) = dispatched_value j (is_null j)

  pub dispatch_lem :
      (operation : Operation P) (parameters : Json) (w : World P)
      → dispatch P operation parameters w ≡ (
          let (r, o) = operation.perform parameters w.outside in
          (dispatched r, record w { outside = o }))
  unfolding dispatch
  dispatch_lem operation parameters w = ground arith

  module _ (handlers : HandlerMap P) (environ : P.Environ) (w : World P) {identity id : String}
      {operation : Operation P} {parameters : Json}
      (asks : Asks handlers environ w identity id operation parameters) where
    -- A request whose identifier the registry holds is refused, and changes nothing.
    pub process_replayed :
        contains (seen identity w) (str id) ≡ true
        → process_capability P handlers environ w ≡ (ok replayed, w)
    unfolding process_capability check_replay
    process_replayed h = ground (
      arith,
      world-unpack environ w,
      asks.unpacked,
      asks.named,
      asks.given,
      asks.found,
      asks.unique,
      asks.identified,
      check_identifier-replayed identity id w h,
    )

    -- A request for a unique operation whose identifier the registry does not hold is performed once,
    -- on the world outside as it is; afterwards the registry holds the identifier, and the response
    -- tells the operation's result.
    pub process_fresh :
        contains (seen identity w) (str id) ≡ false
        → process_capability P handlers environ w ≡ (
            let (r, o) = operation.perform parameters w.outside in
            (ok (answer r), record (remembering identity id w) { outside = o }))
    unfolding process_capability check_replay
    process_fresh h = ground (
      arith,
      world-unpack environ w,
      asks.unpacked,
      asks.named,
      asks.given,
      asks.found,
      asks.unique,
      asks.identified,
      check_identifier-fresh identity id w h,
      dispatch_lem operation parameters (remembering identity id w),
    )
