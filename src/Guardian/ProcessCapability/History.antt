-- ===== src/Guardian/ProcessCapability/History.antt =====
-- Sequences of requests: the registry of requests only grows, so no identifier is served twice.
use pdo_contracts.Base.{
  String, ◌≡◌, true, arith, List, [], ◌∷◌, contains, string_eq, Bool-cases, inl, inr,
}
use pdo_contracts.Base.Dict.{lookup-insert, insert-insert}
use pdo_contracts.Base.Exec.{ok}
use pdo_contracts.Base.Json.{Json, str, json_eq}
use pdo_contracts.Platform.{Platform}
use pdo_contracts.Guardian.World.{World}
use pdo_contracts.Guardian.ProcessCapability.{
  Operation, HandlerMap, Request, check_identifier, check_replay, process_capability,
}
use pdo_contracts.Guardian.ProcessCapability.Replay.{
  seen, Asks, replayed, process_replayed, process_fresh, world-unpack, dispatch_lem,
}

module _ (P : Platform) where
  -- The worlds after requests that are served one after another.
  abbrev pub run : HandlerMap P → List P.Environ → World P → World P
  run handlers [] w = w
  run handlers (environ ∷ rest) w = run handlers rest (process_capability P handlers environ w).1

  module _ (i : String) (x : Json) where
    abbrev Holds : World P → Type 0
    Holds w = contains (seen P i w) x ≡ true

    check_identifier-Holds :
        (identity : String) (id : Json) (w : World P)
        → Holds w
        → Holds (check_identifier P identity id w).1
    unfolding check_identifier
    check_identifier-Holds identity id w h = ground (
      arith,
      lookup-insert i identity [] w.request_registry,
      lookup-insert identity identity [] w.request_registry,
      insert-insert identity [] (id ∷ []) w.request_registry,
      lookup-insert i identity (id ∷ seen P identity w) w.request_registry,
    )

    check_replay-Holds :
        (operation : Operation P) (request : Request) (w : World P)
        → Holds w
        → Holds (check_replay P operation request w).1
    unfolding check_replay
    check_replay-Holds operation request w h = grind (arith, check_identifier-Holds)

    process_capability-Holds :
        (handlers : HandlerMap P) (environ : P.Environ) (w : World P)
        → Holds w
        → Holds (process_capability P handlers environ w).1
    unfolding process_capability
    process_capability-Holds handlers environ w h =
        grind (arith, world-unpack, check_replay-Holds, dispatch_lem)

    run-Holds :
        (handlers : HandlerMap P) (environs : List P.Environ) (w : World P)
        → Holds w
        → Holds (run handlers environs w)
    run-Holds handlers [] w h = h
    run-Holds handlers (environ ∷ rest) w h =
        run-Holds handlers rest _ (process_capability-Holds handlers environ w h)

  module _ (handlers : HandlerMap P) (first : P.Environ) (w : World P) {identity id : String}
      {operation : Operation P} {parameters : Json}
      (asked : Asks P handlers first w identity id operation parameters) where
    -- After a request with an identifier has been served, the identifier is in the registry.
    process_capability-remembers :
        contains (seen P identity (process_capability P handlers first w).1) (str id) ≡ true
    process_capability-remembers = elim (Bool-cases (contains (seen P identity w) (str id))) [
      | inl old ↦ rw (process_replayed P handlers first w asked old) old
      | inr new ↦ rw (process_fresh P handlers first w asked new) (
          ground (
            arith,
            lookup-insert identity identity (str id ∷ seen P identity w) w.request_registry,
          ))
    ]

    -- After a request with an identifier has been served, performed or not, and after any further
    -- requests, a request of that identity with that identifier for a unique operation is refused as a
    -- duplicate, and changes nothing.
    pub at_most_once :
        (between : List P.Environ) (again : P.Environ) {other_operation : Operation P}
        {other_parameters : Json}
        → Asks P handlers again
            (run handlers (first ∷ between) w)
            identity
            id
            other_operation
            other_parameters
        → process_capability P handlers again (run handlers (first ∷ between) w)
          ≡ (ok (replayed P), run handlers (first ∷ between) w)
    at_most_once between again asks =
        process_replayed P handlers again _ asks
          (run-Holds identity (str id) handlers between _ process_capability-remembers)
