-- ===== src/Guardian/Threads.antt =====
-- Requests for unique operations on several worker threads (guardian/scripts/guardianCLI.py gives every
-- handler one thread pool): the statements of the replay check of `ProcessCapabilityApp.__call__`
-- (guardian/wsgi/process_capability.py) on the shared registry, each a step.
pub mod Race
pub mod Lost
use pdo_contracts.Base.{
  String, ℕ, Bool, true, false, contains, num_eq, if◌then◌else◌, string_eq, Option, none, some,
  List, [], ◌∷◌,
}
use pdo_contracts.Base.Dict.{Dict, lookup, insert}
use pdo_contracts.Base.Json.{Json, str, json_eq}

-- Before `if self.request_registry.get(minted_identity) is None`, before the assignment of the empty
-- set, before `if request_identifier in ...`, before the `add`, before `operation(parameters)`.
pub data Pc : Type 0 where
  looking : Pc
  making : Pc
  checking : Pc
  adding : Pc
  dispatching : Pc
  refused : Pc
  performed : Pc

pub record Ticket : Type 0 where
  pub identity : String
  pub id : String

-- `calls` are the threads that have called their operation, the latest first.
pub record Shared : Type 0 where
  pub registry : Dict String (List Json)
  pub pc : ℕ → Pc
  pub calls : List ℕ

abbrev pub move : (ℕ → Pc) → ℕ → Pc → ℕ → Pc
move f i p j = if num_eq i j then p else f j

-- The set of an identity; a missing one raises, and the thread answers with an error.
abbrev pub set_of : Option (List Json) → List Json
set_of none = []
set_of (some ids) = ids

abbrev after_look : Option (List Json) → Pc
after_look none = making
after_look (some _) = checking

abbrev after_check : Bool → Pc
after_check true = refused
after_check false = adding

-- One step of a thread from where it stands.
abbrev step_from : Ticket → ℕ → Pc → Shared → Shared
step_from t i looking s = record s { pc = move s.pc i (after_look (lookup t.identity s.registry)) }
step_from t i making s = record s {
  registry = insert t.identity [] s.registry;
  pc = move s.pc i checking;
}
step_from t i checking s = record s {
  pc = move s.pc i (after_check (contains (set_of (lookup t.identity s.registry)) (str t.id)));
}
step_from t i adding s = record s {
  registry = insert t.identity (str t.id ∷ set_of (lookup t.identity s.registry)) s.registry;
  pc = move s.pc i dispatching;
}
step_from t i dispatching s = record s { pc = move s.pc i performed; calls = i ∷ s.calls }
step_from t i refused s = s
step_from t i performed s = s

-- `tickets` are the requests of the threads.
unfoldable pub step : (ℕ → Ticket) → ℕ → Shared → Shared
step tickets i s = step_from (tickets i) i (s.pc i) s

-- The threads take their steps in the order of a schedule.
unfoldable pub run : (ℕ → Ticket) → List ℕ → Shared → Shared
run tickets [] s = s
run tickets (i ∷ schedule) s = run tickets schedule (step tickets i s)
