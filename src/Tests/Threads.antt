-- ===== src/Tests/Threads.antt =====
-- Threads that share the registry, and the replay check at one request.
use pdo_contracts.Base.{
  String, ne_of_compare, num_eq, if◌then◌else◌, ◌≡◌, refl, ℕ, string_eq, [], ◌∷◌, arith,
}
use pdo_contracts.Base.Dict.{lookup}
use pdo_contracts.Base.Json.{Json, str, json_eq}
use pdo_contracts.Guardian.ProcessCapability.{check_identifier}
use pdo_contracts.Guardian.ProcessCapability.Abstract.{
  view, checked_outcome, checked_pairs, check_identifier-refines,
}
use pdo_contracts.Guardian.Threads.{Ticket, Shared, looking, run}
use pdo_contracts.Guardian.Threads.Race.{both_perform, calls_after, alone_checks}
use pdo_contracts.Guardian.Threads.Lost.{performed_again}
use pdo_contracts.Tests.Platform.{toy}
use pdo_contracts.Tests.Capability.{world}

abbrev tickets : ℕ → Ticket
tickets i = record { identity = "alice"; id = "r1" }

abbrev shared : Shared
shared = record { registry = ("alice", []) ∷ []; pc = λ i. looking; calls = [] }

both_perform_example : (run tickets (0 ∷ 1 ∷ 0 ∷ 1 ∷ 0 ∷ 1 ∷ 0 ∷ 1 ∷ []) shared).calls ≡ 1 ∷ 0 ∷ []
unfolding lookup string_eq
both_perform_example =
    both_perform tickets 0 1 shared [] (λ e. omega arith) refl refl refl refl refl

abbrev empty : Shared
empty = record { registry = []; pc = λ i. looking; calls = [] }

alone_checks_example :
    let (outcome, w') = check_identifier toy "alice" (str "r1") world in
    let t = run tickets (0 ∷ 0 ∷ 0 ∷ 0 ∷ 0 ∷ []) empty in
    (t.registry ≡ w'.request_registry) × (t.calls ≡ calls_after tickets 0 1 empty outcome)
alone_checks_example = alone_checks tickets 0 1 empty world refl refl

check_identifier-refines_example :
    let old = view toy world "alice" (str "r1") in
    let (outcome, w') = check_identifier toy "alice" (str "r1") world in
    (outcome ≡ checked_outcome toy old)
    × ((j : String) (y : Json)
        → view toy w' j y ≡ checked_pairs toy old "alice" (str "r1") (view toy world) j y)
check_identifier-refines_example = check_identifier-refines toy "alice" "r1" world

-- The second thread has an identifier of its own; the third repeats the request of the first.
abbrev two_requests : ℕ → Ticket
two_requests i = record { identity = "alice"; id = if num_eq i 1 then "r2" else "r1" }

performed_again_example :
    (run two_requests (0 ∷ 1 ∷ 0 ∷ 0 ∷ 0 ∷ 0 ∷ 1 ∷ 1 ∷ 1 ∷ 1 ∷ 2 ∷ 2 ∷ 2 ∷ 2 ∷ []) empty).calls
    ≡ 2 ∷ 1 ∷ 0 ∷ []
unfolding lookup
performed_again_example =
    performed_again two_requests 0 1 2 empty (λ e. omega arith) (λ e. omega arith)
      (λ e. omega arith) refl (ne_of_compare "r2" "r1" refl) refl refl refl refl refl
