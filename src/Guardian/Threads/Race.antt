-- ===== src/Guardian/Threads/Race.antt =====
-- One thread alone, and two that interleave.
use pdo_contracts.Base.{
  ◌≡◌, ◌≢◌, ℕ, false, contains, string_eq, some, List, [], ◌∷◌, arith, Option-cases, Bool-cases,
  inl, inr,
}
use pdo_contracts.Base.Dict.{lookup, lookup-insert, insert-insert}
use pdo_contracts.Base.Json.{Json, str, json_eq}
use pdo_contracts.Platform.{Platform}
use pdo_contracts.Guardian.World.{World}
use pdo_contracts.Guardian.Http.{Outcome, value}
use pdo_contracts.Guardian.ProcessCapability.{check_identifier}
use pdo_contracts.Guardian.Threads.{Ticket, Shared, looking, step, run}

module _ (tickets : ℕ → Ticket) (i j : ℕ) (s : Shared) where
  -- Two threads with the same identity and identifier, that the registry does not hold, and one that
  -- has a set for the identity: under the schedule in which they take turns both call their operation.
  pub both_perform :
      (ids : List Json)
      → i ≢ j
      → tickets i ≡ tickets j
      → s.pc i ≡ looking
      → s.pc j ≡ looking
      → lookup (tickets i).identity s.registry ≡ some ids
      → contains ids (str (tickets i).id) ≡ false
      → (run tickets (i ∷ j ∷ i ∷ j ∷ i ∷ j ∷ i ∷ j ∷ []) s).calls ≡ j ∷ i ∷ s.calls
  unfolding run step
  both_perform ids ne same at_i at_j held fresh = ground arith

  -- The threads that have called their operation, by the outcome of the check.
  abbrev pub calls_after : {P : Platform} → Outcome P Unit → List ℕ
  calls_after (value _) = i ∷ s.calls
  calls_after _ = s.calls

  -- A thread that is not interrupted does what the handler does: the registry is that of
  -- `check_identifier`, and the operation is called exactly when that lets the request pass.
  pub alone_checks :
      {P : Platform} (w : World P)
      → w.request_registry ≡ s.registry
      → s.pc i ≡ looking
      → let (outcome, w') = check_identifier P (tickets i).identity (str (tickets i).id) w in
        let t = run tickets (i ∷ i ∷ i ∷ i ∷ i ∷ []) s in
        (t.registry ≡ w'.request_registry) × (t.calls ≡ calls_after outcome)
  unfolding run step check_identifier
  alone_checks w same at_i = elim (Option-cases (lookup (tickets i).identity s.registry)) [
    | inl none_held ↦ ground (
      arith,
      lookup-insert (tickets i).identity (tickets i).identity [] s.registry,
      insert-insert (tickets i).identity [] (str (tickets i).id ∷ []) s.registry,
    )
    | inr (ids, held) ↦ elim (Bool-cases (contains ids (str (tickets i).id))) [
      | inl old ↦ ground arith
      | inr new ↦ ground arith
    ]
  ]
