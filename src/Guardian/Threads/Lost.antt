-- ===== src/Guardian/Threads/Lost.antt =====
-- Two first requests of an identity, and the set that one of them discards.
use pdo_contracts.Base.{◌≡◌, ◌≢◌, ℕ, string_eq, none, [], ◌∷◌, arith}
use pdo_contracts.Base.Dict.{lookup, insert, lookup-insert}
use pdo_contracts.Base.Json.{str, json_eq}
use pdo_contracts.Guardian.Threads.{Ticket, Shared, looking, step, run}

module _ (tickets : ℕ → Ticket) (i j k : ℕ) (s : Shared) where
  -- Two threads with different identifiers of one identity, of which the registry has nothing, and a
  -- third with the request of the first: if the second has looked before the first has made the set, it
  -- makes the set anew, and the request of the first, long performed, is performed again for the third.
  pub performed_again :
      i ≢ j
      → i ≢ k
      → j ≢ k
      → (tickets j).identity ≡ (tickets i).identity
      → (tickets j).id ≢ (tickets i).id
      → tickets k ≡ tickets i
      → s.pc i ≡ looking
      → s.pc j ≡ looking
      → s.pc k ≡ looking
      → lookup (tickets i).identity s.registry ≡ none
      → (run tickets (i ∷ j ∷ i ∷ i ∷ i ∷ i ∷ j ∷ j ∷ j ∷ j ∷ k ∷ k ∷ k ∷ k ∷ []) s).calls
        ≡ k ∷ j ∷ i ∷ s.calls
  unfolding run step
  performed_again ij ik jk same differ again at_i at_j at_k new =
      let u = (tickets i).identity in
      let a = str (tickets i).id in
      let b = str (tickets j).id in
      let r₁ = insert u [] s.registry in
      let r₂ = insert u (a ∷ []) r₁ in
      let r₃ = insert u [] r₂ in
      ground (
        arith,
        lookup-insert u u [] s.registry,
        lookup-insert u u (a ∷ []) r₁,
        lookup-insert u u [] r₂,
        lookup-insert u u (b ∷ []) r₃,
      )
