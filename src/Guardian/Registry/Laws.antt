-- ===== src/Guardian/Registry/Laws.antt =====
-- An endpoint that was set is what its contract has, and no other contract's endpoint changes.
use pdo_contracts.Base.{String, ◌≡◌, ◌≢◌, some, arith, string_eq, inl, inr, Option-cases}
use pdo_contracts.Base.Dict.{lookup-insert}
use pdo_contracts.Base.Json.{Json}
use pdo_contracts.Platform.{Platform}
use pdo_contracts.Guardian.World.{World}
use pdo_contracts.Guardian.Registry.{Endpoints, get_endpoint, set_endpoint}

module _ (P : Platform) (contract_id : String) (verifying_key encryption_key : Json)
    (w : World P) where
  abbrev after : World P
  after = (set_endpoint P contract_id verifying_key encryption_key w).1

  -- In an open registry the contract then has the keys that were set, with the result or the exception
  -- that setting them had.
  get_endpoint-set_endpoint :
      (shelf : Endpoints)
      → w.registry ≡ some shelf
      → get_endpoint P contract_id after
        ≡ ((set_endpoint P contract_id verifying_key encryption_key w).0, after)
  unfolding get_endpoint set_endpoint
  get_endpoint-set_endpoint shelf h =
      ground (arith, lookup-insert contract_id contract_id (verifying_key, encryption_key) shelf)

  -- What is read for any other contract is left as it was, whether the registry is open or not.
  get_endpoint-set_endpoint_ne :
      (other_id : String)
      → other_id ≢ contract_id
      → (get_endpoint P other_id after).0 ≡ (get_endpoint P other_id w).0
  unfolding get_endpoint set_endpoint
  get_endpoint-set_endpoint_ne other_id ne = elim (Option-cases w.registry) [
    | inl closed ↦ ground arith
    | inr (shelf, e) ↦
        ground (arith, lookup-insert other_id contract_id (verifying_key, encryption_key) shelf)
  ]
