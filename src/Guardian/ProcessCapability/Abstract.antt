-- ===== src/Guardian/ProcessCapability/Abstract.antt =====
-- The replay check as a set of pairs of an identity and an identifier, whatever the order and the
-- representation in which the registry holds them.
use pdo_contracts.Base.{
  String, ◌≡◌, Bool, true, false, ◌||◌, ◌&&◌, contains, string_eq, ◌==◌, ◌∷◌, arith, Bool-cases,
  inl, inr,
}
use pdo_contracts.Base.Dict.{lookup-insert}
use pdo_contracts.Base.Json.{Json, str, json_eq}
use pdo_contracts.Platform.{Platform}
use pdo_contracts.Guardian.World.{World}
use pdo_contracts.Guardian.Http.{Outcome, value, returned}
use pdo_contracts.Guardian.ProcessCapability.{check_identifier}
use pdo_contracts.Guardian.ProcessCapability.Replay.{
  seen, replayed, check_identifier-replayed, check_identifier-fresh,
}

-- A set of pairs, and the set with one more.
abbrev pub Pairs : Type 0
Pairs = String → Json → Bool

abbrev pub add_pair : String → Json → Pairs → Pairs
add_pair identity id A j y = (j == identity && y == id) || A j y

module _ (P : Platform) where
  abbrev pub view : World P → Pairs
  view w j y = contains (seen P j w) y

  -- The abstract check: a pair that is in the set is refused, any other is added.
  abbrev pub checked_outcome : Bool → Outcome P Unit
  checked_outcome true = returned (replayed P)
  checked_outcome false = value tt

  abbrev pub checked_pairs : Bool → String → Json → Pairs → Pairs
  checked_pairs true identity id A = A
  checked_pairs false identity id A = add_pair identity id A

  -- The check of an identifier that is a text implements the abstract one: its outcome is that of the
  -- test whether the set has the pair, and the set that the registry then stands for is that set, with
  -- the pair added where it was not in it.
  pub check_identifier-refines :
      (identity id : String) (w : World P)
      → let old = view w identity (str id) in
        let (outcome, w') = check_identifier P identity (str id) w in
        (outcome ≡ checked_outcome old)
        × ((j : String) (y : Json) → view w' j y ≡ checked_pairs old identity (str id) (view w) j y)
  check_identifier-refines identity id w =
      elim (Bool-cases (contains (seen P identity w) (str id))) [
        | inl old ↦ (
          ground (arith, check_identifier-replayed P identity id w old),
          λ j y. ground (arith, check_identifier-replayed P identity id w old),
        )
        | inr new ↦ (
          ground (arith, check_identifier-fresh P identity id w new),
          λ j y. ground (
            arith,
            check_identifier-fresh P identity id w new,
            lookup-insert j identity (str id ∷ seen P identity w) w.request_registry,
          ),
        )
      ]
