-- ===== src/Tests/Stores.antt =====
-- The key store and the endpoint registry on the concrete platform.
use pdo_contracts.Base.{◌⊎◌, ◌≡◌, refl, some, [], ◌∷◌, string_eq}
use pdo_contracts.Base.Exec.{Result, ok}
use pdo_contracts.Base.Json.{Json, str, dict}
use pdo_contracts.Guardian.World.{World, Shelf}
use pdo_contracts.Guardian.Keystore.{ServiceKeys, get_or_create, open_keystore, close_keystore}
use pdo_contracts.Guardian.Keystore.Laws.{new_keys}
use pdo_contracts.Guardian.Keystore.Restart.{restart}
use pdo_contracts.Guardian.AddEndpoint.{AddEndpointApp, add_endpoint}
use pdo_contracts.Guardian.AddEndpoint.Policy.{Registers, add_endpoint-policy}
use pdo_contracts.Tests.Platform.{toy, toy-IsLawful}
use pdo_contracts.Tests.Capability.{world, runs}

-- The store of a file with no keys, in which both are created.
abbrev opened : Result (ServiceKeys toy) × World toy
opened = open_keystore toy [] world

abbrev first_keys : ServiceKeys toy
first_keys = record {
  mgmt_capability_key = new_keys toy world;
  svc_capability_key = new_keys toy (record world { outside = 7 });
}

restart_example :
    (left : Shelf) × ((close_keystore toy opened.1).0 ≡ ok left)
    × (open_keystore toy left world ≡ (ok first_keys, record world { keystore = some left }))
unfolding runs open_keystore get_or_create
restart_example = restart toy toy-IsLawful [] world opened.1 world first_keys refl

abbrev app : AddEndpointApp
app = record { code_hash = "h"; contract_ids = "c1" ∷ []; ledger_key = "" }

abbrev registration : Result Json
registration = ok (
    dict (
      ("contract_id", str "c1")
      ∷ ("ledger_attestation", dict [])
      ∷ ("contract_metadata", dict (("verifying_key", str "v") ∷ ("encryption_key", str "e") ∷ []))
      ∷ ("contract_code_metadata", dict (("code_hash", str "h") ∷ []))
      ∷ []))

add_endpoint-policy_example :
    let w = (add_endpoint toy app registration world).1 in
    (w ≡ world) ⊎ Registers toy app registration world w
add_endpoint-policy_example = add_endpoint-policy toy app registration world
