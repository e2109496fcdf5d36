-- ===== src/Guardian/Service/Lifetime.antt =====
-- What the files hold when a service has ended.
use pdo_contracts.Base.{string_eq, String, ◌≡◌, arith, none, some, List}
use pdo_contracts.Base.Exec.{ok}
use pdo_contracts.Base.Dict.{Dict}
use pdo_contracts.Platform.{Platform}
use pdo_contracts.Platform.Laws.{IsLawful}
use pdo_contracts.Guardian.World.{World, Shelf}
use pdo_contracts.Guardian.Keystore.{ServiceKeys, open_keystore, close_keystore}
use pdo_contracts.Guardian.Keystore.Restart.{open_keystore-Opened}
use pdo_contracts.Guardian.Registry.{Endpoints, open_registry, close_registry}
use pdo_contracts.Guardian.Service.{
  Config, App, success, start_service, serve_requests, open_stores, run_service, local_main,
}
use pdo_contracts.Guardian.Service.Kept.{KeepsKeys, KeepsEndpoints, SomeIdentity, SomeContract}
use pdo_contracts.Guardian.Service.Keeps.{serve_requests-Keeps}

module _ (P : Platform) (config : Config P) (key_file : Shelf) (endpoint_file : Endpoints) where
  -- Opening both stores is opening the key store, with the registry.
  open_stores-opens :
      (keys : ServiceKeys P) (w w₁ : World P)
      → open_stores P config key_file endpoint_file w ≡ (ok keys, w₁)
      → (w₀ : World P) × (open_keystore P key_file w ≡ (ok keys, w₀))
        × (w₁ ≡ record w₀ { registry = some endpoint_file })
  unfolding open_stores open_registry
  open_stores-opens keys w w₁ opened = ((open_keystore P key_file w).1, ground arith, ground arith)

  module _ (L : IsLawful P) (requests : List (String × P.Environ)) (w w₁ : World P)
      (keys : ServiceKeys P) (apps : Dict String (App P))
      (opened : open_stores P config key_file endpoint_file w ≡ (ok keys, w₁))
      (started : start_service P config ≡ ok apps) where
    abbrev served_world : World P
    served_world = (serve_requests P keys apps requests w₁).1

    -- Both stores are open after the requests, with what the files held.
    served_stores :
        (s : Shelf) × (r : Endpoints) × (served_world.keystore ≡ some s)
        × (served_world.registry ≡ some r)
        × KeepsKeys P (SomeIdentity P keys apps requests) key_file s
        × KeepsEndpoints P (SomeContract P apps requests) endpoint_file r
    served_stores =
        let (w₀, e, same) = open_stores-opens keys w w₁ opened in
        let o = open_keystore-Opened P L key_file w w₀ keys e in
        let k =
          serve_requests-Keeps P L keys apps requests o.shelf endpoint_file w₁
            (ground (arith, o.stored)) (ground arith) in
        (
          k.shelf,
          k.endpoints,
          k.keys_open,
          k.registry_open,
          (λ j key h. k.keeps_keys j key (o.keeps j key h)),
          k.keeps_endpoints,
        )

    -- On a lawful platform, a service that has opened its stores and made its handlers, whatever requests
    -- it then serves, ends with success when the reactor returns, and both stores are closed. In the
    -- files every readable key of an identity is what it was, but where a served request for a token
    -- object names the identity, and every endpoint of a contract, but where a served and authorized
    -- request registers another; in these cases there is another key or endpoint.
    pub local_main-keeps :
        let (ending, w') = local_main P config key_file endpoint_file requests none w in
        (s : Shelf) × (r : Endpoints) × (ending ≡ success s r)
        × (w'.keystore ≡ none)
        × (w'.registry ≡ none)
        × KeepsKeys P (SomeIdentity P keys apps requests) key_file s
        × KeepsEndpoints P (SomeContract P apps requests) endpoint_file r
    unfolding local_main run_service close_keystore close_registry
    local_main-keeps =
        let (s, r, o, o', k, k') = served_stores in
        (s, r, ground arith, ground arith, ground arith, k, k')
