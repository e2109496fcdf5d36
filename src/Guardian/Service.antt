-- ===== src/Guardian/Service.antt =====
-- The life of a guardian service (guardian/scripts/guardianCLI.py, and the map of the handlers in
-- guardian/wsgi/__init__.py): it opens its stores, makes the handlers, serves requests, and closes.
pub mod Kept
pub mod Keeps
pub mod Lifetime
pub mod Forgets
use pdo_contracts.Base.{
  ◌<>◌, contains, true, false, String, ℕ, Option, none, some, List, [], ◌∷◌, string_eq,
}
use pdo_contracts.Base.Dict.{Dict, lookup}
use pdo_contracts.Base.Exec.{
  Action, Result, Exn, ok, err, other, or_key_error, lift, pure, raise, ◌▷◌, ◌>>=◌,
}
use pdo_contracts.Platform.{Platform}
use pdo_contracts.Guardian.World.{World, Shelf}
use pdo_contracts.Guardian.Http.{Response}
use pdo_contracts.Guardian.Keystore.{ServiceKeys, open_keystore, close_keystore}
use pdo_contracts.Guardian.Registry.{Endpoints, open_registry, close_registry}
use pdo_contracts.Guardian.AddEndpoint.{
  TokenIssuerConfig, AddEndpointApp, add_endpoint_app, add_endpoint,
}
use pdo_contracts.Guardian.Info.{info}
use pdo_contracts.Guardian.Provision.{provision_token_issuer, provision_token_object}
use pdo_contracts.Guardian.ProcessCapability.{
  Operation, HandlerMap, capability_handler_map, process_capability,
}

-- The handlers, with the attributes that they do not share.
pub data App (P : Platform) : Type 0 where
  adds_endpoints : AddEndpointApp → App P
  informs : String → App P
  processes_capabilities : HandlerMap P → App P
  provisions_issuers : App P
  provisions_objects : App P

-- What the code reads of the configuration; an entry that is missing raises a KeyError. `operations` is
-- the map of the operation module, each handler made for the configuration.
pub record Config (P : Platform) : Type 0 where
  pub capability_key_store : Option String
  pub endpoint_registry : Option String
  pub http_port : Option ℕ
  pub host : Option String
  pub token_issuer : Option TokenIssuerConfig
  pub storage_url : Option String
  pub operations : Option (List (String × Result (Operation P)))

-- How the program ends: `sys.exit(-1)`, `sys.exit(0)` with what the files of the stores then hold, or
-- an exception that nobody catches.
pub data Ending : Type 0 where
  failure : Ending
  success : Shelf → Endpoints → Ending
  uncaught : Exn → Ending

-- The names that `except` clauses can find: the classes that the file imports or defines.
abbrev imported_names : List String
imported_names =
    "Resource" ∷ "NoResource" ∷ "Site" ∷ "ThreadPool" ∷ "TCP4ServerEndpoint" ∷ "WSGIResource"
    ∷ "AppWrapperMiddleware" ∷ "CapabilityKeyStore" ∷ "EndpointRegistry" ∷ []

-- A name is looked up when an exception comes to the clause.
abbrev find_name : String → Result (Unit {0})
find_name name = elim (contains imported_names name) [
  | true ↦ ok tt
  | false ↦ err (other ("name '" <> name <> "' is not defined"))
]

-- `try: reactor.run()`, for how it ends, with its two `except` clauses: what the first does not catch the
-- second does.
abbrev after_reactor : Option Exn → Result (Unit {0})
after_reactor none = ok tt
after_reactor (some e) = find_name "ReactorNotRunning"

module _ (P : Platform) where
  -- A call of a handler by the server.
  unfoldable pub call_app : ServiceKeys P → App P → P.Environ → Action (World P) (Response P)
  call_app keys (adds_endpoints app) environ = add_endpoint P app environ
  call_app keys (informs storage_url) environ = pure (info P keys storage_url)
  call_app keys (processes_capabilities handlers) environ = process_capability P handlers environ
  call_app keys provisions_issuers environ = provision_token_issuer P keys environ
  call_app keys provisions_objects environ = provision_token_object P keys environ

  -- The loop of `StartService` over `wsgi_operation_map`.
  unfoldable pub make_apps : Config P → Result (Dict String (App P))
  make_apps config = or_key_error "URL" config.storage_url ▷ λ storage_url.
      or_key_error "Operations" config.operations ▷ λ operations.
      capability_handler_map P operations [] ▷ λ handlers. ok (
        ("add_endpoint", adds_endpoints (add_endpoint_app config.token_issuer))
        ∷ ("info", informs storage_url)
        ∷ ("process_capability", processes_capabilities handlers)
        ∷ ("provision_token_issuer", provisions_issuers)
        ∷ ("provision_token_object", provisions_objects)
        ∷ [])

  unfoldable pub start_service : Config P → Result (Dict String (App P))
  start_service config = or_key_error "HttpPort" config.http_port ▷ λ _.
      or_key_error "Host" config.host ▷ λ _. make_apps config

  -- A request goes to the handler of its verb, and a verb without one gets no answer from the program.
  abbrev pub served :
      ServiceKeys P → Option (App P) → P.Environ → World P → Option (Result (Response P)) × World P
  served keys none environ w = (none, w)
  served keys (some app) environ w = let (r, w') = call_app keys app environ w in (some r, w')

  -- What the reactor does: the requests that it serves, in their order.
  unfoldable pub serve_requests :
      ServiceKeys P
      → Dict String (App P)
      → List (String × P.Environ)
      → World P
      → List (Option (Result (Response P))) × World P
  serve_requests keys apps [] w = ([], w)
  serve_requests keys apps ((verb, environ) ∷ requests) w =
      let (r, w') = served keys (lookup verb apps) environ w in
      let (rs, w'') = serve_requests keys apps requests w' in (r ∷ rs, w'')

  -- `RunService` after the reactor, which has returned or raised.
  unfoldable pub run_service : Option Exn → Action (World P) (Shelf × Endpoints)
  run_service raised = do
    _ ← lift (after_reactor raised)
    keys ← close_keystore P
    endpoints ← close_registry P
    pure (keys, endpoints)

  abbrev ended : Result (Shelf × Endpoints) → Ending
  ended (ok (keys, endpoints)) = success keys endpoints
  ended (err e) = uncaught e

  abbrev run_apps :
      ServiceKeys P
      → List (String × P.Environ)
      → Option Exn
      → Result (Dict String (App P))
      → World P
      → Ending × World P
  run_apps keys requests raised (err e) w = (failure, w)
  run_apps keys requests raised (ok apps) w =
      let (r, w') = run_service raised (serve_requests keys apps requests w).1 in (ended r, w')

  -- The stores: their names are read from the configuration before each is opened.
  unfoldable pub open_stores : Config P → Shelf → Endpoints → Action (World P) (ServiceKeys P)
  open_stores config key_file endpoint_file = do
    _ ← lift (or_key_error "CapabilityKeyStore" config.capability_key_store)
    keys ← open_keystore P key_file
    _ ← lift (or_key_error "EndpointRegistry" config.endpoint_registry)
    _ ← open_registry P endpoint_file
    pure keys

  abbrev run_opened :
      Config P
      → List (String × P.Environ)
      → Option Exn
      → Result (ServiceKeys P) × World P
      → Ending × World P
  run_opened config requests raised (err e, w) = (failure, w)
  run_opened config requests raised (ok keys, w) =
      run_apps keys requests raised (start_service config) w

  -- `LocalMain`, for what the files hold, the requests that come in, and how the reactor ends
  unfoldable pub local_main :
      Config P
      → Shelf
      → Endpoints
      → List (String × P.Environ)
      → Option Exn
      → World P
      → Ending × World P
  local_main config key_file endpoint_file requests raised w =
      run_opened config requests raised (open_stores config key_file endpoint_file w)
