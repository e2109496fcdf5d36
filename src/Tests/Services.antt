-- ===== src/Tests/Services.antt =====
-- The life of a service on the concrete platform.
use pdo_contracts.Base.{◌≡◌, refl, String, ℕ, none, some, List, [], ◌∷◌, string_eq}
use pdo_contracts.Base.Dict.{Dict}
use pdo_contracts.Base.Exec.{Result, ok}
use pdo_contracts.Base.Json.{Json, str, dict}
use pdo_contracts.Guardian.World.{World, Shelf}
use pdo_contracts.Guardian.Keys.{capability_keys}
use pdo_contracts.Guardian.Keystore.{open_keystore, close_keystore, get_or_create}
use pdo_contracts.Guardian.Keystore.Laws.{new_keys}
use pdo_contracts.Guardian.Registry.{Endpoints, open_registry}
use pdo_contracts.Guardian.ProcessCapability.{capability_handler_map}
use pdo_contracts.Guardian.ProcessCapability.Replay.{Asks}
use pdo_contracts.Guardian.AddEndpoint.{add_endpoint_app}
use pdo_contracts.Guardian.Provision.{provision_token_object, unpack_object}
use pdo_contracts.Guardian.Service.{
  Config, App, adds_endpoints, informs, processes_capabilities, provisions_issuers,
  provisions_objects, success, start_service, make_apps, open_stores, local_main,
}
use pdo_contracts.Guardian.Service.Kept.{KeepsKeys, KeepsEndpoints, SomeIdentity, SomeContract}
use pdo_contracts.Guardian.Service.Lifetime.{local_main-keeps}
use pdo_contracts.Guardian.Service.Forgets.{
  process, Starts, performed_in_each_life, restart_replaces_service_key,
}
use pdo_contracts.Guardian.Secrets.RoundTrip.{secret_of}
use pdo_contracts.Tests.Codec.{dumps}
use pdo_contracts.Tests.Platform.{toy, toy-IsLawful, close}
use pdo_contracts.Tests.Capability.{runs, message, request, handlers, use_operation}
use pdo_contracts.Tests.Provisioning.{service_keys}

abbrev config : Config toy
config = record {
  capability_key_store = some "keys";
  endpoint_registry = some "endpoints";
  http_port = some 7101;
  host = some "localhost";
  token_issuer = none;
  storage_url = some "http://storage";
  operations = some (("use", ok use_operation) ∷ []);
}

abbrev key_file : Shelf
key_file =
    ("management_capability_key", ("m", "m"))
    ∷ ("service_capability_key", ("s", "s"))
    ∷ ("alice", ("s", "k"))
    ∷ []

abbrev apps : Dict String (App toy)
apps =
    ("add_endpoint", adds_endpoints (add_endpoint_app none))
    ∷ ("info", informs "http://storage")
    ∷ ("process_capability", processes_capabilities handlers)
    ∷ ("provision_token_issuer", provisions_issuers)
    ∷ ("provision_token_object", provisions_objects)
    ∷ []

abbrev requests : List (String × Result Json)
requests = ("info", request) ∷ ("process_capability", request) ∷ ("unknown", request) ∷ []

abbrev opened : World toy
opened = record (process toy 5) { keystore = some key_file; registry = some [] }

stores_open : open_stores toy config key_file [] (process toy 5) ≡ (ok service_keys, opened)
unfolding runs open_stores open_keystore get_or_create open_registry
stores_open = refl

service_starts : start_service toy config ≡ ok apps
unfolding runs start_service make_apps capability_handler_map
service_starts = refl

local_main-keeps_example :
    let (ending, w') = local_main toy config key_file [] requests none (process toy 5) in
    (s : Shelf) × (r : Endpoints) × (ending ≡ success s r)
    × (w'.keystore ≡ none)
    × (w'.registry ≡ none)
    × KeepsKeys toy (SomeIdentity toy service_keys apps requests) key_file s
    × KeepsEndpoints toy (SomeContract toy apps requests) [] r
local_main-keeps_example =
    local_main-keeps toy config key_file [] toy-IsLawful requests (process toy 5) opened
      service_keys apps stores_open service_starts

opened-Asks : Asks toy handlers request opened "alice" "r1" use_operation (dict [])
unfolding runs
opened-Asks = record {
  message = message;
  method = str "use";
  unpacked = refl;
  named = refl;
  given = refl;
  found = refl;
  unique = refl;
  identified = refl;
}

starts :
    Starts toy toy-IsLawful config key_file []
      (capability_keys toy "m" "m")
      (capability_keys toy "s" "s")
      apps
      handlers
unfolding runs
starts = record {
  keys_named = ("keys", refl);
  endpoints_named = ("endpoints", refl);
  started = service_starts;
  routed = refl;
  mgmt_held = refl;
  svc_held = refl;
}

performed_in_each_life_example :
    let run = λ (o : ℕ).
      local_main toy config key_file []
        (("process_capability", request) ∷ [])
        none
        (process toy o) in
    ((run 5).0 ≡ success key_file []) × ((run 5).1.outside ≡ 6) × ((run 6).1.outside ≡ 7)
performed_in_each_life_example =
    performed_in_each_life toy toy-IsLawful config key_file [] (capability_keys toy "m" "m")
      (capability_keys toy "s" "s") apps handlers request 5 starts opened-Asks

-- A request for a token object with the name of the service's key.
abbrev service_message : Json
service_message = dict (("minted_identity", str "service_capability_key") ∷ [])

abbrev service_request : Result Json
service_request = ok (secret_of toy (close "m" "x") "y" (close "x" (dumps service_message)))

restart_replaces_service_key_example :
    let w' = (provision_token_object toy service_keys service_request opened).1 in
    (left : Shelf) × ((close_keystore toy w').0 ≡ ok left)
    × ((open_keystore toy left opened).0
        ≡ ok (record {
          mgmt_capability_key = capability_keys toy "m" "m";
          svc_capability_key = new_keys toy opened;
        }))
unfolding runs unpack_object
restart_replaces_service_key_example =
    restart_replaces_service_key toy toy-IsLawful service_keys service_request opened
      service_message key_file (capability_keys toy "m" "m") opened refl refl refl refl
