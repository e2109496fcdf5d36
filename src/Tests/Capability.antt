-- ===== src/Tests/Capability.antt =====
-- Capability requests on the concrete platform: a key store with one identity, and a counter that the
-- one operation raises.
use pdo_contracts.Base.{ℕ, ◌⊎◌, suc, ◌≡◌, refl, true, some, [], ◌∷◌, string_eq}
use pdo_contracts.Base.Dict.{lookup, insert}
use pdo_contracts.Base.Exec.{Result, ok}
use pdo_contracts.Base.Json.{Json, str, bool, dict, json_eq}
use pdo_contracts.Guardian.World.{World}
use pdo_contracts.Guardian.Http.{value, octet_reply}
use pdo_contracts.Guardian.Keys.{capability_keys, create_new_keys, serialize, deserialize, decrypt}
use pdo_contracts.Guardian.Keystore.{get_capability_key, create_capability_key, set_capability_key}
use pdo_contracts.Guardian.Secrets.{
  validate_json, decode_field, open_secret, recv_secret, send_secret,
}
use pdo_contracts.Guardian.ProcessCapability.{
  Operation, HandlerMap, unpack, process_capability, check_replay, check_identifier, dispatch,
}
use pdo_contracts.Guardian.ProcessCapability.Replay.{Asks, replayed, process_fresh, remembering}
use pdo_contracts.Guardian.ProcessCapability.History.{run, at_most_once}
use pdo_contracts.Guardian.ProcessCapability.Effects.{Ordered, process_capability-effect}
use pdo_contracts.Guardian.ProcessCapability.Protocol.{
  encrypt_with, capability, issued-Opens, unpack-capability,
}
use pdo_contracts.Guardian.Keystore.Laws.{new_keys}
use pdo_contracts.Guardian.Secrets.RoundTrip.{secret_of, recv_secret-send_secret}
use pdo_contracts.Tests.Codec.{dumps, loads, parse_text, print_text, count}
use pdo_contracts.Tests.Schema.{validate, accepts, has_all}
use pdo_contracts.Tests.Platform.{toy, toy-IsLawful, close, open_with, fresh}

-- Names what a run of a request computes with.
unfoldable pub runs : Unit {0}
unfolding process_capability unpack check_replay check_identifier dispatch validate_json recv_secret
    open_secret decode_field decrypt get_capability_key deserialize serialize capability_keys
    create_new_keys create_capability_key set_capability_key fresh lookup insert string_eq json_eq
    close open_with dumps loads parse_text print_text count validate accepts has_all
runs = tt

-- Raises the counter outside, and answers `True`; its requests are unique.
abbrev pub use_operation : Operation toy
use_operation = record {
  unique_requests = some true;
  perform = λ parameters n. (ok (bool true), suc n);
}

abbrev pub handlers : HandlerMap toy
handlers = ("use", use_operation) ∷ []

abbrev pub world : World toy
world = record {
  outside = 5;
  keystore = some (("alice", ("s", "k")) ∷ []);
  registry = some [];
  request_registry = [];
}

abbrev pub message : Json
message = dict (
    ("nonce", str "n")
    ∷ ("request_identifier", str "r1")
    ∷ ("method_name", str "use")
    ∷ ("parameters", dict [])
    ∷ [])

abbrev pub secret : Json
secret = dict (
    ("encrypted_session_key", str (close "k" "x"))
    ∷ ("session_key_iv", str "y")
    ∷ ("encrypted_message", str (close "x" (dumps message)))
    ∷ [])

abbrev pub request : Result Json
request = ok (dict (("minted_identity", str "alice") ∷ ("operation", secret) ∷ []))

asks : Asks toy handlers request world "alice" "r1" use_operation (dict [])
unfolding runs
asks = record {
  message = message;
  method = str "use";
  unpacked = refl;
  named = refl;
  given = refl;
  found = refl;
  unique = refl;
  identified = refl;
}

-- The same request once more, with another in between.
request_again :
    Asks toy handlers request
      (run toy handlers (request ∷ request ∷ []) world)
      "alice"
      "r1"
      use_operation
      (dict [])
unfolding runs
request_again = record {
  message = message;
  method = str "use";
  unpacked = refl;
  named = refl;
  given = refl;
  found = refl;
  unique = refl;
  identified = refl;
}

process_fresh_example : process_capability toy handlers request world ≡ (
  ok (octet_reply toy (bool true)),
  record (remembering toy "alice" "r1" world) { outside = 6 },
)
process_fresh_example = process_fresh toy handlers request world asks (unfold lookup in refl)

at_most_once_example :
    process_capability toy handlers request (run toy handlers (request ∷ request ∷ []) world)
    ≡ (ok (replayed toy), run toy handlers (request ∷ request ∷ []) world)
at_most_once_example =
    at_most_once toy handlers request world asks (request ∷ []) request request_again

process_capability-effect_example :
    let o = (process_capability toy handlers request world).1.outside in
    (◌≡◌ {A = ℕ} o 5) ⊎ Ordered toy handlers request world o
process_capability-effect_example = process_capability-effect toy handlers request world

-- The message that was sent under the key that was issued to `bob`.
abbrev sender : World toy
sender = record world { outside = 1 }

abbrev sent : Result Json × World toy
sent = send_secret toy (encrypt_with toy (new_keys toy world).encryption_key) message sender

abbrev issued_secret : Json
issued_secret =
    secret_of toy (close (new_keys toy world).encryption_key (fresh 1)) (fresh 2)
      (close (fresh 1) (dumps message))

unpack-capability_example :
    let w = (create_capability_key toy "bob" world).1 in
    unpack toy (ok (capability toy "bob" issued_secret)) w
    ≡ (value (record { minted_identity = "bob"; operation_message = message }), w)
unfolding runs send_secret
unpack-capability_example =
    unpack-capability toy toy-IsLawful "bob" message issued_secret
      (ok (capability toy "bob" issued_secret)) world sender (record world { outside = 3 })
      (("alice", ("s", "k")) ∷ []) refl refl refl refl refl

recv_secret-send_secret_example :
    recv_secret toy (new_keys toy world) issued_secret sender ≡ (ok message, sender)
unfolding runs send_secret
recv_secret-send_secret_example =
    recv_secret-send_secret toy toy-IsLawful (new_keys toy world)
      (encrypt_with toy (new_keys toy world).encryption_key) message issued_secret sender
      (record world { outside = 3 }) sender (issued-Opens toy toy-IsLawful world) refl
