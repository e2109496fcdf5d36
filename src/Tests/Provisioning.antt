-- ===== src/Tests/Provisioning.antt =====
-- Provisioning of a token issuer and of a token object on the concrete platform.
use pdo_contracts.Base.{◌≡◌, refl, String, some, [], ◌∷◌, string_eq}
use pdo_contracts.Base.Dict.{insert}
use pdo_contracts.Base.Exec.{Result, ok}
use pdo_contracts.Base.Json.{Json, str, dict}
use pdo_contracts.Guardian.World.{World}
use pdo_contracts.Guardian.Keys.{CapabilityKeys, serialize}
use pdo_contracts.Guardian.Keystore.{ServiceKeys}
use pdo_contracts.Guardian.Keystore.Laws.{new_keys}
use pdo_contracts.Guardian.Secrets.RoundTrip.{secret_of}
use pdo_contracts.Guardian.Provision.{
  provisioning_secret, token_object_package, unpack_object, provision_token_object,
}
use pdo_contracts.Guardian.Provision.Delivery.{object_key_created}
use pdo_contracts.Tests.Codec.{dumps}
use pdo_contracts.Tests.Platform.{toy, close, fresh}
use pdo_contracts.Tests.Capability.{world, runs}

abbrev pub keys_of : String → CapabilityKeys toy
keys_of k = record { signing_key = k; decryption_key = k; encryption_key = k }

abbrev pub service_keys : ServiceKeys toy
service_keys = record { mgmt_capability_key = keys_of "m"; svc_capability_key = keys_of "s" }

-- The endpoint of contract `c1` has the encryption key `e`.
abbrev provisioned : World toy
provisioned = record world { registry = some (("c1", (str "v", str "e")) ∷ []) }

abbrev issuer_request : Result Json
issuer_request = ok (dict (("contract_id", str "c1") ∷ []))

abbrev issuer_secret : Json
issuer_secret =
    secret_of toy (close "e" (fresh 5)) (fresh 6)
      (close (fresh 5) (dumps (provisioning_secret toy service_keys)))

-- A request for a token object, sent under the management key.
abbrev object_message : Json
object_message = dict (
    ("minted_identity", str "bob")
    ∷ ("token_description", str "d")
    ∷ ("token_object_encryption_key", str "e")
    ∷ ("token_object_verifying_key", str "v")
    ∷ ("token_metadata", dict [])
    ∷ [])

abbrev object_request : Result Json
object_request = ok (secret_of toy (close "m" "x") "y" (close "x" (dumps object_message)))

object_key_created_example :
    (provision_token_object toy service_keys object_request world).1.keystore
    ≡ some (insert "bob" (serialize toy (new_keys toy world)) (("alice", ("s", "k")) ∷ []))
unfolding runs unpack_object
object_key_created_example =
    object_key_created toy service_keys object_request world object_message "bob"
      (("alice", ("s", "k")) ∷ []) refl refl refl

abbrev contents : Json
contents = token_object_package toy (str "bob") (str "d") (dict []) (new_keys toy world)

abbrev object_secret : Json
object_secret = secret_of toy (close "e" (fresh 7)) (fresh 8) (close (fresh 7) (dumps contents))
