-- ===== src/Guardian/Provision/Delivery.antt =====
-- What provisioning delivers, and what it leaves when it fails.
use pdo_contracts.Base.{String, ◌≡◌, some, arith, string_eq, inl, inr}
use pdo_contracts.Base.Dict.{insert}
use pdo_contracts.Base.Exec.{ok, Result-cases}
use pdo_contracts.Base.Json.{Json, str, get_item}
use pdo_contracts.Platform.{Platform}
use pdo_contracts.Platform.Laws.{IsLawful}
use pdo_contracts.Guardian.World.{World, Shelf}
use pdo_contracts.Guardian.Keys.{CapabilityKeys, serialize}
use pdo_contracts.Guardian.Keystore.{ServiceKeys}
use pdo_contracts.Guardian.Keystore.Laws.{new_keys, create_capability_key_lem}
use pdo_contracts.Guardian.Registry.{get_endpoint}
use pdo_contracts.Guardian.Secrets.{recv_secret, send_secret}
use pdo_contracts.Guardian.Secrets.RoundTrip.{Opens, recv_secret-send_secret}
use pdo_contracts.Guardian.Still.{world-recv_secret}
use pdo_contracts.Guardian.Http.{Response, value, Ends, json_reply}
use pdo_contracts.Guardian.Provision.{
  encrypt_for, provisioning_secret, unpack_issuer, unpack_object, provision_token_issuer,
  provision_token_object,
}

module _ (P : Platform) where
  world-get_endpoint : (k : String) (w : World P) → (get_endpoint P k w).1 ≡ w
  unfolding get_endpoint
  world-get_endpoint k w = ground arith

  pub world-unpack_issuer : (environ : P.Environ) (w : World P) → (unpack_issuer P environ w).1 ≡ w
  unfolding unpack_issuer
  world-unpack_issuer environ w = grind (arith, world-get_endpoint)

  pub world-unpack_object :
      (keys : ServiceKeys P) (environ : P.Environ) (w : World P)
      → (unpack_object P keys environ w).1 ≡ w
  unfolding unpack_object
  world-unpack_object keys environ w = grind (arith, world-recv_secret)

  pub keystore-send_secret :
      (keys : P.EnclaveKeys) (message : Json) (w : World P)
      → (send_secret P (encrypt_for P keys) message w).1.keystore ≡ w.keystore
  unfolding send_secret
  keystore-send_secret keys message w = ground arith

  module _ (L : IsLawful P) (keys : ServiceKeys P) (environ : P.Environ) (w : World P) where
    -- On a lawful platform, a request of a registered endpoint that gets a response gets a JSON reply
    -- with a secret: the keys that open what the endpoint's key encrypts open it to the management key,
    -- whatever the world of the receiver.
    issuer_delivery :
        (endpoint : P.EnclaveKeys) (receiver : CapabilityKeys P) (response : Response P)
        (w' u : World P)
        → (unpack_issuer P environ w).0 ≡ value endpoint
        → Opens P receiver.decryption_key (encrypt_for P endpoint)
        → provision_token_issuer P keys environ w ≡ (ok response, w')
        → (secret : Json) × (response ≡ json_reply P secret)
          × (recv_secret P receiver secret u ≡ (ok (provisioning_secret P keys), u))
    unfolding provision_token_issuer
    issuer_delivery endpoint receiver response w' u unpacked opening replied =
        elim (Result-cases
          (send_secret P (encrypt_for P endpoint) (provisioning_secret P keys) w).0) [
            | inr (x, e) ↦ absurd (ground (arith, world-unpack_issuer environ w))
            | inl (secret, e) ↦ (
              secret,
              ground (arith, world-unpack_issuer environ w),
              recv_secret-send_secret P L receiver (encrypt_for P endpoint)
                  (provisioning_secret P keys) secret w
                  (send_secret P (encrypt_for P endpoint) (provisioning_secret P keys) w).1 u
                  opening (ground arith),
            )
          ]

  module _ (keys : ServiceKeys P) (environ : P.Environ) (w : World P) where
    -- A request for a token object that does not unpack creates no key: nothing changes.
    pub object_refused :
        Ends (unpack_object P keys environ w).0 → (provision_token_object P keys environ w).1 ≡ w
    unfolding provision_token_object
    object_refused ends = ground (arith, world-unpack_object keys environ w)

    -- A request for a token object that unpacks to a message with a textual identity replaces the
    -- identity's key, in an open store, by a new one, also where a later step raises and the request
    -- fails.
    pub object_key_created :
        (message : Json) (identity : String) (shelf : Shelf)
        → (unpack_object P keys environ w).0 ≡ value message
        → get_item message "minted_identity" ≡ ok (str identity)
        → w.keystore ≡ some shelf
        → (provision_token_object P keys environ w).1.keystore
          ≡ some (insert identity (serialize P (new_keys P w)) shelf)
    unfolding provision_token_object
    object_key_created message identity shelf unpacked identified is_open = grind (
      arith,
      world-unpack_object keys environ w,
      create_capability_key_lem P identity w shelf is_open,
      keystore-send_secret,
    )
