-- ===== src/Guardian/Provision.antt =====
-- `ProvisionTokenIssuerApp` and `ProvisionTokenObjectApp` (guardian/wsgi/provision_token_issuer.py and
-- provision_token_object.py).
pub mod Delivery
use pdo_contracts.Base.{not, [], ◌∷◌}
use pdo_contracts.Base.Exec.{Action, lift}
use pdo_contracts.Base.Json.{Json, str, dict, get_item, as_str}
use pdo_contracts.Platform.{Platform}
use pdo_contracts.Guardian.World.{World, attempt}
use pdo_contracts.Guardian.Keys.{CapabilityKeys}
use pdo_contracts.Guardian.Keystore.{ServiceKeys, create_capability_key}
use pdo_contracts.Guardian.Registry.{get_endpoint, enclave_keys_of}
use pdo_contracts.Guardian.Secrets.{of_type, validate_json, send_secret, recv_secret}
use pdo_contracts.Guardian.Http.{
  Handler, Response, call, yields, return_if, excepting, serve, refusal, refusal_about, json_reply,
  octet_reply, ◌>>=◌, ◌>>◌,
}

abbrev pub issuer_schema : Json
issuer_schema =
    dict
      (("type", str "object") ∷ ("properties", dict (("contract_id", of_type "string") ∷ [])) ∷ [])

abbrev pub object_schema : Json
object_schema = dict (
    ("type", str "object")
    ∷ (
      "properties",
      dict (
          ("minted_identity", of_type "string")
          ∷ ("token_description", of_type "string")
          ∷ ("token_object_encryption_key", of_type "string")
          ∷ ("token_object_verifying_key", of_type "string")
          ∷ ("token_metadata", of_type "object")
          ∷ []),
    )
    ∷ [])

module _ (P : Platform) where
  -- `EnclaveKeys.encrypt`
  abbrev pub encrypt_for : P.EnclaveKeys → P.Bytes → Action (World P) P.Bytes
  encrypt_for keys b = attempt (P.enclave_encrypt keys b)

  abbrev pub provisioning_secret : ServiceKeys P → Json
  provisioning_secret keys = dict (
      (
        "capability_management_key",
        str (P.public_serialize keys.mgmt_capability_key.encryption_key),
      )
      ∷ [])

  abbrev pub token_object_package : Json → Json → Json → CapabilityKeys P → Json
  token_object_package minted_identity token_description token_metadata capability_key = dict (
      ("minted_identity", minted_identity)
      ∷ ("token_description", token_description)
      ∷ ("token_metadata", token_metadata)
      ∷ ("capability_generation_key", str (P.public_serialize capability_key.encryption_key))
      ∷ [])

  unfoldable pub unpack_issuer : P.Environ → Handler P (World P) P.EnclaveKeys
  unpack_issuer environ = do
    request ← call (lift (P.unpack_json_request environ))
    valid ← call (lift (validate_json P request issuer_schema))
    return_if (not valid) (refusal "invalid JSON")
    contract_id ← call (lift (get_item request "contract_id"))
    key ← call (lift (as_str contract_id))
    call (get_endpoint P key)

  unfoldable pub provision_token_issuer : ServiceKeys P → P.Environ → Action (World P) (Response P)
  provision_token_issuer keys environ = serve (do
    issuer_keys ←
        excepting (λ _. refusal "unknown exception while unpacking request")
          (λ _. refusal "unknown exception while unpacking request") (unpack_issuer environ)
    provisioning_package ← call (send_secret P (encrypt_for issuer_keys) (provisioning_secret keys))
    yields (json_reply P provisioning_package))

  unfoldable pub unpack_object : ServiceKeys P → P.Environ → Handler P (World P) Json
  unpack_object keys environ = do
    request ← call (lift (P.unpack_json_request environ))
    secret_message ← call (recv_secret P keys.mgmt_capability_key request)
    valid ← call (lift (validate_json P secret_message object_schema))
    return_if (not valid) (refusal "invalid JSON")
    yields secret_message

  -- After the key is created a missing field raises out of the handler, and the key stays.
  unfoldable pub provision_token_object : ServiceKeys P → P.Environ → Action (World P) (Response P)
  provision_token_object keys environ = serve (do
    secret_message ←
        excepting (refusal_about "missing field")
          (λ _. refusal "unknown exception while unpacking request") (unpack_object keys environ)
    minted_identity ← call (lift (get_item secret_message "minted_identity"))
    identity ← call (lift (as_str minted_identity))
    capability_key ← call (create_capability_key P identity)
    token_description ← call (lift (get_item secret_message "token_description"))
    token_metadata ← call (lift (get_item secret_message "token_metadata"))
    token_object_verifying_key ← call (lift (get_item secret_message "token_object_verifying_key"))
    token_object_encryption_key ←
        call (lift (get_item secret_message "token_object_encryption_key"))
    token_object_keys ←
        call (lift (enclave_keys_of P token_object_verifying_key token_object_encryption_key))
    secret_package ← call (
        send_secret P (encrypt_for token_object_keys)
          (token_object_package minted_identity token_description token_metadata capability_key))
    yields (octet_reply P secret_package))
