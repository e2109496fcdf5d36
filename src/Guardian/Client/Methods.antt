-- ===== src/Guardian/Client/Methods.antt =====
-- `GuardianServiceClient` (guardian/common/guardian_service.py): its constructor and its methods.
use pdo_contracts.Base.{String, ℕ, Bool, List, []}
use pdo_contracts.Base.Exec.{Action, Result, ok, err, other, lift, pure, ◌>>=◌}
use pdo_contracts.Base.Json.{Json, get_item}
use pdo_contracts.Guardian.Client.{
  Attempt, Reply, http_error, network_error, uncaught, returned, failed, waiting, request,
}

-- The HTTP session, the keys and the storage service of PDO, which the client uses.
pub record Network : Type 1 where
  pub World : Type 0
  -- What the submissions of a request to a path of a service meet, all until it ends.
  pub submissions : Json → String → List (String × Json) → World → List Attempt × World
  -- for which statuses `raise_for_status` raises
  pub is_error : ℕ → Bool
  pub EnclaveKeys : Type 0
  pub enclave_keys : Json → Json → Result EnclaveKeys
  pub StorageServiceClient : Type 0
  pub storage_service_client : Json → Action World StorageServiceClient
  pub storage_verifying_key : StorageServiceClient → Action World Json

pub record GuardianServiceClient (N : Network) : Type 0 where
  pub url : Json
  pub enclave_keys : N.EnclaveKeys
  pub storage_service_url : Json
  pub storage_service_client : N.StorageServiceClient
  pub storage_service_verifying_key : Json

-- What the caller gets of a reply. A `MessageException` has the text of its cause. A request that is
-- put off for ever gives its caller nothing.
abbrev pub reply_result : Reply → Result Json
reply_result (returned j) = ok j
reply_result (failed (http_error status text)) = err (other text)
reply_result (failed (network_error reason)) = err (other reason)
reply_result (failed (uncaught e)) = err e
reply_result waiting = err (other "no reply")

module _ (N : Network) where
  -- `__post_request__` and `__get_request__`
  unfoldable pub send_request : Json → String → List (String × Json) → Action N.World Json
  send_request url path params w =
      let (attempts, w') = N.submissions url path params w in
      (reply_result (request N.is_error attempts).0, w')

  unfoldable pub get_guardian_metadata : Json → Action N.World Json
  get_guardian_metadata url = send_request url "info" []

  -- The constructor, with `_attach_storage_service_`, whose other attributes are the storage client's.
  unfoldable pub guardian_service_client : Json → Action N.World (GuardianServiceClient N)
  guardian_service_client url = do
    service_info ← get_guardian_metadata url
    verifying_key ← lift (get_item service_info "verifying_key")
    encryption_key ← lift (get_item service_info "encryption_key")
    enclave_keys ← lift (N.enclave_keys verifying_key encryption_key)
    storage_service_url ← lift (get_item service_info "storage_service_url")
    storage ← N.storage_service_client storage_service_url
    storage_service_verifying_key ← N.storage_verifying_key storage
    pure (record {
      url = url;
      enclave_keys = enclave_keys;
      storage_service_url = storage_service_url;
      storage_service_client = storage;
      storage_service_verifying_key = storage_service_verifying_key;
    })

  module _ (client : GuardianServiceClient N) (params : List (String × Json)) where
    unfoldable pub post_add_endpoint : Action N.World Json
    post_add_endpoint = send_request client.url "add_endpoint" params

    unfoldable pub post_provision_token_issuer : Action N.World Json
    post_provision_token_issuer = send_request client.url "provision_token_issuer" params

    unfoldable pub post_provision_token_object : Action N.World Json
    post_provision_token_object = send_request client.url "provision_token_object" params

    unfoldable pub post_process_capability : Action N.World Json
    post_process_capability = send_request client.url "process_capability" params
