-- ===== src/Plugins/GuardianService.antt =====
-- The shell's operations on a guardian service
-- (common-contract/pdo/contracts/guardian/plugins/guardian_service.py).
use pdo_contracts.Base.{String, Option, none, some, [], ◌∷◌}
use pdo_contracts.Base.Exec.{Action, Result, ok, lift, pure, ◌>>=◌}
use pdo_contracts.Base.Json.{Json, keywords}
use pdo_contracts.Plugins.Client.{Client, Kwargs}
use pdo_contracts.Guardian.Client.Methods.{
  Network, guardian_service_client, post_add_endpoint, post_provision_token_issuer,
  post_provision_token_object, post_process_capability,
}

-- The network that the client's state reaches.
pub record Reach (K : Client) : Type 1 where
  pub network : Network
  pub over_network : {A : Type 0} → Action network.World A → Action K.World A
  pub json_dumps : Json → String
  -- `None` in the place of a session
  pub no_session : K.Session

module _ (K : Client) (R : Reach K) where
  abbrev N : Network
  N = R.network

  unfoldable pub op_add_endpoint :
      Json → Json → Json → Json → Json → K.Session → Action K.World Json
  op_add_endpoint contract_id ledger_attestation contract_metadata code_metadata url session =
      R.over_network (do
        service_client ← guardian_service_client N url
        post_add_endpoint N service_client (
            ("contract_id", contract_id)
            ∷ ("ledger_attestation", ledger_attestation)
            ∷ ("contract_metadata", contract_metadata)
            ∷ ("contract_code_metadata", code_metadata)
            ∷ []))

  unfoldable pub op_provision_token_issuer : Json → Json → K.Session → Action K.World String
  op_provision_token_issuer contract_id url session = R.over_network (do
    service_client ← guardian_service_client N url
    raw_result ← post_provision_token_issuer N service_client (("contract_id", contract_id) ∷ [])
    pure (R.json_dumps raw_result))

  unfoldable pub op_provision_token_object : Json → Json → K.Session → Action K.World String
  op_provision_token_object provisioning_package url session = R.over_network (do
    service_client ← guardian_service_client N url
    params ← lift (keywords provisioning_package)
    raw_result ← post_provision_token_object N service_client params
    pure (R.json_dumps raw_result))

  unfoldable pub op_process_capability : Json → Json → K.Session → Action K.World String
  op_process_capability capability url session = R.over_network (do
    service_client ← guardian_service_client N url
    params ← lift (keywords capability)
    raw_result ← post_process_capability N service_client params
    pure (R.json_dumps raw_result))

  -- `context['url']` where no URL is given
  abbrev url_or_context : K.Context → Option Json → K.World → Result Json
  url_or_context context none w = K.context_item context "url" w
  url_or_context context (some url) w = ok url

  unfoldable pub cmd_provision_token_issuer :
      K.Context → Json → Json → Json → Json → Option Json → Action K.World Json
  cmd_provision_token_issuer context contract_id ledger_attestation contract_metadata code_metadata
        given_url =
      do
        url ← λ w. lift (url_or_context context given_url w) w
        _ ←
            K.invoke_contract_op
              (op_add_endpoint contract_id ledger_attestation contract_metadata code_metadata url)
              context R.no_session []
        provisioning_package ←
            K.invoke_contract_op (op_provision_token_issuer contract_id url) context R.no_session []
        lift (K.json_loads provisioning_package)

  unfoldable pub cmd_provision_token_object :
      K.Context → Json → Option Json → Kwargs → Action K.World Json
  cmd_provision_token_object context provisioning_package given_url kwargs = do
    url ← λ w. lift (url_or_context context given_url w) w
    to_package ←
        K.invoke_contract_op (op_provision_token_object provisioning_package url) context
          R.no_session kwargs
    lift (K.json_loads to_package)
