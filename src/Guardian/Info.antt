-- ===== src/Guardian/Info.antt =====
-- `InfoApp` (guardian/wsgi/info.py).
use pdo_contracts.Base.{String, [], ◌∷◌}
use pdo_contracts.Base.Json.{Json, str, dict}
use pdo_contracts.Platform.{Platform}
use pdo_contracts.Guardian.Keystore.{ServiceKeys}
use pdo_contracts.Guardian.Http.{Response, json_reply}

module _ (P : Platform) where
  unfoldable pub service_info : ServiceKeys P → String → Json
  service_info keys storage_url =
      let svc = keys.svc_capability_key in
      dict (
        ("verifying_key", str (P.verifying_key svc.signing_key))
        ∷ ("encryption_key", str (P.public_serialize svc.encryption_key))
        ∷ ("storage_service_url", str storage_url)
        ∷ [])

  -- The keys were read when the store was opened, and texts always serialize: nothing here raises.
  unfoldable pub info : ServiceKeys P → String → Response P
  unfolding service_info
  info keys storage_url = json_reply P (service_info keys storage_url)
