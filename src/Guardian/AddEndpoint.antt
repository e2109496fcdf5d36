-- ===== src/Guardian/AddEndpoint.antt =====
-- `AddEndpointApp` (guardian/wsgi/add_endpoint.py).
pub mod Policy
use pdo_contracts.Base.{
  String, Bool, true, false, not, ◌&&◌, ◌==◌, contains, string_eq, Option, none, some, List, [],
  ◌∷◌, map,
}
use pdo_contracts.Base.Exec.{Action, lift}
use pdo_contracts.Base.Json.{Json, str, bool, dict, get_item, as_str, json_eq}
use pdo_contracts.Platform.{Platform}
use pdo_contracts.Guardian.World.{World}
use pdo_contracts.Guardian.Registry.{set_endpoint}
use pdo_contracts.Guardian.Secrets.{of_type, validate_json}
use pdo_contracts.Guardian.Http.{
  Handler, Response, call, yields, return_if, excepting, serve, refusal, refusal_about, json_reply,
  ◌>>=◌, ◌>>◌,
}

abbrev pub input_schema : Json
input_schema = dict (
    ("type", str "object")
    ∷ (
      "properties",
      dict (
          ("contract_id", of_type "string")
          ∷ (
            "ledger_attestation",
            dict (
                ("type", str "object")
                ∷ (
                  "properties",
                  dict (
                      ("contract_code_hash", of_type "string")
                      ∷ ("metadata_hash", of_type "string")
                      ∷ ("signature", of_type "string")
                      ∷ []),
                )
                ∷ []),
          )
          ∷ (
            "contract_metadata",
            dict (
                ("type", str "object")
                ∷ (
                  "properties",
                  dict (
                      ("verifying_key", of_type "string")
                      ∷ ("encryption_key", of_type "string")
                      ∷ []),
                )
                ∷ []),
          )
          ∷ (
            "contract_code_metadata",
            dict (
                ("type", str "object")
                ∷ (
                  "properties",
                  dict (("code_hash", of_type "string") ∷ ("code_nonce", of_type "string") ∷ []),
                )
                ∷ []),
          )
          ∷ []),
    )
    ∷ [])

-- The entries of the configuration's table `TokenIssuer`.
pub record TokenIssuerConfig : Type 0 where
  pub code_hash : Option String
  pub contract_ids : Option (List String)
  pub ledger_key : Option String

-- The attributes that `__init__` sets from it. An empty text or list is no restriction.
pub record AddEndpointApp : Type 0 where
  pub code_hash : String
  pub contract_ids : List String
  pub ledger_key : String

abbrev or_default : {A : Type 0} → Option A → A → A
or_default none d = d
or_default (some a) d = a

abbrev no_table : TokenIssuerConfig
no_table = record { code_hash = none; contract_ids = none; ledger_key = none }

unfoldable pub add_endpoint_app : Option TokenIssuerConfig → AddEndpointApp
add_endpoint_app config =
    let issuer : TokenIssuerConfig = or_default config no_table in
    record {
      code_hash = or_default issuer.code_hash "";
      contract_ids = or_default issuer.contract_ids [];
      ledger_key = or_default issuer.ledger_key "";
    }

-- The fields of a request.
pub record Request : Type 0 where
  pub contract_id : Json
  pub ledger_attestation : Json
  pub contract_metadata : Json
  pub contract_code_metadata : Json

abbrev pub is_empty : {A : Type 0} → List A → Bool
is_empty [] = true
is_empty (_ ∷ _) = false

module _ (P : Platform) where
  unfoldable pub unpack : P.Environ → Handler P (World P) Request
  unpack environ = do
    request ← call (lift (P.unpack_json_request environ))
    valid ← call (lift (validate_json P request input_schema))
    return_if (not valid) (refusal "invalid JSON")
    contract_id ← call (lift (get_item request "contract_id"))
    ledger_attestation ← call (lift (get_item request "ledger_attestation"))
    contract_metadata ← call (lift (get_item request "contract_metadata"))
    contract_code_metadata ← call (lift (get_item request "contract_code_metadata"))
    yields (record {
      contract_id = contract_id;
      ledger_attestation = ledger_attestation;
      contract_metadata = contract_metadata;
      contract_code_metadata = contract_code_metadata;
    })

  -- `self.code_hash and contract_code_metadata["code_hash"] != self.code_hash`: the item is read only
  -- where a hash is configured, and a missing one raises.
  unfoldable pub check_code_hash : AddEndpointApp → Json → Handler P (World P) Unit
  check_code_hash app metadata = elim (app.code_hash == "") [
    | true ↦ yields tt
    | false ↦ do
      code_hash ← call (lift (get_item metadata "code_hash"))
      return_if (not (code_hash == str app.code_hash)) (refusal "endpoint not authorized")
  ]

  unfoldable pub check_contract_id : AddEndpointApp → Json → Handler P (World P) Unit
  check_contract_id app contract_id =
      return_if
        (not (is_empty app.contract_ids) && not (contains (map str app.contract_ids) contract_id))
        (refusal "endpoint not authorized")

  unfoldable pub add_endpoint : AddEndpointApp → P.Environ → Action (World P) (Response P)
  add_endpoint app environ = serve (do
    request ←
        excepting (refusal_about "missing field")
          (λ _. refusal "unknown exception while unpacking request") (unpack environ)
    check_code_hash app request.contract_code_metadata
    check_contract_id app request.contract_id
    verifying_key ← call (lift (get_item request.contract_metadata "verifying_key"))
    encryption_key ← call (lift (get_item request.contract_metadata "encryption_key"))
    contract_id ← call (lift (as_str request.contract_id))
    keys ← call (set_endpoint P contract_id verifying_key encryption_key)
    yields (json_reply P (dict (("success", bool true) ∷ []))))
