-- ===== src/Guardian/Registry.antt =====
-- `EndpointRegistry` (guardian/common/endpoint_registry.py).
pub mod Laws
use pdo_contracts.Base.{String, Option, none, some, string_eq}
use pdo_contracts.Base.Dict.{Dict, lookup, insert}
use pdo_contracts.Base.Exec.{
  Action, Result, ok, err, other, or_key_error, lift, gets, ◌▷◌, ◌>>=◌, ◌>>◌,
}
use pdo_contracts.Base.Json.{Json, as_str}
use pdo_contracts.Platform.{Platform}
use pdo_contracts.Guardian.World.{World}

abbrev pub Endpoints : Type 0
Endpoints = Dict String (Json × Json)

-- `self._registry[k]`
abbrev read_endpoint : String → Option Endpoints → Result (Json × Json)
read_endpoint k none = err (other "not subscriptable")
read_endpoint k (some shelf) = or_key_error k (lookup k shelf)

-- `self._registry[k] = v`
abbrev write_endpoint :
    {P : Platform} → String → Json × Json → Option Endpoints → Action (World P) Unit
write_endpoint k v none w = (err (other "no item assignment"), w)
write_endpoint k v (some shelf) w = (ok tt, record w { registry = some (insert k v shelf) })

module _ (P : Platform) where
  -- `EnclaveKeys(verifying_key, encryption_key)` on values from a request
  unfoldable pub enclave_keys_of : Json → Json → Result P.EnclaveKeys
  enclave_keys_of v e =
      as_str v ▷ λ verifying. as_str e ▷ λ encryption. P.enclave_keys verifying encryption

  -- `__init__`, on the shelf that the file holds
  unfoldable pub open_registry : Endpoints → Action (World P) Unit
  open_registry file w = (ok tt, record w { registry = some file })

  unfoldable pub close_registry : Action (World P) Endpoints
  close_registry w = elim w.registry [
    | none ↦ (err (other "no attribute close"), w)
    | some shelf ↦ (ok shelf, record w { registry = none })
  ]

  unfoldable pub get_endpoint : String → Action (World P) P.EnclaveKeys
  get_endpoint contract_id = do
    (verifying_key, encryption_key) ← lift (read_endpoint contract_id (← gets (λ w. w.registry)))
    lift (enclave_keys_of verifying_key encryption_key)

  -- The endpoint is stored before its keys are read, and stays stored when that raises.
  unfoldable pub set_endpoint : String → Json → Json → Action (World P) P.EnclaveKeys
  set_endpoint contract_id verifying_key encryption_key = do
    write_endpoint contract_id (verifying_key, encryption_key) (← gets (λ w. w.registry))
    lift (enclave_keys_of verifying_key encryption_key)
