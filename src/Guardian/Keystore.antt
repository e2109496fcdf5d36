-- ===== src/Guardian/Keystore.antt =====
-- `CapabilityKeyStore` (guardian/common/capability_keystore.py).
pub mod Laws
pub mod Restart
use pdo_contracts.Base.{String, Option, none, some, string_eq}
use pdo_contracts.Base.Dict.{lookup, insert}
use pdo_contracts.Base.Exec.{
  Action, Result, ok, err, other, or_key_error, pure, lift, gets, modify, ◌>>=◌, ◌>>◌,
  except_key_error,
}
use pdo_contracts.Platform.{Platform}
use pdo_contracts.Guardian.World.{World, Shelf}
use pdo_contracts.Guardian.Keys.{CapabilityKeys, create_new_keys, deserialize, serialize}

-- The two attributes that `__init__` sets.
pub record ServiceKeys (P : Platform) : Type 0 where
  pub mgmt_capability_key : CapabilityKeys P
  pub svc_capability_key : CapabilityKeys P

-- `self._keystore[k]`; once closed it is `None`, and the subscription is a `TypeError`
abbrev read_keys : String → Option Shelf → Result (String × String)
read_keys k none = err (other "not subscriptable")
read_keys k (some shelf) = or_key_error k (lookup k shelf)

-- `self._keystore[k] = v`
abbrev write_keys : {P : Platform} → String → String × String → Option Shelf → Action (World P) Unit
write_keys k v none w = (err (other "no item assignment"), w)
write_keys k v (some shelf) w = (ok tt, record w { keystore = some (insert k v shelf) })

module _ (P : Platform) where
  unfoldable pub get_capability_key : String → Action (World P) (CapabilityKeys P)
  get_capability_key minted_identity = do
    (signing_key, decryption_key) ← lift (read_keys minted_identity (← gets (λ w. w.keystore)))
    lift (deserialize P signing_key decryption_key)

  unfoldable pub set_capability_key :
      String → CapabilityKeys P → Action (World P) (CapabilityKeys P)
  set_capability_key minted_identity capability_key = do
    write_keys minted_identity (serialize P capability_key) (← gets (λ w. w.keystore))
    pure capability_key

  unfoldable pub create_capability_key : String → Action (World P) (CapabilityKeys P)
  create_capability_key minted_identity = do
    capability_key ← create_new_keys P
    set_capability_key minted_identity capability_key

  -- `try : get_capability_key(k) except KeyError : create_capability_key(k)`
  unfoldable pub get_or_create : String → Action (World P) (CapabilityKeys P)
  get_or_create name = except_key_error (get_capability_key name) (create_capability_key name)

  -- `__init__`, on the shelf that the file holds
  unfoldable pub open_keystore : Shelf → Action (World P) (ServiceKeys P)
  open_keystore file = do
    modify (λ w. record w { keystore = some file })
    mgmt ← get_or_create "management_capability_key"
    svc ← get_or_create "service_capability_key"
    pure (record { mgmt_capability_key = mgmt; svc_capability_key = svc })

  -- `close`: the shelf is written back, and the result is what the file then holds
  unfoldable pub close_keystore : Action (World P) Shelf
  close_keystore w = elim w.keystore [
    | none ↦ (err (other "no attribute close"), w)
    | some shelf ↦ (ok shelf, record w { keystore = none })
  ]
