-- ===== src/Guardian/Still.antt =====
-- The steps that only read: reading a key and opening a secret leave the world as it is.
use pdo_contracts.Base.{String, ◌≡◌, arith}
use pdo_contracts.Base.Json.{Json}
use pdo_contracts.Platform.{Platform}
use pdo_contracts.Guardian.World.{World}
use pdo_contracts.Guardian.Keys.{CapabilityKeys}
use pdo_contracts.Guardian.Keystore.{get_capability_key}
use pdo_contracts.Guardian.Secrets.{open_secret, recv_secret}

module _ (P : Platform) where
  pub world-get_capability_key : (k : String) (w : World P) → (get_capability_key P k w).1 ≡ w
  unfolding get_capability_key
  world-get_capability_key k w = ground arith

  pub world-open_secret :
      (k : CapabilityKeys P) (j : Json) (w : World P) → (open_secret P k j w).1 ≡ w
  unfolding open_secret
  world-open_secret k j w = ground arith

  pub world-recv_secret :
      (k : CapabilityKeys P) (j : Json) (w : World P) → (recv_secret P k j w).1 ≡ w
  unfolding recv_secret
  world-recv_secret k j w = ground (arith, world-open_secret k j w)
