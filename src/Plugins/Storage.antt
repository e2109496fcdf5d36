-- ===== src/Plugins/Storage.antt =====
-- The key-value stores and storage services of PDO, and files, which the asset plugins use.
use pdo_contracts.Base.{String, Option}
use pdo_contracts.Base.Exec.{Action}
use pdo_contracts.Base.Json.{Json}
use pdo_contracts.Plugins.Client.{Client}

pub record Storage (K : Client) : Type 1 where
  pub Bytes : Type 0
  pub Store : Type 0
  pub Service : Type 0
  -- `get_eservice_from_contract(state, session.save_file, session.eservice_url)`
  pub get_eservice_from_contract : K.Session → Action K.World (Option Service)
  -- `KeyValueStore()` and `KeyValueStore(encryption_key)`
  pub new_store : Action K.World Store
  pub open_store : Json → Action K.World Store
  pub sync_from_block_store : Json → Service → Store → Action K.World Store
  pub sync_to_block_store : Service → Store → Action K.World Store
  pub get : Json → Store → Action K.World Bytes
  pub set : String → Bytes → Store → Action K.World Store
  pub encryption_key : Store → Json
  pub hash_identity : Store → Json
  pub read_bytes : String → Action K.World Bytes
  pub write_bytes : String → Bytes → Action K.World Unit
