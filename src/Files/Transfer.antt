-- ===== src/Files/Transfer.antt =====
-- The two functions, and the round trip.
pub mod RoundTrip
use pdo_contracts.Base.{
  ℕ, zero, suc, ◌+◌, ◌-◌, ◌*◌, ◌/◌, String, Option, none, some, List, [], ◌∷◌, ◌++◌, length, take,
  drop,
}
use pdo_contracts.Base.Exec.{Result, ok, err, ◌▷◌}
use pdo_contracts.Files.Decimal.{decimal}
use pdo_contracts.Files.Store.{Text, KeyValueStore}

abbrev pub chunk_size : ℕ
chunk_size = 1024

-- The dictionary that `send_file` returns.
pub record FileInformation (K : KeyValueStore) : Type 0 where
  pub key_base : Text
  pub chunks : ℕ
  pub encryption_key : K.EncryptionKey
  pub state_hash : K.StateHash

-- `f'{key}_{chunk_number}'`
unfoldable pub chunk_key : Text → ℕ → Text
chunk_key key n = key ++ (b'_' ∷ decimal n)

-- `(size + __CHUNK_SIZE__ - 1) // __CHUNK_SIZE__`
unfoldable pub chunk_count : ℕ → ℕ
chunk_count size = (size + chunk_size - 1) / chunk_size

module _ (K : KeyValueStore) where
  -- The loop over the chunk numbers from `i` on; each round reads the next piece of the file.
  unfoldable pub send_chunks : Text → ℕ → ℕ → Text → K.Store → K.Store
  send_chunks key zero i rest kv = kv
  send_chunks key (suc n) i rest kv =
      send_chunks key n (i + 1) (drop chunk_size rest)
        (K.set kv (chunk_key key i) (take chunk_size rest))

  abbrev sync_to : K.Store → Option K.Blocks → Option K.Blocks
  sync_to kv none = none
  sync_to kv (some blocks) = some (K.sync_to_block_store kv blocks)

  -- `key` is the text of letters that `random.choice` gave.
  unfoldable pub send_file : Text → Text → Option K.Blocks → FileInformation K × Option K.Blocks
  send_file key file block_store =
      let chunks = chunk_count (length file) in
      let kv = send_chunks key chunks 0 file K.create in
      (
        record {
          key_base = key;
          chunks = chunks;
          encryption_key = K.encryption_key kv;
          state_hash = K.hash_identity kv;
        },
        sync_to kv block_store,
      )

  unfoldable pub recv_chunks : Text → ℕ → ℕ → K.Store → Result Text
  recv_chunks key zero i kv = ok []
  recv_chunks key (suc n) i kv =
      let rest = recv_chunks key n (i + 1) kv in
      K.get kv (chunk_key key i) ▷ λ chunk. rest ▷ λ file. ok (chunk ++ file)

  abbrev sync_from : K.Store → K.StateHash → Option K.Blocks → K.Store
  sync_from kv state_hash none = kv
  sync_from kv state_hash (some blocks) = K.sync_from_block_store kv state_hash blocks

  unfoldable pub recv_file : FileInformation K → Option K.Blocks → Result Text
  recv_file info block_store =
      let kv = K.reopen info.encryption_key info.state_hash in
      recv_chunks info.key_base info.chunks 0 (sync_from kv info.state_hash block_store)
