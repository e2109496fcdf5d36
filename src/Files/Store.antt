-- ===== src/Files/Store.antt =====
-- The key-value store and the block store of the PDO library, as `send_file` and `recv_file` use them.
use pdo_contracts.Base.{ℕ, ◌≡◌, ◌≢◌, List}
use pdo_contracts.Base.Exec.{Result, ok}

-- Names and contents are lists of code points and of bytes.
abbrev pub Text : Type 0
Text = List ℕ

pub record KeyValueStore : Type 1 where
  pub Store : Type 0
  pub create : Store
  pub set : Store → Text → Text → Store
  pub get : Store → Text → Result Text
  -- the texts by which a store is found and read again
  pub EncryptionKey : Type 0
  pub StateHash : Type 0
  pub encryption_key : Store → EncryptionKey
  pub hash_identity : Store → StateHash
  -- `KeyValueStore(encryption_key, state_hash)`
  pub reopen : EncryptionKey → StateHash → Store
  pub Blocks : Type 0
  pub sync_to_block_store : Store → Blocks → Blocks
  pub sync_from_block_store : Store → StateHash → Blocks → Store

pub record IsLawful (K : KeyValueStore) : Type 0 where
  pub get-set_self : (s : K.Store) (k v : Text) → K.get (K.set s k v) k ≡ ok v
  pub get-set_ne : (s : K.Store) (k j v : Text) → j ≢ k → K.get (K.set s k v) j ≡ K.get s j
  -- a store that is opened again by its key and its hash has what it had
  pub get-reopen :
      (s : K.Store) (k : Text)
      → K.get (K.reopen (K.encryption_key s) (K.hash_identity s)) k ≡ K.get s k
  -- so has one that is opened by them and gets its blocks from a block store to which it was synced
  pub get-sync :
      (s : K.Store) (b : K.Blocks) (k : Text)
      → let opened = K.reopen (K.encryption_key s) (K.hash_identity s) in
        K.get (K.sync_from_block_store opened (K.hash_identity s) (K.sync_to_block_store s b)) k
        ≡ K.get s k
