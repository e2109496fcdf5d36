-- ===== src/Files/Transfer/RoundTrip.antt =====
-- A file that was sent is received, chunk by chunk.
use pdo_contracts.Base.{
  ℕ, zero, suc, ◌+◌, ◌*◌, ◌≤◌, ◌<◌, ◌≡◌, refl, ◌∙◌, Option, none, some, [], ◌∷◌, ◌++◌, length, take,
  drop, take-append-drop, length-drop, arith,
}
use pdo_contracts.Base.Exec.{ok}
use pdo_contracts.Files.Decimal.{decimal, decimal-injective}
use pdo_contracts.Files.Store.{Text, KeyValueStore, IsLawful}
use pdo_contracts.Files.Transfer.{
  chunk_size, chunk_key, chunk_count, send_chunks, send_file, recv_chunks, recv_file,
}

append-cancel : (xs ys zs : Text) → xs ++ ys ≡ xs ++ zs → ys ≡ zs
append-cancel [] ys zs h = h
append-cancel (x ∷ xs) ys zs h = append-cancel xs ys zs (cc)

chunk_key-injective : (key : Text) (m n : ℕ) → chunk_key key m ≡ chunk_key key n → m ≡ n
unfolding chunk_key
chunk_key-injective key m n h =
    decimal-injective m n (cc (append-cancel key (b'_' ∷ decimal m) (b'_' ∷ decimal n) h))

-- Every byte has a chunk, and no chunk is without bytes.
pub chunk_count_bounds :
    (size : ℕ)
    → (size ≤ chunk_count size * chunk_size) × (chunk_count size * chunk_size < size + chunk_size)
unfolding chunk_count
chunk_count_bounds size = omega arith

module _ (K : KeyValueStore) (L : IsLawful K) (key : Text) where
  -- A later chunk is written under another key.
  get-send_chunks :
      (n i j : ℕ) (rest : Text) (kv : K.Store)
      → j < i
      → K.get (send_chunks K key n i rest kv) (chunk_key key j) ≡ K.get kv (chunk_key key j)
  unfolding send_chunks
  get-send_chunks zero i j rest kv h = refl
  get-send_chunks (suc n) i j rest kv h =
      get-send_chunks n (i + 1) j _ _ (omega arith)
      ∙ L.get-set_ne kv (chunk_key key i) (chunk_key key j) _
          (λ e. absurd (omega (arith, chunk_key-injective key j i e)))

  recv_chunks-send_chunks :
      (n i : ℕ) (rest : Text) (kv : K.Store)
      → length rest ≤ n * chunk_size
      → recv_chunks K key n i (send_chunks K key n i rest kv) ≡ ok rest
  unfolding send_chunks recv_chunks
  recv_chunks-send_chunks zero i [] kv h = refl
  recv_chunks-send_chunks zero i (x ∷ rest) kv h = absurd (omega arith)
  recv_chunks-send_chunks (suc n) i rest kv h = rw (
    get-send_chunks n (i + 1) i (drop chunk_size rest) _ (omega arith),
    L.get-set_self kv (chunk_key key i) (take chunk_size rest),
    recv_chunks-send_chunks n (i + 1) (drop chunk_size rest) _ (fits h),
    take-append-drop chunk_size rest,
  )
    where
      fits : length rest ≤ suc n * chunk_size → length (drop chunk_size rest) ≤ n * chunk_size
      fits h = omega (arith, length-drop chunk_size rest)

  -- The store that holds the same under every name gives the same file.
  recv_chunks-same :
      (n i : ℕ) (s t : K.Store)
      → ((k : Text) → K.get s k ≡ K.get t k)
      → recv_chunks K key n i s ≡ recv_chunks K key n i t
  unfolding recv_chunks
  recv_chunks-same zero i s t h = refl
  recv_chunks-same (suc n) i s t h = rw (h (chunk_key key i), recv_chunks-same n (i + 1) s t h)

  -- With a lawful store, what `send_file` returns is enough for `recv_file` to give back the file, with a block store in
  -- between or without one, for a file of any size.
  pub recv_file-send_file :
      (file : Text) (block_store : Option K.Blocks)
      → let (info, synced) = send_file K key file block_store in recv_file K info synced ≡ ok file
  unfolding send_file recv_file
  recv_file-send_file file none =
      recv_chunks-same _ 0 _ _ (L.get-reopen _)
      ∙ recv_chunks-send_chunks _ 0 file K.create (chunk_count_bounds (length file)).0
  recv_file-send_file file (some blocks) =
      recv_chunks-same _ 0 _ _ (L.get-sync _ blocks)
      ∙ recv_chunks-send_chunks _ 0 file K.create (chunk_count_bounds (length file)).0

  -- In a lawful store, after one chunk or more were sent from number i on, the chunk with number i is
  -- the first 1024 bytes of what was to be sent, or all of it if it is less.
  stored_chunk :
      (n i : ℕ) (rest : Text) (kv : K.Store)
      → K.get (send_chunks K key (suc n) i rest kv) (chunk_key key i) ≡ ok (take chunk_size rest)
  unfolding send_chunks
  stored_chunk n i rest kv =
      get-send_chunks n (i + 1) i (drop chunk_size rest) _ (omega arith)
      ∙ L.get-set_self kv (chunk_key key i) (take chunk_size rest)
