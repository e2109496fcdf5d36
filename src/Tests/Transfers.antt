-- ===== src/Tests/Transfers.antt =====
-- File transfers over a concrete store, and a client that is put off.
use pdo_contracts.Base.{
  ℕ, ◌≡◌, ◌≢◌, refl, Bool, true, false, num_eq, some, none, List, [], ◌∷◌, ◌++◌, arith, Eq, length,
  Option, leb, replicate,
}
use native.Mathlib.Decide.{ℕ_discrete}
use pdo_contracts.Base.Exec.{Result, ok, err, other}
use pdo_contracts.Base.Json.{null}
use pdo_contracts.Base.Dict.{Dict, lookup, insert, lookup-insert}
use pdo_contracts.Files.Store.{Text, KeyValueStore, IsLawful}
use pdo_contracts.Files.Transfer.{send_file, recv_file}
use pdo_contracts.Files.Transfer.RoundTrip.{recv_file-send_file}
use pdo_contracts.Guardian.Client.{Attempt, answered, broken, request, finished}
use pdo_contracts.Guardian.Client.Retry.{request_answer, AtMost}

Text-discrete : Discrete Text
Text-discrete = hlevel ℕ_discrete

instance text_eq : Eq Text
text_eq = record { decides = Text-discrete }

abbrev found : Option Text → Result Text
found none = err (other "no such key")
found (some v) = ok v

-- A store is its encryption key with a dictionary, and its hash names both: a store that is opened by
-- another key is empty. The block store holds the last store that was synced to it.
abbrev Shelf : Type 0
Shelf = ℕ × Dict Text Text

abbrev decrypted : ℕ → Shelf → Shelf
decrypted key (k, d) = (key, (elim (num_eq key k) [ true ↦ d | false ↦ [] ]))

abbrev shelf_store : KeyValueStore
shelf_store = record {
  Store = Shelf;
  create = (7, []);
  set = λ s k v. (s.0, insert k v s.1);
  get = λ s k. found (lookup k s.1);
  EncryptionKey = ℕ;
  StateHash = Shelf;
  encryption_key = λ s. s.0;
  hash_identity = λ s. s;
  reopen = λ key hash. decrypted key hash;
  Blocks = Shelf;
  sync_to_block_store = λ s _. s;
  sync_from_block_store = λ t _ blocks. decrypted t.0 blocks;
}

shelf_store-get_self : (s : Dict Text Text) (k v : Text) → found (lookup k (insert k v s)) ≡ ok v
shelf_store-get_self s k v = ground (arith, lookup-insert k k v s)

shelf_store-get_ne :
    (s : Dict Text Text) (k j v : Text)
    → j ≢ k
    → found (lookup j (insert k v s)) ≡ found (lookup j s)
shelf_store-get_ne s k j v ne = ground (arith, lookup-insert j k v s)

decrypted-own : (s : Shelf) (k : Text) → found (lookup k (decrypted s.0 s).1) ≡ found (lookup k s.1)
decrypted-own s k = ground arith

shelf_store-IsLawful : IsLawful shelf_store
shelf_store-IsLawful = record {
  get-set_self = λ s. shelf_store-get_self s.1;
  get-set_ne = λ s. shelf_store-get_ne s.1;
  get-reopen = λ s k. decrypted-own s k;
  get-sync = λ s b k. decrypted-own s k;
}

-- Three chunks, the last one of two bytes.
abbrev file : Text
file = replicate 2050 b'x'

recv_file-send_file_example :
    let (info, synced) = send_file shelf_store (b'k' ∷ []) file (some (0, [])) in
    recv_file shelf_store info synced ≡ ok file
recv_file-send_file_example =
    recv_file-send_file shelf_store shelf_store-IsLawful (b'k' ∷ []) file (some (0, []))

is_error : ℕ → Bool
is_error status = leb 400 status

abbrev put_off : List Attempt
put_off = answered 429 (some (ok 5000)) "" (ok null) ∷ answered 429 none "" (ok null) ∷ []

request_answer_example :
    let (reply, sleeps) =
      request is_error (put_off ++ answered 200 none "" (ok null) ∷ broken "" ∷ []) in
    (reply ≡ finished is_error 200 "" (ok null)) × (length sleeps ≡ 2) × AtMost 1000 sleeps
request_answer_example =
    request_answer is_error put_off 200 none "" (ok null) (broken "" ∷ [])
      ((refl, (1000, refl)), ((refl, (1000, refl)), tt)) (omega arith)
