-- ===== src/Guardian/ProcessCapability/Protocol.antt =====
-- From the creation of a capability key to a request under it.
use pdo_contracts.Base.{String, ◌≡◌, some, [], ◌∷◌, arith, string_eq}
use pdo_contracts.Base.Exec.{Result, ok}
use pdo_contracts.Base.Json.{Json, str, dict}
use pdo_contracts.Platform.{Platform}
use pdo_contracts.Platform.Laws.{IsLawful}
use pdo_contracts.Guardian.World.{World, Shelf, attempt}
use pdo_contracts.Guardian.Keys.{capability_keys}
use pdo_contracts.Guardian.Keystore.{create_capability_key}
use pdo_contracts.Guardian.Keystore.Laws.{new_keys, get-create}
use pdo_contracts.Guardian.Secrets.{validate_json, send_secret}
use pdo_contracts.Guardian.Secrets.RoundTrip.{Opens, recv_secret-send_secret}
use pdo_contracts.Guardian.Http.{value}
use pdo_contracts.Guardian.ProcessCapability.{input_schema, operation_schema, unpack}

module _ (P : Platform) where
  -- Encryption by a key that was issued.
  abbrev pub encrypt_with : P.EncryptionKey → P.Bytes → World P → Result P.Bytes × World P
  encrypt_with key b = attempt (P.encrypt_message key b)

  -- The request that a token object sends for a capability.
  abbrev pub capability : String → Json → Json
  capability identity secret = dict (("minted_identity", str identity) ∷ ("operation", secret) ∷ [])

  pub issued-Opens :
      IsLawful P
      → (w : World P)
      → Opens P (new_keys P w).decryption_key (encrypt_with (new_keys P w).encryption_key)
  unfolding capability_keys
  issued-Opens L w = record { opens = λ b c u e. L.pkenc_opens _ b c u.outside e }

  -- On a lawful platform, the key that was created for an identity in an open store serves: a message that was sent under its encryption key,
  -- in a capability request for the identity, is what the handler unpacks, if the request and the
  -- message fit their schemas.
  pub unpack-capability :
      (L : IsLawful P) (identity : String) (message secret : Json) (environ : P.Environ)
      (w u u' : World P) (shelf : Shelf)
      → w.keystore ≡ some shelf
      → send_secret P (encrypt_with (new_keys P w).encryption_key) message u ≡ (ok secret, u')
      → P.unpack_json_request environ ≡ ok (capability identity secret)
      → P.validate (capability identity secret) input_schema ≡ ok tt
      → P.validate message operation_schema ≡ ok tt
      → let w' = (create_capability_key P identity w).1 in
        unpack P environ w'
        ≡ (value (record { minted_identity = identity; operation_message = message }), w')
  unfolding unpack validate_json string_eq
  unpack-capability L identity message secret environ w u u' shelf is_open sent arrived fits
        message_fits =
      ground (
        arith,
        get-create P L identity w shelf is_open,
        recv_secret-send_secret P L (new_keys P w) (encrypt_with (new_keys P w).encryption_key)
            message secret u u' (create_capability_key P identity w).1 (issued-Opens L w) sent,
      )
