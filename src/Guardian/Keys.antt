-- ===== src/Guardian/Keys.antt =====
-- `CapabilityKeys` (guardian/common/capability_keys.py).
use pdo_contracts.Base.{String, ◌==◌, string_eq, if◌then◌else◌}
use pdo_contracts.Base.Exec.{Action, Result, ok, err, other, pure, lift, ◌▷◌, ◌>>=◌}
use pdo_contracts.Platform.{Platform}
use pdo_contracts.Guardian.World.{World, draw, attempt}

pub record CapabilityKeys (P : Platform) : Type 0 where
  pub signing_key : P.SigningKey
  pub decryption_key : P.DecryptionKey
  pub encryption_key : P.EncryptionKey

-- The argument of `encrypt` and `decrypt`: bytes or a tuple of them, or else a text.
pub data Message (P : Platform) : Type 0 where
  raw : P.Bytes → Message P
  text : String → Message P

-- The result, by its encoding.
pub data Encoded (P : Platform) : Type 0 where
  bytes : P.Bytes → Encoded P
  chars : String → Encoded P

module _ (P : Platform) where
  -- `__init__`
  unfoldable pub capability_keys : P.SigningKey → P.DecryptionKey → CapabilityKeys P
  capability_keys s d = record {
    signing_key = s;
    decryption_key = d;
    encryption_key = P.get_public_key d;
  }

  unfoldable pub create_new_keys : Action (World P) (CapabilityKeys P)
  unfolding capability_keys
  create_new_keys = do
    signing_key ← draw P.sig_generate
    decryption_key ← draw P.pkenc_generate
    pure (capability_keys signing_key decryption_key)

  unfoldable pub deserialize : String → String → Result (CapabilityKeys P)
  unfolding capability_keys
  deserialize s d = P.sig_deserialize s ▷ λ signing_key.
      P.pkenc_deserialize d ▷ λ decryption_key. ok (capability_keys signing_key decryption_key)

  unfoldable pub serialize : CapabilityKeys P → String × String
  serialize k = (P.sig_serialize k.signing_key, P.pkenc_serialize k.decryption_key)

  unfoldable pub message_byte_array : Message P → Result P.Bytes
  message_byte_array (raw b) = ok b
  message_byte_array (text s) = P.ascii s

  -- The last step of `encrypt` and `decrypt`: an unknown encoding raises once the work is done.
  unfoldable pub encode : String → P.Bytes → Result (Encoded P)
  encode encoding b =
      if encoding == "raw"
      then ok (bytes b)
      else if encoding == "hex"
      then ok (chars (P.byte_array_to_hex b))
      else if encoding == "b64"
      then ok (chars (P.byte_array_to_base64 b))
      else err (other "unknown encoding")

  unfoldable pub encrypt : CapabilityKeys P → Message P → String → Action (World P) (Encoded P)
  unfolding message_byte_array encode
  encrypt k message encoding = do
    message_bytes ← lift (message_byte_array message)
    encrypted ← attempt (P.encrypt_message k.encryption_key message_bytes)
    lift (encode encoding encrypted)

  unfoldable pub decrypt : CapabilityKeys P → Message P → String → Result (Encoded P)
  unfolding message_byte_array encode
  decrypt k message encoding = message_byte_array message ▷ λ message_bytes.
      P.decrypt_message k.decryption_key message_bytes ▷ encode encoding
