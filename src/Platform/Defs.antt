-- ===== src/Platform/Defs.antt =====
-- What the guardian service calls and does not implement: the cryptography of `pdo.common`, the
-- `json` and `jsonschema` modules, the reading of a request, and the world outside.
use pdo_contracts.Base.{ℕ, String}
use pdo_contracts.Base.Exec.{Result}
use pdo_contracts.Base.Json.{Json}

pub record Platform : Type 1 where
  -- all that lies outside and changes: the random source, and what the operations act on
  pub Outside : Type 0
  -- a WSGI environment, and `pdo.common.wsgi.UnpackJSONRequest`
  pub Environ : Type 0
  pub unpack_json_request : Environ → Result Json
  -- `jsonschema.validate(instance, schema)`
  pub validate : Json → Json → Result (Unit {0})
  pub json_dumps : Json → String
  pub json_loads : String → Result Json
  pub Bytes : Type 0
  pub byte_length : Bytes → ℕ
  -- `pdo.common.crypto`: signing keys, decryption keys and the encryption keys that belong to them
  pub SigningKey : Type 0
  pub DecryptionKey : Type 0
  pub EncryptionKey : Type 0
  pub sig_generate : Outside → SigningKey × Outside
  pub pkenc_generate : Outside → DecryptionKey × Outside
  pub sig_serialize : SigningKey → String
  pub sig_deserialize : String → Result SigningKey
  pub pkenc_serialize : DecryptionKey → String
  pub pkenc_deserialize : String → Result DecryptionKey
  pub get_public_key : DecryptionKey → EncryptionKey
  pub public_serialize : EncryptionKey → String
  -- `ServiceKeys.verifying_key`
  pub verifying_key : SigningKey → String
  pub encrypt_message : EncryptionKey → Bytes → Outside → Result Bytes × Outside
  pub decrypt_message : DecryptionKey → Bytes → Result Bytes
  pub skenc_generate_key : Outside → Bytes × Outside
  pub skenc_generate_iv : Outside → Bytes × Outside
  pub skenc_encrypt : Bytes → Bytes → Bytes → Result Bytes
  pub skenc_decrypt : Bytes → Bytes → Bytes → Result Bytes
  -- the codecs
  pub byte_array_to_base64 : Bytes → String
  pub base64_to_byte_array : String → Result Bytes
  pub byte_array_to_hex : Bytes → String
  pub string_to_byte_array : String → Bytes
  pub byte_array_to_string : Bytes → Result String
  pub ascii : String → Result Bytes
  pub utf8 : String → Bytes
  -- `pdo.common.keys.EnclaveKeys`, and its `encrypt`
  pub EnclaveKeys : Type 0
  pub enclave_keys : String → String → Result EnclaveKeys
  pub enclave_encrypt : EnclaveKeys → Bytes → Outside → Result Bytes × Outside
