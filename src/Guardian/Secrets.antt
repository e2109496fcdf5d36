-- ===== src/Guardian/Secrets.antt =====
-- The packing of messages for one recipient (guardian/common/secrets.py), and `ValidateJSON`.
pub mod RoundTrip
use pdo_contracts.Base.{String, List, Bool, true, false, if◌then◌else◌, [], ◌∷◌}
use pdo_contracts.Base.Exec.{
  Action, Result, ok, err, validation_error, other, pure, lift, ◌▷◌, ◌>>=◌,
}
use pdo_contracts.Base.Json.{Json, str, null, dict, get_item, as_str}
use pdo_contracts.Platform.{Platform}
use pdo_contracts.Guardian.World.{World, draw}
use pdo_contracts.Guardian.Keys.{CapabilityKeys, Encoded, bytes, chars, raw, decrypt}

-- `{ "type" : t }`
abbrev pub of_type : String → Json
of_type t = dict (("type", str t) ∷ [])

abbrev pub secret_properties : List (String × Json)
secret_properties =
    ("encrypted_session_key", of_type "string")
    ∷ ("session_key_iv", of_type "string")
    ∷ ("encrypted_message", of_type "string")
    ∷ []

abbrev pub secret_schema : Json
secret_schema = dict (("type", str "object") ∷ ("properties", dict secret_properties) ∷ [])

-- A validation error is an answer; what else `jsonschema` raises goes on.
abbrev is_valid : Result (Unit {0}) → Result Bool
is_valid (ok _) = ok true
is_valid (err validation_error) = ok false
is_valid (err e) = err e

-- A decrypted session key is used as bytes.
abbrev pub as_bytes : {P : Platform} → Encoded P → Result P.Bytes
as_bytes (bytes b) = ok b
as_bytes (chars _) = err (other "not a byte array")

module _ (P : Platform) where
  -- `ValidateJSON` (guardian/common/utility.py)
  unfoldable pub validate_json : Json → Json → Result Bool
  validate_json instance_value schema = is_valid (P.validate instance_value schema)

  -- `crypto.base64_to_byte_array(message[k])`
  unfoldable pub decode_field : Json → String → Result P.Bytes
  decode_field message k = get_item message k ▷ as_str ▷ P.base64_to_byte_array

  -- The work of `recv_secret` once the message is validated.
  unfoldable pub open_secret : CapabilityKeys P → Json → Action (World P) Json
  unfolding decode_field
  open_secret capability_key secret = do
    encrypted_session_key ← lift (decode_field secret "encrypted_session_key")
    session_key ← lift (decrypt P capability_key (raw encrypted_session_key) "raw")
    session_iv ← lift (decode_field secret "session_key_iv")
    cipher ← lift (decode_field secret "encrypted_message")
    key ← lift (as_bytes session_key)
    raw_message ← lift (P.skenc_decrypt key session_iv cipher)
    message ← lift (P.byte_array_to_string raw_message)
    lift (P.json_loads message)

  -- `None`, which is `null` here, for what is no secret
  unfoldable pub recv_secret : CapabilityKeys P → Json → Action (World P) Json
  recv_secret capability_key secret = do
    valid ← lift (validate_json secret secret_schema)
    if valid then open_secret capability_key secret else pure null

  -- `encrypt` is the method of the recipient's keys.
  unfoldable pub send_secret : (P.Bytes → Action (World P) P.Bytes) → Json → Action (World P) Json
  send_secret encrypt_for message = do
    session_key ← draw P.skenc_generate_key
    session_iv ← draw P.skenc_generate_iv
    cipher ←
        lift
          (P.skenc_encrypt session_key session_iv (P.string_to_byte_array (P.json_dumps message)))
    encrypted_session_key ← encrypt_for session_key
    pure (
        dict (
          ("encrypted_session_key", str (P.byte_array_to_base64 encrypted_session_key))
          ∷ ("session_key_iv", str (P.byte_array_to_base64 session_iv))
          ∷ ("encrypted_message", str (P.byte_array_to_base64 cipher))
          ∷ []))
