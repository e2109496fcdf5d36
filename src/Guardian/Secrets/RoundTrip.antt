-- ===== src/Guardian/Secrets/RoundTrip.antt =====
-- A secret that was sent is received.
use pdo_contracts.Base.{inl, inr, ◌≡◌, [], ◌∷◌, arith, string_eq}
use pdo_contracts.Base.Exec.{Result-cases, Action, ok}
use pdo_contracts.Base.Json.{Json, str, dict}
use pdo_contracts.Platform.{Platform}
use pdo_contracts.Platform.Laws.{IsLawful}
use pdo_contracts.Guardian.World.{World}
use pdo_contracts.Guardian.Keys.{CapabilityKeys, raw, bytes, decrypt}
use pdo_contracts.Guardian.Secrets.{
  secret_properties, secret_schema, validate_json, decode_field, open_secret, recv_secret,
  send_secret,
}

module _ (P : Platform) where
  -- What `encrypt_for` encrypts, the decryption key opens.
  pub record Opens (key : P.DecryptionKey) (encrypt_for : P.Bytes → Action (World P) P.Bytes)
      : Type 0 where
    pub opens :
        (b c : P.Bytes) (w : World P) → (encrypt_for b w).0 ≡ ok c → P.decrypt_message key c ≡ ok b

  -- The secret that `send_secret` builds from its three parts.
  abbrev pub secret_of : P.Bytes → P.Bytes → P.Bytes → Json
  secret_of key iv cipher = dict (
      ("encrypted_session_key", str (P.byte_array_to_base64 key))
      ∷ ("session_key_iv", str (P.byte_array_to_base64 iv))
      ∷ ("encrypted_message", str (P.byte_array_to_base64 cipher))
      ∷ [])

  module _ (L : IsLawful P) where
    secret_is_valid :
        (key iv cipher : P.Bytes) → P.validate (secret_of key iv cipher) secret_schema ≡ ok tt
    unfolding string_eq
    secret_is_valid key iv cipher =
        L.accepts_object _ secret_properties
          (L.accepts_string _, (L.accepts_string _, (L.accepts_string _, tt)))

    decode-key :
        (key iv cipher : P.Bytes)
        → decode_field P (secret_of key iv cipher) "encrypted_session_key" ≡ ok key
    unfolding decode_field string_eq
    decode-key key iv cipher = L.base64_read_back key

    decode-iv :
        (key iv cipher : P.Bytes)
        → decode_field P (secret_of key iv cipher) "session_key_iv" ≡ ok iv
    unfolding decode_field string_eq
    decode-iv key iv cipher = L.base64_read_back iv

    decode-cipher :
        (key iv cipher : P.Bytes)
        → decode_field P (secret_of key iv cipher) "encrypted_message" ≡ ok cipher
    unfolding decode_field string_eq
    decode-cipher key iv cipher = L.base64_read_back cipher

    decrypt-raw :
        (k : CapabilityKeys P) (c b : P.Bytes)
        → P.decrypt_message k.decryption_key c ≡ ok b
        → decrypt P k (raw c) "raw" ≡ ok (bytes b)
    unfolding decrypt string_eq
    decrypt-raw k c b h = rw h

    open_secret-secret_of :
        (k : CapabilityKeys P) (key iv cipher sealed_key : P.Bytes) (message : Json) (w : World P)
        → P.decrypt_message k.decryption_key sealed_key ≡ ok key
        → P.skenc_encrypt key iv (P.string_to_byte_array (P.json_dumps message)) ≡ ok cipher
        → open_secret P k (secret_of sealed_key iv cipher) w ≡ (ok message, w)
    unfolding open_secret
    open_secret-secret_of k key iv cipher sealed_key message w opens sealed = ground (
      arith,
      decode-key sealed_key iv cipher,
      decode-iv sealed_key iv cipher,
      decode-cipher sealed_key iv cipher,
      decrypt-raw k sealed_key key opens,
      L.skenc_opens key iv (P.string_to_byte_array (P.json_dumps message)) cipher sealed,
      L.text_read_back (P.json_dumps message),
      L.json_read_back message,
    )

    recv_secret-secret_of :
        (k : CapabilityKeys P) (key iv cipher sealed_key : P.Bytes) (message : Json) (w : World P)
        → P.decrypt_message k.decryption_key sealed_key ≡ ok key
        → P.skenc_encrypt key iv (P.string_to_byte_array (P.json_dumps message)) ≡ ok cipher
        → recv_secret P k (secret_of sealed_key iv cipher) w ≡ (ok message, w)
    unfolding recv_secret validate_json
    recv_secret-secret_of k key iv cipher sealed_key message w opens sealed =
        rw (secret_is_valid sealed_key iv cipher)
          (open_secret-secret_of k key iv cipher sealed_key message w opens sealed)

    module _ (k : CapabilityKeys P) (encrypt_for : P.Bytes → Action (World P) P.Bytes)
        (message secret : Json) (w w' u : World P) (opening : Opens k.decryption_key encrypt_for)
        (sent : send_secret P encrypt_for message w ≡ (ok secret, w')) where
      -- On a lawful platform, what `send_secret` has sent to the holder of a key, `recv_secret` gives back under that key, in
      -- any world, and without a change to it.
      pub recv_secret-send_secret : recv_secret P k secret u ≡ (ok message, u)
      unfolding send_secret
      recv_secret-send_secret =
          let (key, o₁) = P.skenc_generate_key w.outside in
          let (iv, o₂) = P.skenc_generate_iv o₁ in
          let w₂ : World P = record w { outside = o₂ } in
          elim (Result-cases
            (P.skenc_encrypt key iv (P.string_to_byte_array (P.json_dumps message)))) [
              | inr (e, p) ↦ absurd (ground arith)
              | inl (cipher, p) ↦ elim (Result-cases (encrypt_for key w₂).0) [
                | inr (e, q) ↦ absurd (ground arith)
                | inl (sealed_key, q) ↦
                    let built : secret ≡ secret_of sealed_key iv cipher = ground arith in
                    rw built (
                      recv_secret-secret_of k key iv cipher sealed_key message u
                        (opening.opens key sealed_key w₂ q) p)
              ]
            ]
