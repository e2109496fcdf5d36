-- ===== src/Platform/Laws.antt =====
-- The documented behaviour of the platform that proofs rely on: what is serialized, encoded or
-- encrypted is read back, and a JSON schema accepts the objects whose fields it accepts.
use pdo_contracts.Base.{String, ◌≡◌, Option, none, some, List, [], ◌∷◌}
use pdo_contracts.Base.Exec.{ok}
use pdo_contracts.Base.Json.{Json, Fields, str, object, dict, field?}
use pdo_contracts.Platform.Defs.{Platform}

abbrev pub Fits : Platform → Json → Option Json → Type 0
Fits P schema none = Unit
Fits P schema (some v) = P.validate v schema ≡ ok tt

-- The values that are there validate against their schemas.
abbrev pub Conforms : Platform → Fields → List (String × Json) → Type 0
Conforms P fs [] = Unit
Conforms P fs ((k, schema) ∷ props) = Fits P schema (field? k fs) × Conforms P fs props

pub record IsLawful (P : Platform) : Type 0 where
  pub sig_read_back : (k : P.SigningKey) → P.sig_deserialize (P.sig_serialize k) ≡ ok k
  pub pkenc_read_back : (k : P.DecryptionKey) → P.pkenc_deserialize (P.pkenc_serialize k) ≡ ok k
  pub json_read_back : (j : Json) → P.json_loads (P.json_dumps j) ≡ ok j
  pub base64_read_back : (b : P.Bytes) → P.base64_to_byte_array (P.byte_array_to_base64 b) ≡ ok b
  pub text_read_back : (s : String) → P.byte_array_to_string (P.string_to_byte_array s) ≡ ok s
  -- a decryption key opens what its public key has encrypted
  pub pkenc_opens :
      (k : P.DecryptionKey) (b c : P.Bytes) (o : P.Outside)
      → (P.encrypt_message (P.get_public_key k) b o).0 ≡ ok c
      → P.decrypt_message k c ≡ ok b
  pub skenc_opens :
      (k iv b c : P.Bytes) → P.skenc_encrypt k iv b ≡ ok c → P.skenc_decrypt k iv c ≡ ok b
  pub accepts_string :
      (s : String) → P.validate (str s) (dict (("type", str "string") ∷ [])) ≡ ok tt
  pub accepts_object :
      (fs : Fields) (props : List (String × Json))
      → Conforms P fs props
      → P.validate (object fs) (dict (("type", str "object") ∷ ("properties", dict props) ∷ []))
        ≡ ok tt
