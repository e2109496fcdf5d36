-- ===== src/Tests/Platform.antt =====
-- A concrete platform. Texts are their own bytes, keys are texts, a cipher is the key followed by the
-- message, and the random source is a number that grows.
use Prim.Native.String.{String, ◌∷◌}
use pdo_contracts.Base.{
  ℕ, zero, suc, ◌≡◌, refl, true, Option, none, some, List, arith, ◌==◌, string_eq, if◌then◌else◌,
}
use pdo_contracts.Base.Exec.{Result, ok, err, other}
use pdo_contracts.Base.Json.{Json, Fields, object, from_list, field?}
use pdo_contracts.Platform.{Platform}
use pdo_contracts.Platform.Laws.{IsLawful, Conforms, Fits}
use pdo_contracts.Tests.Codec.{
  count, dumps, loads, loads-dumps, print_text, parse_text, parse_text-print_text,
}
use pdo_contracts.Tests.Schema
use pdo_contracts.Tests.Schema.{
  validate, validate_string, validate_object, accepts_properties, accepts_properties-field,
}

-- The key that the random source gives: as many characters as its number says.
unfoldable pub fresh : ℕ → String
fresh zero = "."
fresh (suc n) = "k" ∷ fresh n

unfoldable pub close : String → String → String
close key b = print_text key b

abbrev opened : String → Option (String × String) → Result String
opened key none = err (other "no cipher")
opened key (some (k, b)) = if k == key then ok b else err (other "wrong key")

unfoldable pub open_with : String → String → Result String
open_with key c = opened key (parse_text c)

pub open_with-close : (key b : String) → open_with key (close key b) ≡ ok b
unfolding open_with close
open_with-close key b = rw (parse_text-print_text key b) (ground arith)

abbrev pub toy : Platform
toy = record {
  Outside = ℕ;
  Environ = Result Json;
  unpack_json_request = λ e. e;
  validate = validate;
  json_dumps = dumps;
  json_loads = loads;
  Bytes = String;
  byte_length = count;
  SigningKey = String;
  DecryptionKey = String;
  EncryptionKey = String;
  sig_generate = λ n. (fresh n, suc n);
  pkenc_generate = λ n. (fresh n, suc n);
  sig_serialize = λ k. k;
  sig_deserialize = λ s. ok s;
  pkenc_serialize = λ k. k;
  pkenc_deserialize = λ s. ok s;
  get_public_key = λ k. k;
  public_serialize = λ k. k;
  verifying_key = λ k. k;
  encrypt_message = λ k b n. (ok (close k b), n);
  decrypt_message = open_with;
  skenc_generate_key = λ n. (fresh n, suc n);
  skenc_generate_iv = λ n. (fresh n, suc n);
  skenc_encrypt = λ k iv b. ok (close k b);
  skenc_decrypt = λ k iv c. open_with k c;
  byte_array_to_base64 = λ b. b;
  base64_to_byte_array = λ s. ok s;
  byte_array_to_hex = λ b. b;
  string_to_byte_array = λ s. s;
  byte_array_to_string = λ b. ok b;
  ascii = λ s. ok s;
  utf8 = λ s. s;
  EnclaveKeys = String;
  enclave_keys = λ v e. ok e;
  enclave_encrypt = λ k b n. (ok (close k b), n);
}

Fits-schema : (schema : Json) (o : Option Json) → Fits toy schema o → Schema.Fits schema o
Fits-schema schema none h = tt
Fits-schema schema (some v) h = h

conforming :
    (fs : Fields) (props : List (String × Json))
    → Conforms toy fs props
    → accepts_properties (from_list props) (object fs) ≡ true
unfolding accepts_properties
conforming fs List.[] h = refl
conforming fs (List.◌∷◌ (k, schema) props) (h, hs) =
    accepts_properties-field k schema fs (from_list props) (Fits-schema schema (field? k fs) h)
      (conforming fs props hs)

pub toy-IsLawful : IsLawful toy
toy-IsLawful = record {
  sig_read_back = λ k. refl;
  pkenc_read_back = λ k. refl;
  json_read_back = loads-dumps;
  base64_read_back = λ b. refl;
  text_read_back = λ s. refl;
  pkenc_opens = λ k b c o e. cc (open_with-close k b);
  skenc_opens = λ k iv b c e. cc (open_with-close k b);
  accepts_string = validate_string;
  accepts_object = λ fs props h. validate_object fs (from_list props) (conforming fs props h);
}
