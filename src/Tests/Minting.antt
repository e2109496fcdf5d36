-- ===== src/Tests/Minting.antt =====
-- Contracts whose answers are capabilities, the minting of tokens and the use of a capability.
use pdo_contracts.Base.{
  String, ◌≡◌, refl, ◌⊎◌, ◌==◌, if◌then◌else◌, string_eq, false, List, [], ◌∷◌,
}
use pdo_contracts.Base.Exec.{Result, Exn, ok, err}
use pdo_contracts.Base.Json.{Json, str, dict, list_of, keywords, json_eq}
use pdo_contracts.Plugins.Client.{Client}
use pdo_contracts.Plugins.Client.Laws.{IsLawful}
use pdo_contracts.Plugins.Ledger.{Ledger}
use pdo_contracts.Plugins.DigitalAsset.{send_capability}
use pdo_contracts.Plugins.DigitalAsset.Capability.{request_of, processing, send_capability-carries}
use pdo_contracts.Tests.Exchanges.{toy_client, same_file}

-- Every answer is a dict with a key, and two tokens have been minted.
abbrev minter : Client
minter = record toy_client {
  json_loads = λ text. ok (dict (("verifying_key", str text) ∷ []));
  context_get = λ c k default w.
      if k == "token_save_file_list" then list_of (str "t1.pdo" ∷ str "t2.pdo" ∷ []) else default;
}

abbrev minter-IsLawful : IsLawful minter
minter-IsLawful = record {
  sent = λ w. w;
  save_file = λ s. s.0;
  commit = λ s. s.1;
  save_file-session = λ f. refl;
  save_file-set = λ b s. refl;
  commit-set = λ b s. refl;
  sent-send = λ m s w. refl;
  effective = λ c s kwargs w. ok s;
  effective_file = λ c s s' kwargs w h. same_file s s' h;
  invoked = λ op c s kwargs w. refl;
  sent-create = λ c contract_class kwargs w. refl;
  sent-set = λ c k j w. refl;
  key_committed = λ s w. refl;
}

-- The configured count is two.
abbrev ledger : Ledger minter
ledger = record {
  get_ledger_info = λ w. (ok (str "ledger"), w);
  get_contract_info = λ id w. (ok (dict []), w);
  get_current_state_hash = λ id w. (ok (dict (("signature", str "s") ∷ [])), w);
  contract_id = λ file w. (ok (str file), w);
  op_get_contract_metadata = λ s w. (ok "m", w);
  op_get_contract_code_metadata = λ s w. (ok "c", w);
  op_add_endpoint = λ a b c d s w. (ok "e", w);
  wait = λ s. s;
  create_from_file = λ c source w. ok ("code", c);
  natural = λ j. ok 3;
  format_number = λ n. "n";
  Bytes = String;
  string_to_byte_array = λ s. s;
  compute_message_hash = λ s. s;
  byte_array_to_base64 = λ s. s;
}

abbrev full_ledger : Ledger minter
full_ledger = record ledger { natural = λ j. ok 2 }

send_capability-carries_example :
    let (r, w') =
      send_capability minter "get_image_metadata" "guardian.pdo" ("token.pdo", false) [] in
    ((e : Exn) × (answer : Result String) × (r ≡ err e)
      × (w'
          ≡ request_of minter minter-IsLawful "get_image_metadata" "guardian.pdo"
              ("token.pdo", false)
              []
              answer
            ∷ []))
    ⊎ ((capability : String) × (j : Json) × (params : List (String × Json)) × (minter.json_loads
            capability
          ≡ ok j)
        × (keywords j ≡ ok params)
        × (w'
            ≡ processing minter minter-IsLawful "get_image_metadata" "guardian.pdo"
                ("token.pdo", false)
                []
                params
                r
              ∷ request_of minter minter-IsLawful "get_image_metadata" "guardian.pdo"
                  ("token.pdo", false)
                  []
                  (ok capability)
              ∷ []))
send_capability-carries_example =
    send_capability-carries minter minter-IsLawful "get_image_metadata" "guardian.pdo"
      ("token.pdo", false) []
