-- ===== src/Tests/Exchanges.antt =====
-- A client whose contracts answer every message, and the exchange's commands on it.
use pdo_contracts.Base.{
  String, ◌≡◌, refl, ◌<>◌, Bool, true, false, if◌then◌else◌, ◌==◌, string_eq, none, some, List, [],
  ◌∷◌, ◌⊎◌,
}
use pdo_contracts.Base.Exec.{Result, Exn, ok, err}
use pdo_contracts.Base.Json.{Json, str, num, dict}
use pdo_contracts.Plugins.Client.{Client}
use pdo_contracts.Plugins.Client.Laws.{Sent, IsLawful, message_to}
use pdo_contracts.Plugins.Exchange.{
  cmd_claim_offer, cmd_claim_payment, cmd_cancel_order, cmd_match_order, op_claim_offered_asset,
}
use pdo_contracts.Plugins.Issuer.{op_claim, cmd_initialize_issuer}
use pdo_contracts.Plugins.Issuer.Authority.{Initializes, cmd_initialize_issuer-Initializes}
use pdo_contracts.Plugins.TokenObject.{cmd_transfer_assets}
use pdo_contracts.Plugins.TokenObject.Single.{Transferable, cmd_transfer_assets-Transferable}
use pdo_contracts.Plugins.Exchange.Transfers.{
  Claims, cmd_claim_offer-Claims, cmd_claim_payment-Claims,
}
use pdo_contracts.Plugins.Exchange.Escrow.{
  Cancels, Matches, cmd_cancel_order-Cancels, cmd_match_order-Matches,
}
use pdo_contracts.Plugins.Exchange.Order.{OrderArguments}

abbrev pub toy_client : Client
toy_client = record {
  World = List Sent;
  Context = String;
  is_none = λ c. c == "";
  get_context = λ c label w. ok label;
  context_get = λ c k default w. default;
  context_item = λ c k w. ok (str k);
  context_set = λ c k j w. w;
  has_key = λ c k w. true;
  open_context = λ path. path;
  state_context = λ path w. path;
  get_contract_from_context = λ c w. ok (if c == "new" then none else some (c <> ".pdo"));
  create_contract_from_context = λ c contract_class kwargs w. (ok (c <> ".pdo"), w);
  Session = String × Bool;
  session_parameters = λ file. (file, false);
  set_commit = λ b s. (s.0, b);
  invocation_request =
      λ method arguments. dict (("method", str method) ∷ ("parameters", dict arguments) ∷ []);
  send_to_contract = λ m s w. (
    ok "answer",
    record { save_file = s.0; commit = s.1; message = m; answer = ok "answer" } ∷ w,
  );
  invoke_contract_op = λ op c s kwargs. op s;
  invoke_contract_cmd = λ cmd c kwargs. cmd c kwargs;
  op_get_verifying_key = λ s w. (ok "key", w);
  json_loads = λ text. ok (str text);
  find_file_in_path = λ name w. ok name;
  read_file = λ name w. ok "pem";
  to_int = λ j. ok j;
  format_value = λ j. "user";
  identity = λ w. str "alice";
}

pub same_file : (s s' : String × Bool) → ok s ≡ ok s' → s'.0 ≡ s.0
same_file s s' h = cc

abbrev pub toy_client-IsLawful : IsLawful toy_client
toy_client-IsLawful = record {
  sent = λ w. w;
  save_file = λ s. s.0;
  commit = λ s. s.1;
  save_file-session = λ f. refl;
  save_file-set = λ b s. refl;
  commit-set = λ b s. refl;
  sent-send = λ m s w. refl;
  effective = λ c s kwargs w. ok s;
  effective_file = λ c s s' kwargs w h. same_file s s' h;
  invoked = λ op c s kwargs w. refl;
  sent-create = λ c contract_class kwargs w. refl;
  sent-set = λ c k j w. refl;
  key_committed = λ s w. refl;
}

-- The claim carries the answer of the order's contract.
claim_sends : cmd_claim_offer toy_client "order" [] [] ≡ (
  ok "order.pdo",
  message_to toy_client toy_client-IsLawful "offer.issuer_context.pdo" true "claim"
        (("claim_request", str "answer") ∷ [])
        (ok "answer")
      ∷ message_to toy_client toy_client-IsLawful "order.pdo" false "claim_offered_asset" []
          (ok "answer")
      ∷ [],
)
unfolding cmd_claim_offer op_claim_offered_asset op_claim string_eq
claim_sends = refl

cmd_claim_offer-Claims_example :
    Claims toy_client toy_client-IsLawful "order" [] [] "offer.issuer_context" "claim_offered_asset"
      (cmd_claim_offer toy_client "order" [] [])
cmd_claim_offer-Claims_example = cmd_claim_offer-Claims toy_client toy_client-IsLawful "order" [] []

cmd_cancel_order-Cancels_example :
    Cancels toy_client toy_client-IsLawful "order" [] (cmd_cancel_order toy_client "order" [] [])
cmd_cancel_order-Cancels_example =
    cmd_cancel_order-Cancels toy_client toy_client-IsLawful "order" [] []

cmd_match_order-Matches_example :
    Matches toy_client toy_client-IsLawful "order" [] none
      (some (num "3"))
      (cmd_match_order toy_client "order" none (some (num "3")) [] [])
cmd_match_order-Matches_example =
    cmd_match_order-Matches toy_client toy_client-IsLawful "order" [] none (some (num "3")) []

abbrev five_marbles : OrderArguments
five_marbles = record {
  offer_issuer = some "marbles";
  offer_count = some (num "5");
  request_issuer = none;
  request_user = some "bob";
  request_count = none;
}

cmd_claim_payment-Claims_example :
    Claims toy_client toy_client-IsLawful "order" [] [] "request.issuer_context"
      "claim_exchanged_asset"
      (cmd_claim_payment toy_client "order" [] [])
cmd_claim_payment-Claims_example =
    cmd_claim_payment-Claims toy_client toy_client-IsLawful "order" [] []

cmd_initialize_issuer-Initializes_example :
    let (r, w') = cmd_initialize_issuer toy_client "issuer" [] in
    Initializes toy_client toy_client-IsLawful "issuer" [] r w'
cmd_initialize_issuer-Initializes_example =
    cmd_initialize_issuer-Initializes toy_client toy_client-IsLawful "issuer" []

cmd_transfer_assets-Transferable_example :
    let (r, w') = cmd_transfer_assets toy_client "token" (str "bob") (("count", num "1") ∷ []) [] in
    ((e : Exn) × (r ≡ err e) × (w' ≡ []))
    ⊎ ((file : String) × (key : Json) × (answer : Result String) × Transferable toy_client
          toy_client-IsLawful "token"
          (str "bob")
          (("count", num "1") ∷ [])
          []
          file
          key
        × (w'
            ≡ message_to toy_client toy_client-IsLawful file true "transfer"
                (("new_owner_identity", key) ∷ ("count", num "1") ∷ [])
                answer
              ∷ []))
cmd_transfer_assets-Transferable_example =
    cmd_transfer_assets-Transferable toy_client toy_client-IsLawful "token" (str "bob")
      (("count", num "1") ∷ []) []
