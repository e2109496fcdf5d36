-- ===== src/Plugins/Exchange/Order.antt =====
-- `cmd_create_order` (exchange-contract/pdo/exchange/plugins/exchange.py).
pub mod Creation
use pdo_contracts.Base.{
  String, Bool, true, false, if◌then◌else◌, ◌==◌, string_eq, Option, none, some, [],
}
use pdo_contracts.Base.Exec.{Action, Result, ok, err, other, lift, pure, gets, ◌>>=◌, ◌▷◌}
use pdo_contracts.Base.Json.{Json, null, num, str, is_null}
use pdo_contracts.Plugins.Client.{
  Client, Kwargs, invoke_json, find_contract_or_none, with_identity, public_key,
}
use pdo_contracts.Plugins.AssetType.{op_get_asset_type_identifier, create, existing}
use pdo_contracts.Plugins.Issuer.{op_escrow}
use pdo_contracts.Plugins.Exchange.{op_initialize}

-- The arguments of the command.
pub record OrderArguments : Type 0 where
  pub offer_issuer : Option String
  pub offer_count : Option Json
  pub request_issuer : Option String
  pub request_user : Option String
  pub request_count : Option Json

module _ (K : Client) where
  abbrev is_given : Option String → Bool
  is_given none = false
  is_given (some s) = if s == "" then false else true

  abbrev some_context : String → K.Context → Result K.Context
  some_context message c = elim (K.is_none c) [ true ↦ err (other message) | false ↦ ok c ]

  abbrev path_of : Option String → String
  path_of none = ""
  path_of (some s) = s

  abbrev request_issuer_context : K.Context → Option String → K.World → Result K.Context
  request_issuer_context context issuer w = elim (is_given issuer) [
    | true ↦
        some_context "missing required parameter request_issuer" (K.open_context (path_of issuer))
    | false ↦ elim (K.has_key context "request.issuer_context" w) [
      | true ↦
          K.get_context context "request.issuer_context" w
          ▷ some_context "missing required parameter request_issuer"
      | false ↦ err (other "missing required parameter request_issuer")
    ]
  ]

  abbrev offer_issuer_context : K.Context → Option String → K.World → Result K.Context
  offer_issuer_context context issuer w = elim (is_given issuer) [
    | true ↦ ok (K.open_context (path_of issuer))
    | false ↦
        K.get_context context "offer.issuer_context" w
        ▷ some_context "missing required parameter offer_issuer"
  ]

  -- `request_user or context.get('request.user_identity')`, and that user's key
  abbrev user_identity : K.Context → Option String → K.World → Json
  user_identity context user w = elim (is_given user) [
    | true ↦ str (path_of user)
    | false ↦ K.context_get context "request.user_identity" null w
  ]

  abbrev user_verifying_key : Json → K.World → Result Json
  user_verifying_key user w = elim (is_null user) [
    | true ↦ ok (str "")
    | false ↦ public_key K user w
  ]

  -- `int(count) if count is not None else int(context.get(k, 1))`
  abbrev count_or_one : K.Context → String → Option Json → K.World → Result Json
  count_or_one context k none w = K.to_int (K.context_get context k (num "1") w)
  count_or_one context k (some count) w = K.to_int count

  abbrev must_be_new : Option String → Result (Unit {0})
  must_be_new save_file = elim (is_given save_file) [
    | true ↦ err (other "exchange contract already exists")
    | false ↦ ok tt
  ]

  -- What the command has found when it is about to escrow the offer.
  pub record Prepared : Type 0 where
    pub request_issuer_verifying_key : Json
    pub asset_type_contract_id : Json
    pub user_key : Json
    pub request_amount : Json
    pub offer_context : K.Context
    pub offer_issuer_save_file : String
    pub offer_amount : Json
    pub save_file : String
    pub verifying_key : Json

  unfoldable pub prepare_order : K.Context → OrderArguments → Kwargs → Action K.World Prepared
  prepare_order context arguments kwargs = do
    request_context ← λ w. lift (request_issuer_context context arguments.request_issuer w) w
    request_issuer_save_file ← λ w.
        lift
          (find_contract_or_none K "request issuer contract has not been created or is unknown"
            request_context w)
          w
    request_issuer_verifying_key ←
        invoke_json K K.op_get_verifying_key request_context
          (K.session_parameters request_issuer_save_file) kwargs
    asset_type_contract_id ←
        invoke_json K (op_get_asset_type_identifier K) request_context
          (K.session_parameters request_issuer_save_file) kwargs
    user ← gets (user_identity context arguments.request_user)
    user_key ← λ w. lift (user_verifying_key user w) w
    request_amount ← λ w. lift (count_or_one context "request.count" arguments.request_count w) w
    offer_context ← λ w. lift (offer_issuer_context context arguments.offer_issuer w) w
    offer_issuer_save_file ←
        λ w. lift (find_contract_or_none K "issuer contract has not been created" offer_context w) w
    offer_amount ← λ w. lift (count_or_one context "offer.count" arguments.offer_count w) w
    found ← λ w. lift (K.get_contract_from_context context w) w
    _ ← lift (must_be_new found)
    save_file ← create K context "exchange_contract" kwargs
    verifying_key ← invoke_json K K.op_get_verifying_key context (K.session_parameters save_file) []
    pure (record {
      request_issuer_verifying_key = request_issuer_verifying_key;
      asset_type_contract_id = asset_type_contract_id;
      user_key = user_key;
      request_amount = request_amount;
      offer_context = offer_context;
      offer_issuer_save_file = offer_issuer_save_file;
      offer_amount = offer_amount;
      save_file = save_file;
      verifying_key = verifying_key;
    })

  unfoldable pub cmd_create_order : K.Context → OrderArguments → Kwargs → Action K.World String
  cmd_create_order context arguments given_kwargs = do
    kwargs ← gets (with_identity K given_kwargs)
    p ← prepare_order context arguments kwargs
    escrow_attestation ←
        invoke_json K (op_escrow K p.verifying_key p.offer_amount) p.offer_context
          (K.session_parameters p.offer_issuer_save_file) kwargs
    _ ←
        K.invoke_contract_op
          (op_initialize K escrow_attestation p.request_issuer_verifying_key
            p.asset_type_contract_id p.user_key p.request_amount)
          context (K.session_parameters p.save_file) kwargs
    pure p.save_file
