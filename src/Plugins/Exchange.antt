-- ===== src/Plugins/Exchange.antt =====
-- Exchanges (exchange-contract/pdo/exchange/plugins/exchange.py).
pub mod Transfers
pub mod Escrow
pub mod Order
use pdo_contracts.Base.{
  String, true, false, if◌then◌else◌, ◌==◌, string_eq, Option, none, some, [], ◌∷◌,
}
use pdo_contracts.Base.Exec.{Action, Result, ok, lift, pure, gets, ◌>>=◌}
use pdo_contracts.Base.Json.{Json, dict}
use pdo_contracts.Plugins.Client.{
  Client, Kwargs, transact, invoke_json, find_contract, find_contract_or_none, with_identity,
}
use pdo_contracts.Plugins.Issuer.{op_escrow, op_release, op_claim}

module _ (K : Client) where
  unfoldable pub op_initialize :
      Json → Json → Json → Json → Json → K.Session → Action K.World String
  op_initialize asset issuer type_id owner count =
      let asset_request = dict (
        ("issuer_verifying_key", issuer)
        ∷ ("asset_type_identifier", type_id)
        ∷ ("count", count)
        ∷ ("owner_identity", owner)
        ∷ []) in
      transact K "initialize"
        (("asset_request", asset_request) ∷ ("offered_authoritative_asset", asset) ∷ []) true

  unfoldable pub op_cancel_exchange : K.Session → Action K.World String
  op_cancel_exchange session = do
    _ ← transact K "cancel_exchange" [] true session
    transact K "cancel_exchange_attestation" [] false session

  unfoldable pub op_examine_offered_asset : K.Session → Action K.World String
  op_examine_offered_asset = transact K "examine_offered_asset" [] false

  unfoldable pub op_examine_requested_asset : K.Session → Action K.World String
  op_examine_requested_asset = transact K "examine_requested_asset" [] false

  unfoldable pub op_exchange : Json → K.Session → Action K.World String
  op_exchange asset =
      transact K "exchange_asset" (("exchanged_authoritative_asset", asset) ∷ []) true

  unfoldable pub op_claim_offered_asset : K.Session → Action K.World String
  op_claim_offered_asset = transact K "claim_offered_asset" [] false

  unfoldable pub op_claim_exchanged_asset : K.Session → Action K.World String
  op_claim_exchanged_asset = transact K "claim_exchanged_asset" [] false

  abbrev pub order_contract : K.Context → K.World → Result String
  order_contract = find_contract K "order contract must be created and initialized"

  abbrev pub order_file : K.Context → Action K.World String
  order_file context w = lift (order_contract context w) w

  -- `if issuer : Context(state, issuer) else : context.get_context('request.issuer_context')`
  abbrev pub issuer_of : K.Context → Option String → K.World → Result K.Context
  issuer_of context none w = K.get_context context "request.issuer_context" w
  issuer_of context (some issuer) w =
      if issuer == ""
      then K.get_context context "request.issuer_context" w
      else ok (K.open_context issuer)

  -- `int(count) if count is not None else context['request.count']`
  abbrev pub count_of : K.Context → Option Json → K.World → Result Json
  count_of context none w = K.context_item context "request.count" w
  count_of context (some count) w = K.to_int count

  unfoldable pub cmd_match_order :
      K.Context → Option String → Option Json → Kwargs → Action K.World String
  cmd_match_order context issuer given_count kwargs = do
    save_file ← order_file context
    issuer_context ← λ w. lift (issuer_of context issuer w) w
    issuer_save_file ←
        λ w. lift (find_contract_or_none K "unable to locate issuer contract" issuer_context w) w
    count ← λ w. lift (count_of context given_count w) w
    verifying_key ← invoke_json K K.op_get_verifying_key context (K.session_parameters save_file) []
    escrow_attestation ←
        invoke_json K (op_escrow K verifying_key count) issuer_context
          (K.session_parameters issuer_save_file) kwargs
    _ ←
        K.invoke_contract_op (op_exchange escrow_attestation) context
          (K.session_parameters save_file) kwargs
    pure save_file

  unfoldable pub cmd_claim_offer : K.Context → Kwargs → Action K.World String
  cmd_claim_offer context given_kwargs = do
    kwargs ← gets (with_identity K given_kwargs)
    save_file ← order_file context
    offer_issuer_context ← λ w. lift (K.get_context context "offer.issuer_context" w) w
    offer_issuer_save_file ← λ w.
        lift (find_contract_or_none K "issuer contract has not been created" offer_issuer_context w)
          w
    offered_asset_claim ←
        invoke_json K op_claim_offered_asset context (K.session_parameters save_file) kwargs
    _ ←
        K.invoke_contract_op (op_claim K offered_asset_claim) offer_issuer_context
          (K.session_parameters offer_issuer_save_file) kwargs
    pure save_file

  unfoldable pub cmd_claim_payment : K.Context → Kwargs → Action K.World String
  cmd_claim_payment context given_kwargs = do
    kwargs ← gets (with_identity K given_kwargs)
    save_file ← order_file context
    request_issuer_context ← λ w. lift (K.get_context context "request.issuer_context" w) w
    request_issuer_save_file ← λ w.
        lift
          (find_contract_or_none K "issuer contract has not been created" request_issuer_context w)
          w
    requested_asset_claim ←
        invoke_json K op_claim_exchanged_asset context (K.session_parameters save_file) kwargs
    _ ←
        K.invoke_contract_op (op_claim K requested_asset_claim) request_issuer_context
          (K.session_parameters request_issuer_save_file) kwargs
    pure save_file

  -- The release is invoked with the context of the exchange and the session of the issuer.
  unfoldable pub cmd_cancel_order : K.Context → Kwargs → Action K.World String
  cmd_cancel_order context kwargs = do
    issuer_context ← λ w. lift (K.get_context context "offer.issuer_context" w) w
    issuer_save_file ←
        λ w. lift (find_contract K "failed to find the issuer contract" issuer_context w) w
    save_file ← order_file context
    escrow_release_attestation ←
        invoke_json K op_cancel_exchange context (K.session_parameters save_file) kwargs
    _ ←
        K.invoke_contract_op (op_release K escrow_release_attestation) context
          (K.session_parameters issuer_save_file) kwargs
    pure save_file

  -- The two texts that are displayed.
  unfoldable pub cmd_examine_order : K.Context → Kwargs → Action K.World (Json × Json)
  cmd_examine_order context kwargs = do
    save_file ← order_file context
    offered_asset ←
        invoke_json K op_examine_offered_asset context (K.session_parameters save_file) kwargs
    requested_asset ←
        invoke_json K op_examine_requested_asset context (K.session_parameters save_file) kwargs
    pure (offered_asset, requested_asset)
