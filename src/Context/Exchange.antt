-- ===== src/Context/Exchange.antt =====
-- The templates of exchanges and tokens (exchange-contract/pdo/exchange/jupyter/context.py).
use pdo_contracts.Base.{String, List, [], ◌∷◌}
use pdo_contracts.Base.Json.{Json, str, num, dict}
use pdo_contracts.Context.{Contexts, ContextTemplate, initialize_context}

abbrev pub asset_type_context : ContextTemplate
asset_type_context = record {
  key = "asset_type";
  template = dict (
      ("module", str "pdo.exchange.plugins.asset_type")
      ∷ ("identity", str "${..identity}")
      ∷ ("source", str "${ContractFamily.Exchange.asset_type.source}")
      ∷ ("name", str "asset_type")
      ∷ ("description", str "asset type")
      ∷ ("link", str "http://")
      ∷ ("eservice_group", str "${..eservice_group}")
      ∷ ("pservice_group", str "${..pservice_group}")
      ∷ ("sservice_group", str "${..sservice_group}")
      ∷ []);
}

abbrev pub vetting_context : ContextTemplate
vetting_context = record {
  key = "vetting";
  template = dict (
      ("module", str "pdo.exchange.plugins.vetting")
      ∷ ("identity", str "${..identity}")
      ∷ ("source", str "${ContractFamily.Exchange.vetting.source}")
      ∷ ("asset_type_context", str "@{..asset_type}")
      ∷ ("eservice_group", str "${..eservice_group}")
      ∷ ("pservice_group", str "${..pservice_group}")
      ∷ ("sservice_group", str "${..sservice_group}")
      ∷ []);
}

abbrev pub issuer_context : ContextTemplate
issuer_context = record {
  key = "issuer";
  template = dict (
      ("module", str "pdo.exchange.plugins.issuer")
      ∷ ("identity", str "${..identity}")
      ∷ ("source", str "${ContractFamily.Exchange.issuer.source}")
      ∷ ("asset_type_context", str "@{..asset_type}")
      ∷ ("vetting_context", str "@{..vetting}")
      ∷ ("eservice_group", str "${..eservice_group}")
      ∷ ("pservice_group", str "${..pservice_group}")
      ∷ ("sservice_group", str "${..sservice_group}")
      ∷ []);
}

abbrev pub guardian_context : ContextTemplate
guardian_context = record {
  key = "guardian";
  template = dict (
      ("module", str "pdo.exchange.plugins.guardian")
      ∷ ("identity", str "${..token_issuer.identity}")
      ∷ ("source", str "${ContractFamily.Exchange.data_guardian.source}")
      ∷ ("token_issuer_context", str "@{..token_issuer}")
      ∷ ("eservice_group", str "${..eservice_group}")
      ∷ ("pservice_group", str "${..pservice_group}")
      ∷ ("sservice_group", str "${..sservice_group}")
      ∷ []);
}

abbrev pub token_issuer_context : ContextTemplate
token_issuer_context = record {
  key = "token_issuer";
  template = dict (
      ("module", str "pdo.exchange.plugins.token_issuer")
      ∷ ("identity", str "${..identity}")
      ∷ ("source", str "${ContractFamily.Exchange.token_issuer.source}")
      ∷ ("token_object_context", str "@{..token_object}")
      ∷ ("vetting_context", str "@{..vetting}")
      ∷ ("guardian_context", str "@{..guardian}")
      ∷ ("description", str "issuer for token")
      ∷ ("token_metadata", dict (("opaque", str "") ∷ []))
      ∷ ("count", num "10")
      ∷ ("eservice_group", str "${..eservice_group}")
      ∷ ("pservice_group", str "${..pservice_group}")
      ∷ ("sservice_group", str "${..sservice_group}")
      ∷ []);
}

abbrev pub token_object_context : ContextTemplate
token_object_context = record {
  key = "token_object";
  template = dict (
      ("module", str "pdo.exchange.plugins.token_object")
      ∷ ("identity", str "${..token_issuer.identity}")
      ∷ ("source", str "${ContractFamily.Exchange.token_object.source}")
      ∷ ("token_issuer_context", str "@{..token_issuer}")
      ∷ ("data_guardian_context", str "@{..guardian}")
      ∷ ("eservice_group", str "${..eservice_group}")
      ∷ ("pservice_group", str "${..pservice_group}")
      ∷ ("sservice_group", str "${..sservice_group}")
      ∷ []);
}

abbrev pub order_context : ContextTemplate
order_context = record {
  key = "exchange";
  template = dict (
      ("module", str "pdo.exchange.plugins.exchange")
      ∷ ("identity", str "${..identity}")
      ∷ ("source", str "${ContractFamily.Exchange.exchange.source}")
      ∷ ("offer", dict (("issuer_context", str "@{...offer.issuer}") ∷ ("count", num "1") ∷ []))
      ∷ ("request", dict (("issuer_context", str "@{...request.issuer}") ∷ ("count", num "1") ∷ []))
      ∷ ("eservice_group", str "${..eservice_group}")
      ∷ ("pservice_group", str "${..pservice_group}")
      ∷ ("sservice_group", str "${..sservice_group}")
      ∷ []);
}

abbrev pub asset_contexts : List ContextTemplate
asset_contexts = asset_type_context ∷ vetting_context ∷ issuer_context ∷ []

unfoldable pub initialize_asset_context :
    (K : Contexts)
    → List (String × String)
    → String
    → String
    → List (String × Json)
    → K.State
    → K.State
initialize_asset_context K bindings context_file prefix =
    initialize_context K bindings context_file prefix asset_contexts

abbrev pub token_contexts : List ContextTemplate
token_contexts =
    asset_type_context ∷ vetting_context ∷ guardian_context ∷ token_issuer_context
    ∷ token_object_context ∷ []

unfoldable pub initialize_token_context :
    (K : Contexts)
    → List (String × String)
    → String
    → String
    → List (String × Json)
    → K.State
    → K.State
initialize_token_context K bindings context_file prefix =
    initialize_context K bindings context_file prefix token_contexts

abbrev pub order_contexts : List ContextTemplate
order_contexts = order_context ∷ []

unfoldable pub initialize_order_context :
    (K : Contexts)
    → List (String × String)
    → String
    → String
    → List (String × Json)
    → K.State
    → K.State
initialize_order_context K bindings context_file prefix =
    initialize_context K bindings context_file prefix order_contexts
