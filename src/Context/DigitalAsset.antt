-- ===== src/Context/DigitalAsset.antt =====
-- The templates of digital assets (digital-asset-contract/pdo/digital_asset/jupyter/context.py).
use pdo_contracts.Base.{String, List, [], ◌∷◌}
use pdo_contracts.Base.Json.{Json, str, num, dict}
use pdo_contracts.Context.{Contexts, ContextTemplate, initialize_context}
use pdo_contracts.Context.Exchange.{asset_type_context, vetting_context, token_issuer_context}

abbrev pub guardian_context : ContextTemplate
guardian_context = record {
  key = "guardian";
  template = dict (
      ("module", str "pdo.digital_asset.plugins.guardian")
      ∷ ("identity", str "${..token_issuer.identity}")
      ∷ ("source", str "${ContractFamily.DigitalAsset.data_guardian.source}")
      ∷ ("token_issuer_context", str "@{..token_issuer}")
      ∷ ("eservice_group", str "${..eservice_group}")
      ∷ ("pservice_group", str "${..pservice_group}")
      ∷ ("sservice_group", str "${..sservice_group}")
      ∷ ("image_file", str "${image_file}")
      ∷ ("image_border", num "1")
      ∷ []);
}

abbrev pub token_object_context : ContextTemplate
token_object_context = record {
  key = "token_object";
  template = dict (
      ("module", str "pdo.digital_asset.plugins.token_object")
      ∷ ("identity", str "${..token_issuer.identity}")
      ∷ ("source", str "${ContractFamily.DigitalAsset.token_object.source}")
      ∷ ("token_issuer_context", str "@{..token_issuer}")
      ∷ ("data_guardian_context", str "@{..guardian}")
      ∷ ("eservice_group", str "${..eservice_group}")
      ∷ ("pservice_group", str "${..pservice_group}")
      ∷ ("sservice_group", str "${..sservice_group}")
      ∷ []);
}

abbrev pub token_contexts : List ContextTemplate
token_contexts =
    asset_type_context ∷ vetting_context ∷ guardian_context ∷ token_issuer_context
    ∷ token_object_context ∷ []

unfoldable pub initialize_token_context :
    (K : Contexts)
    → List (String × String)
    → String
    → String
    → List (String × Json)
    → K.State
    → K.State
initialize_token_context K bindings context_file prefix =
    initialize_context K bindings context_file prefix token_contexts
