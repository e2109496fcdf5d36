-- ===== src/Context/Inference.antt =====
-- The templates of inference tokens (inference-contract/pdo/inference/jupyter.py).
use pdo_contracts.Base.{String, true, List, [], ◌∷◌}
use pdo_contracts.Base.Json.{Json, str, dict, bool}
use pdo_contracts.Context.{Contexts, ContextTemplate, initialize_context}
use pdo_contracts.Context.Exchange.{asset_type_context, vetting_context, token_issuer_context}

abbrev pub guardian_context : ContextTemplate
guardian_context = record {
  key = "guardian";
  template = dict (
      ("module", str "pdo.contracts.guardian.plugins.guardian_service")
      ∷ ("identity", str "${..token_issuer.identity}")
      ∷ ("token_issuer_context", str "@{..token_issuer}")
      ∷ ("service_only", bool true)
      ∷ ("url", str "http://localhost:7900")
      ∷ []);
}

abbrev pub token_object_context : ContextTemplate
token_object_context = record {
  key = "token_object";
  template = dict (
      ("module", str "pdo.inference.plugins.inference_token_object")
      ∷ ("identity", str "${..token_issuer.identity}")
      ∷ ("source", str "${ContractFamily.inference.token_object.source}")
      ∷ ("token_issuer_context", str "@{..token_issuer}")
      ∷ ("data_guardian_context", str "@{..guardian}")
      ∷ ("eservice_group", str "${..eservice_group}")
      ∷ ("pservice_group", str "${..pservice_group}")
      ∷ ("sservice_group", str "${..sservice_group}")
      ∷ []);
}

abbrev pub token_contexts : List ContextTemplate
token_contexts =
    asset_type_context ∷ vetting_context ∷ guardian_context ∷ token_issuer_context
    ∷ token_object_context ∷ []

unfoldable pub initialize_token_context :
    (K : Contexts)
    → List (String × String)
    → String
    → String
    → List (String × Json)
    → K.State
    → K.State
initialize_token_context K bindings context_file prefix =
    initialize_context K bindings context_file prefix token_contexts
