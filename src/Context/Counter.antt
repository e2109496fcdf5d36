-- ===== src/Context/Counter.antt =====
-- The template of counters (example-contract/pdo/example/jupyter/context.py).
use pdo_contracts.Base.{String, List, [], ◌∷◌}
use pdo_contracts.Base.Json.{Json, str, dict}
use pdo_contracts.Context.{Contexts, ContextTemplate, initialize_context}

abbrev pub counter_context : ContextTemplate
counter_context = record {
  key = "counter";
  template = dict (
      ("module", str "pdo.example.plugins.counter")
      ∷ ("identity", str "${..identity}")
      ∷ ("source", str "${ContractFamily.Example.counter.source}")
      ∷ ("eservice_group", str "${..eservice_group}")
      ∷ ("pservice_group", str "${..pservice_group}")
      ∷ ("sservice_group", str "${..sservice_group}")
      ∷ []);
}

unfoldable pub initialize_counter_context :
    (K : Contexts)
    → List (String × String)
    → String
    → String
    → List (String × Json)
    → K.State
    → K.State
initialize_counter_context K bindings context_file prefix =
    initialize_context K bindings context_file prefix (counter_context ∷ [])
