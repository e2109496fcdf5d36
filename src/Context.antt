-- ===== src/Context.antt =====
-- Context templates (common-contract/pdo/contracts/common.py), over the contexts of pdo.client.builder.
pub mod Bindings
pub mod Exchange
pub mod DigitalAsset
pub mod Inference
pub mod Counter
pub mod Templates
use pdo_contracts.Base.{String, Bool, true, false, List, [], ◌∷◌, ◌++◌}
use pdo_contracts.Base.Exec.{Result, ok, err}
use pdo_contracts.Base.Json.{Json, null, str, bool}

-- The contexts of a state, by their prefix.
pub record Contexts : Type 1 where
  pub State : Type 0
  -- `Context.LoadContextFile` with its bindings and prefix: what it has done when it returns or raises
  pub load_context_file :
      List (String × String) → String → String → State → Result (Unit {0}) × State
  pub has_key : String → String → State → Bool
  pub set : String → String → Json → State → State

-- A key and the template that `__init__` has copied.
pub record ContextTemplate : Type 0 where
  pub key : String
  pub template : Json

abbrev pub base_context : List (String × Json)
base_context =
    ("identity", null)
    ∷ ("service_group", str "default")
    ∷ ("eservice_group", str "${.service_group}")
    ∷ ("pservice_group", str "${.service_group}")
    ∷ ("sservice_group", str "${.service_group}")
    ∷ []

module _ (K : Contexts) where
  -- `for (k, v) in items : context.set(k, v)`
  unfoldable pub set_all : String → List (String × Json) → K.State → K.State
  set_all prefix [] s = s
  set_all prefix ((k, v) ∷ items) s = set_all prefix items (K.set prefix k v s)

  unfoldable pub set_templates : String → List ContextTemplate → K.State → K.State
  set_templates prefix [] s = s
  set_templates prefix (c ∷ contexts) s =
      set_templates prefix contexts (K.set prefix c.key c.template s)

  -- What is set in a context that is not initialized.
  unfoldable pub fill_context : String → List ContextTemplate → K.State → K.State
  fill_context prefix contexts s =
      K.set prefix "initialized" (bool true)
        (set_templates prefix contexts (set_all prefix base_context s))

  -- A failure to load is a warning. The context that is returned is that of the prefix.
  unfoldable pub initialize_context :
      List (String × String)
      → String
      → String
      → List ContextTemplate
      → List (String × Json)
      → K.State
      → K.State
  initialize_context bindings context_file prefix contexts kwargs s =
      let loaded = (K.load_context_file bindings context_file prefix s).1 in
      set_all prefix kwargs (elim (K.has_key prefix "initialized" loaded) [
        | true ↦ loaded
        | false ↦ fill_context prefix contexts loaded
      ])
