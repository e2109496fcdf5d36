-- ===== src/Tests/Contexts.antt =====
-- Contexts that are one dictionary, and their initialization.
use pdo_contracts.Base.{
  String, ◌≡◌, refl, arith, ◌==◌, string_eq, Bool, true, false, Option, none, some, [], ◌∷◌,
}
use pdo_contracts.Base.Dict.{Dict, lookup, insert, lookup-insert}
use pdo_contracts.Base.Exec.{ok}
use pdo_contracts.Base.Json.{Json, null, str}
use pdo_contracts.Context.{Contexts}
use pdo_contracts.Context.Exchange.{
  asset_type_context, vetting_context, guardian_context, token_issuer_context, token_object_context,
  initialize_token_context,
}
use pdo_contracts.Context.Templates.{initialize_context-installs}
use pdo_contracts.Context.Bindings.{IsLawful}

abbrev present : Option Json → Bool
present none = false
present (some j) = true

abbrev value_of : Option Json → Json
value_of none = null
value_of (some j) = j

abbrev toy_contexts : Contexts
toy_contexts = record {
  State = Dict String Json;
  load_context_file = λ bindings file prefix s. (ok tt, s);
  has_key = λ prefix k s. present (lookup k s);
  set = λ prefix k v s. insert k v s;
}

held-insert :
    (k : String) (v : Json) (s : Dict String Json) → value_of (lookup k (insert k v s)) ≡ v
held-insert k v s = ground (arith, lookup-insert k k v s)

held-insert_apart :
    (j k : String) (v : Json) (s : Dict String Json)
    → (j == k) ≡ false
    → value_of (lookup j (insert k v s)) ≡ value_of (lookup j s)
held-insert_apart j k v s h = ground (arith, lookup-insert j k v s)

present-insert :
    (k : String) (v : Json) (s : Dict String Json) → present (lookup k (insert k v s)) ≡ true
present-insert k v s = ground (arith, lookup-insert k k v s)

present-insert_apart :
    (j k : String) (v : Json) (s : Dict String Json)
    → (j == k) ≡ false
    → present (lookup j (insert k v s)) ≡ present (lookup j s)
present-insert_apart j k v s h = ground (arith, lookup-insert j k v s)

abbrev toy_contexts-IsLawful : IsLawful toy_contexts
toy_contexts-IsLawful = record {
  IsApart = λ j k. (j == k) ≡ false;
  held = λ prefix k s. value_of (lookup k s);
  held-set = λ prefix. held-insert;
  held-set_apart = λ prefix. held-insert_apart;
  has_key-set = λ prefix. present-insert;
  has_key-set_apart = λ prefix. present-insert_apart;
}

initialize_context-installs_example :
    value_of (
      lookup "token_issuer" (
        initialize_token_context toy_contexts [] "context.toml" "ctx"
          (("identity", str "bob") ∷ [])
          []))
    ≡ token_issuer_context.template
unfolding string_eq initialize_token_context lookup
initialize_context-installs_example =
    initialize_context-installs toy_contexts toy_contexts-IsLawful [] "context.toml" "ctx"
      token_issuer_context (asset_type_context ∷ vetting_context ∷ guardian_context ∷ [])
      (token_object_context ∷ []) (("identity", str "bob") ∷ []) [] refl (refl, tt) refl (refl, tt)
