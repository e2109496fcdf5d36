-- ===== src/Context/Bindings.antt =====
-- What a context holds after its initialization.
use pdo_contracts.Base.{String, ◌≡◌, true, arith, List, [], ◌∷◌, ◌++◌, refl, ◌∙◌}
use pdo_contracts.Base.Json.{Json}
use pdo_contracts.Context.{Contexts, ContextTemplate, set_all, fill_context, initialize_context}

-- What the code relies on. A key may be a path into a context, so that two keys are apart only where
-- neither leads into the other's value.
pub record IsLawful (K : Contexts) : Type 1 where
  pub IsApart : String → String → Type 0
  -- The value that a context holds for a key, before the references in it are expanded.
  pub held : String → String → K.State → Json
  pub held-set : (p k : String) (v : Json) (s : K.State) → held p k (K.set p k v s) ≡ v
  pub held-set_apart :
      (p j k : String) (v : Json) (s : K.State)
      → IsApart j k
      → held p j (K.set p k v s) ≡ held p j s
  pub has_key-set : (p k : String) (v : Json) (s : K.State) → K.has_key p k (K.set p k v s) ≡ true
  pub has_key-set_apart :
      (p j k : String) (v : Json) (s : K.State)
      → IsApart j k
      → K.has_key p j (K.set p k v s) ≡ K.has_key p j s

module _ (K : Contexts) (L : IsLawful K) where
  -- A key that is apart from all keys of a list.
  abbrev pub IsApartFrom : String → List (String × Json) → Type 0
  IsApartFrom j [] = Unit
  IsApartFrom j ((k, _) ∷ items) = L.IsApart j k × IsApartFrom j items

  pub held-set_all_apart :
      (p j : String) (items : List (String × Json)) (s : K.State)
      → IsApartFrom j items
      → L.held p j (set_all K p items s) ≡ L.held p j s
  unfolding set_all
  held-set_all_apart p j [] s h = refl
  held-set_all_apart p j ((k, v) ∷ items) s h =
      held-set_all_apart p j items (K.set p k v s) h.1 ∙ L.held-set_apart p j k v s h.0

  has_key-set_all_apart :
      (p j : String) (items : List (String × Json)) (s : K.State)
      → IsApartFrom j items
      → K.has_key p j (set_all K p items s) ≡ K.has_key p j s
  unfolding set_all
  has_key-set_all_apart p j [] s h = refl
  has_key-set_all_apart p j ((k, v) ∷ items) s h =
      has_key-set_all_apart p j items (K.set p k v s) h.1 ∙ L.has_key-set_apart p j k v s h.0

  held-set_all :
      (p k : String) (v : Json) (before after : List (String × Json)) (s : K.State)
      → IsApartFrom k after
      → L.held p k (set_all K p (before ++ (k, v) ∷ after) s) ≡ v
  unfolding set_all
  held-set_all p k v [] after s h =
      held-set_all_apart p k after (K.set p k v s) h ∙ L.held-set p k v s
  held-set_all p k v ((j, u) ∷ before) after s h = held-set_all p k v before after (K.set p j u s) h

  module _ (bindings : List (String × String)) (context_file p : String)
      (contexts : List ContextTemplate) where
    initialize_context-initialized :
        (kwargs : List (String × Json)) (s : K.State)
        → IsApartFrom "initialized" kwargs
        → K.has_key p "initialized" (initialize_context K bindings context_file p contexts kwargs s)
          ≡ true
    unfolding initialize_context fill_context
    initialize_context-initialized kwargs s apart =
        has_key-set_all_apart p "initialized" kwargs _ apart ∙ grind (arith, L.has_key-set)

    -- Whether the context was initialized or not, and whether its file could be loaded or not, it has
    -- afterwards the value of each further argument, if no later one is a path into it or above it.
    initialize_context-binds :
        (k : String) (v : Json) (before after : List (String × Json)) (s : K.State)
        → IsApartFrom k after
        → L.held p k
            (initialize_context K bindings context_file p contexts (before ++ (k, v) ∷ after) s)
          ≡ v
    unfolding initialize_context
    initialize_context-binds k v before after s h = held-set_all p k v before after _ h

    -- Once a context is initialized a second initialization, even with other templates, changes no
    -- key that is apart from its further arguments, if loading the file again changes nothing.
    initialize_context-keeps :
        (others : List ContextTemplate) (first second : List (String × Json)) (s : K.State)
        (j : String)
        → let initialized = initialize_context K bindings context_file p contexts first s in
          IsApartFrom "initialized" first
          → IsApartFrom j second
          → (K.load_context_file bindings context_file p initialized).1 ≡ initialized
          → L.held p j (initialize_context K bindings context_file p others second initialized)
            ≡ L.held p j initialized
    unfolding initialize_context
    initialize_context-keeps others first second s j first_apart apart loaded =
        held-set_all_apart p j second _ apart
        ∙ ground (arith, loaded, initialize_context-initialized first s first_apart)
