-- ===== src/Context/Templates.antt =====
-- The templates that a new context gets.
use pdo_contracts.Base.{String, ◌≡◌, refl, ◌∙◌, true, false, List, [], ◌∷◌, ◌++◌}
use pdo_contracts.Base.Json.{Json, bool}
use pdo_contracts.Context.{
  Contexts, ContextTemplate, set_templates, fill_context, initialize_context,
}
use pdo_contracts.Context.Bindings.{IsLawful, IsApartFrom, held-set_all_apart}

module _ (K : Contexts) (L : IsLawful K) where
  -- A key that is apart from those of templates.
  abbrev pub IsApartFromAll : String → List ContextTemplate → Type 0
  IsApartFromAll j [] = Unit
  IsApartFromAll j (c ∷ cs) = L.IsApart j c.key × IsApartFromAll j cs

  held-set_templates_apart :
      (p j : String) (cs : List ContextTemplate) (s : K.State)
      → IsApartFromAll j cs
      → L.held p j (set_templates K p cs s) ≡ L.held p j s
  unfolding set_templates
  held-set_templates_apart p j [] s h = refl
  held-set_templates_apart p j (c ∷ cs) s h =
      held-set_templates_apart p j cs (K.set p c.key c.template s) h.1
      ∙ L.held-set_apart p j c.key c.template s h.0

  held-set_templates :
      (p : String) (c : ContextTemplate) (before after : List ContextTemplate) (s : K.State)
      → IsApartFromAll c.key after
      → L.held p c.key (set_templates K p (before ++ c ∷ after) s) ≡ c.template
  unfolding set_templates
  held-set_templates p c [] after s h =
      held-set_templates_apart p c.key after (K.set p c.key c.template s) h
      ∙ L.held-set p c.key c.template s
  held-set_templates p c (b ∷ before) after s h =
      held-set_templates p c before after (K.set p b.key b.template s) h

  -- A context that was not initialized, whether its file could be loaded or not, has afterwards each of
  -- the templates under its key, if no later template and no further argument is on the same path.
  pub initialize_context-installs :
      (bindings : List (String × String)) (context_file p : String) (c : ContextTemplate)
      (before after : List ContextTemplate) (kwargs : List (String × Json)) (s : K.State)
      → K.has_key p "initialized" (K.load_context_file bindings context_file p s).1 ≡ false
      → IsApartFromAll c.key after
      → L.IsApart c.key "initialized"
      → IsApartFrom K L c.key kwargs
      → L.held p c.key (initialize_context K bindings context_file p (before ++ c ∷ after) kwargs s)
        ≡ c.template
  unfolding initialize_context fill_context
  initialize_context-installs bindings context_file p c before after kwargs s new later apart
        given =
      held-set_all_apart K L p c.key kwargs _ given
      ∙ rw new (
          L.held-set_apart p c.key "initialized" (bool true) _ apart
          ∙ held-set_templates p c before after _ later)
