-- ===== src/Jupyter/Tokens/Made.antt =====
-- What it takes that the notebook of a token issuer is in its place, and what stops it.
use pdo_contracts.Base.{
  ◌<>◌, string_eq, ◌⊎◌, false, String, ◌≡◌, arith, true, ◌∷◌, Bool-cases, inl, inr,
}
use pdo_contracts.Base.Dict.{Dict, insert}
use pdo_contracts.Base.Json.{Json, str}
use pdo_contracts.Base.Paths.{FilePath}
use pdo_contracts.Base.Exec.{Exn, ok, err, Result-cases}
use pdo_contracts.Jupyter.Notebooks.{Notebooks, instantiate_in}

module _ (N : Notebooks) where
  abbrev template_path : String → FilePath
  template_path family = "token_issuer.ipynb" ∷ "templates" ∷ family ∷ N.notebook_root

  abbrev directory_path : String → String → FilePath
  directory_path family token_class = token_class ∷ family ∷ "instances" ∷ N.notebook_root

  abbrev pub instance_path : String → String → String → FilePath
  instance_path family token_class letters =
      ("token_issuer" <> "_" <> letters <> ".ipynb") ∷ directory_path family token_class

  module _ (family token_class : String) (parameters : Dict String Json) (w : N.World) where
    -- The notebook is there: it was already, or it is made now from the template of the family, with the
    -- parameters and its letters.
    pub data Made (letters : String) (w' : N.World) : Type 0 where
      already :
          N.random_letters 6 w ≡ (ok letters, w')
          → N.exists (instance_path family token_class letters) w' ≡ true
          → Made letters w'
      now :
          (w₁ w₂ : N.World)
          → N.random_letters 6 w ≡ (ok letters, w₁)
          → N.exists (instance_path family token_class letters) w₁ ≡ false
          → N.makedirs (directory_path family token_class) w₁ ≡ (ok tt, w₂)
          → N.execute_notebook
              (template_path family)
              (instance_path family token_class letters)
              (insert "instance_identifier" (str letters) parameters)
              w₂
            ≡ (ok tt, w')
          → Made letters w'

    -- The step of this that raised.
    pub data Unmade (e : Exn) (w' : N.World) : Type 0 where
      no_letters : N.random_letters 6 w ≡ (err e, w') → Unmade e w'
      no_directory :
          (letters : String) (w₁ : N.World)
          → N.random_letters 6 w ≡ (ok letters, w₁)
          → N.makedirs (directory_path family token_class) w₁ ≡ (err e, w')
          → Unmade e w'
      not_executed :
          (letters : String) (w₁ w₂ : N.World)
          → N.random_letters 6 w ≡ (ok letters, w₁)
          → N.makedirs (directory_path family token_class) w₁ ≡ (ok tt, w₂)
          → N.execute_notebook
              (template_path family)
              (instance_path family token_class letters)
              (insert "instance_identifier" (str letters) parameters)
              w₂
            ≡ (err e, w')
          → Unmade e w'

    -- A notebook that is instantiated is there, with the path of it as the answer, or a step of this raised.
    pub instantiate_in-cases :
        let made = instantiate_in N family token_class "token_issuer" parameters w in
        ((letters : String) × Made letters made.1
          × (made.0 ≡ ok (N.relpath (instance_path family token_class letters) made.1)))
        ⊎ ((e : Exn) × Unmade e made.1 × (made.0 ≡ err e))
    unfolding instantiate_in
    instantiate_in-cases =
        let chosen = N.random_letters 6 w in
        elim (Result-cases chosen.0) [
          | inr (e, h) ↦ inr (e, no_letters (ground arith), ground arith)
          | inl (letters, h) ↦
              let path = instance_path family token_class letters in
              elim (Bool-cases (N.exists path chosen.1)) [
                | inl h₁ ↦ inl (letters, already (ground arith) (ground arith), ground arith)
                | inr h₁ ↦
                    let dir = N.makedirs (directory_path family token_class) chosen.1 in
                    elim (Result-cases dir.0) [
                      | inr (e, h₂) ↦ inr (
                        e,
                        no_directory letters chosen.1 (ground arith) (ground arith),
                        ground arith,
                      )
                      | inl (done, h₂) ↦
                          let run =
                            N.execute_notebook (template_path family) path
                              (insert "instance_identifier" (str letters) parameters) dir.1 in
                          elim (Result-cases run.0) [
                            | inr (e, h₃) ↦ inr (
                              e,
                              not_executed letters chosen.1 dir.1 (ground arith) (ground arith)
                                  (ground arith),
                              ground arith,
                            )
                            | inl (done', h₃) ↦ inl (
                              letters,
                              now chosen.1 dir.1 (ground arith) h₁ (ground arith) (ground arith),
                              ground arith,
                            )
                          ]
                    ]
              ]
        ]
