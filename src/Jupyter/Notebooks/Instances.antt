-- ===== src/Jupyter/Notebooks/Instances.antt =====
-- Where the instances of a notebook are made: below the family that they came from.
use pdo_contracts.Base.{
  ℕ, zero, suc, ◌+◌, ◌≡◌, refl, ap, arith, String, true, ◌||◌, ◌==◌, Option, none, some, [], ◌∷◌,
  length, inl, inr, Bool-cases,
}
use pdo_contracts.Base.Dict.{Dict}
use pdo_contracts.Base.Exec.{ok}
use pdo_contracts.Base.Json.{Json}
use pdo_contracts.Base.Paths.{FilePath, path_eq}
use pdo_contracts.Jupyter.Family.{family_from}
use pdo_contracts.Jupyter.Family.Search.{IsOutside, family_from_inside, family_from_outside}
use pdo_contracts.Jupyter.Notebooks.{
  Notebooks, notebook_instance_root, instance_directory, find_contract_family, instantiate_in,
  instantiate_notebook_from_template,
}

module _ (root instance_root : FilePath) where
  stays_at_top :
      (fuel : ℕ) (family : Option String)
      → family_from 1 root instance_root [] family ≡ none
      → family_from fuel root instance_root [] family ≡ none
  unfolding family_from
  stays_at_top zero family h = refl
  stays_at_top (suc fuel) family h = elim (Bool-cases (([] == root) || ([] == instance_root))) [
    | inl e ↦ ground arith
    | inr e ↦ ground (arith, stays_at_top fuel (some ""))
  ]

  -- A search that has not ended after as many steps as the path has directories never ends.
  pub family_from-decided :
      (fuel : ℕ) (path : FilePath) (family : Option String)
      → family_from (length path + 1) root instance_root path family ≡ none
      → family_from fuel root instance_root path family ≡ none
  unfolding family_from
  family_from-decided zero path family h = refl
  family_from-decided (suc fuel) [] family h = stays_at_top (suc fuel) family h
  family_from-decided (suc fuel) (name ∷ path) family h =
      elim (Bool-cases (((name ∷ path) == root) || ((name ∷ path) == instance_root))) [
        | inl e ↦ ground (arith)
        | inr e ↦ ground (arith, family_from-decided fuel path (some name))
      ]

module _ (N : Notebooks) where
  -- The family of a directory for instances is the one that it was made for.
  find_contract_family_of_instance :
      (family collection : String)
      → N.starts_with_root (instance_directory N family collection) ≡ true
      → find_contract_family N (instance_directory N family collection) ≡ some (ok (some family))
  unfolding find_contract_family
  find_contract_family_of_instance family collection starts =
      let top = notebook_instance_root N in
      let found =
        family_from_inside N.notebook_root top (length (instance_directory N family collection) + 1)
          (collection ∷ []) family top none (inr refl)
          ((λ p. omega (arith, ap length p)), (λ p. omega (arith, ap length p)), tt)
          (λ p. omega (arith, ap length p)) (λ p. omega (arith, ap length p)) (omega arith) in
      ground (arith, found)

  -- A notebook that is instantiated from the directory of an instance is made from the templates of the
  -- family of that instance, and beside it where the collection is the same.
  pub instantiate_from_instance :
      (family collection template : String) (parameters : Dict String Json) (other : String)
      (w : N.World)
      → N.getcwd w ≡ instance_directory N family other
      → N.starts_with_root (instance_directory N family other) ≡ true
      → instantiate_notebook_from_template N collection template parameters w
        ≡ some (instantiate_in N family collection template parameters w)
  unfolding instantiate_notebook_from_template
  instantiate_from_instance family collection template parameters other w at starts =
      ground (arith, find_contract_family_of_instance family other starts)

  -- From a directory whose text starts with that of the notebook root, but which is under neither the
  -- root nor its instances, the search never ends: no number of rounds is enough.
  pub find_contract_family-outside :
      (path : FilePath)
      → N.starts_with_root path ≡ true
      → IsOutside N.notebook_root (notebook_instance_root N) path
      → (find_contract_family N path ≡ none)
        × ((rounds : ℕ)
            → family_from rounds N.notebook_root (notebook_instance_root N) path none ≡ none)
  unfolding find_contract_family
  find_contract_family-outside path starts h =
      let never = λ (rounds : ℕ).
        family_from_outside N.notebook_root (notebook_instance_root N) rounds path none h in
      (ground (arith, never (length path + 1)), never)
