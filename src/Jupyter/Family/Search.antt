-- ===== src/Jupyter/Family/Search.antt =====
-- Where the search for a contract family ends, and where it does not.
use pdo_contracts.Base.{
  ℕ, zero, suc, ◌+◌, ◌<◌, ◌≡◌, ◌≢◌, refl, ◌⊎◌, String, Option, none, some, List, [], ◌∷◌, ◌++◌,
  arith, length,
}
use pdo_contracts.Base.Paths.{FilePath, path_eq}
use pdo_contracts.Jupyter.Family.{family_from}

-- No directory from the path up to the file system's root is one of the two at which the search ends.
abbrev pub IsOutside : FilePath → FilePath → FilePath → Type 0
IsOutside root instance_root [] = ([] ≢ root) × ([] ≢ instance_root)
IsOutside root instance_root (name ∷ path) =
    ((name ∷ path) ≢ root) × ((name ∷ path) ≢ instance_root) × IsOutside root instance_root path

-- The directories from a path, down to but not at `top`, are not among the two.
abbrev pub IsBelow : FilePath → FilePath → FilePath → FilePath → Type 0
IsBelow root instance_root [] top = Unit
IsBelow root instance_root (name ∷ names) top =
    ((name ∷ names ++ top) ≢ root)
    × ((name ∷ names ++ top) ≢ instance_root)
    × IsBelow root instance_root names top

module _ (root instance_root : FilePath) where
  -- From a directory under neither the notebook root nor its instances the search never ends.
  pub family_from_outside :
      (fuel : ℕ) (path : FilePath) (family : Option String)
      → IsOutside root instance_root path
      → family_from fuel root instance_root path family ≡ none
  unfolding family_from
  family_from_outside zero path family h = refl
  family_from_outside (suc fuel) [] family h =
      ground (arith, family_from_outside fuel [] (some "") h)
  family_from_outside (suc fuel) (name ∷ path) family h =
      ground (arith, family_from_outside fuel path (some name) h.2)

  -- From a directory at any depth below the notebook root, or below its instances, the search ends, and
  -- gives the name of the directory just below: the family.
  pub family_from_inside :
      (fuel : ℕ) (names : List String) (family : String) (top : FilePath) (start : Option String)
      → (top ≡ root) ⊎ (top ≡ instance_root)
      → IsBelow root instance_root names (family ∷ top)
      → (family ∷ top) ≢ root
      → (family ∷ top) ≢ instance_root
      → length names + 1 < fuel
      → family_from fuel root instance_root (names ++ (family ∷ top)) start ≡ some (some family)
  unfolding family_from
  family_from_inside zero names family top start at_top below ne ne' h = absurd (omega arith)
  family_from_inside (suc zero) names family top start at_top below ne ne' h = absurd (omega arith)
  family_from_inside (suc (suc fuel)) [] family top start at_top below ne ne' h = ground arith
  family_from_inside (suc (suc fuel)) (name ∷ names) family top start at_top below ne ne' h =
      ground (
        arith,
        family_from_inside (suc fuel) names family top (some name) at_top below.2 ne ne'
            (omega arith),
      )
