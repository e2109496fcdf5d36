-- ===== src/Jupyter/Family.antt =====
-- `find_contract_family` (common-contract/pdo/contracts/jupyter/utility.py).
pub mod Search
use pdo_contracts.Base.{
  ℕ, zero, suc, String, Bool, true, false, ◌||◌, Option, none, some, List, [], ◌∷◌, Eq, ◌==◌,
  if◌then◌else◌,
}
use pdo_contracts.Base.Paths.{FilePath, path_eq, parent, base_name}

-- `while current_path != notebook_root and current_path != notebook_instance_root`, on fuel: `none`
-- means that the loop still runs. A path is the list of its names, the last one first.
unfoldable pub family_from :
    ℕ → FilePath → FilePath → FilePath → Option String → Option (Option String)
family_from zero root instance_root path family = none
family_from (suc fuel) root instance_root path family =
    let rest = family_from fuel root instance_root (parent path) (some (base_name path)) in
    if path == root || path == instance_root then some family else rest
