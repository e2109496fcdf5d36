-- ===== src/Jupyter/Keys.antt =====
-- The maps of keys (common-contract/pdo/contracts/jupyter/keys.py).
pub mod Lookup
pub mod Forms
use pdo_contracts.Base.{String, ◌<>◌, Bool, Option, none, some, List, [], ◌∷◌, ◌++◌, map, string_eq}
use pdo_contracts.Base.Dict.{Dict, lookup, insert, keys}

-- What the functions use of the bindings, of `os.path` and `glob`, and of texts.
pub record Files : Type 0 where
  pub expand : String → String
  -- `glob.glob(os.path.join(directory, '*' + pattern))`, and `os.path.realpath`
  pub glob : String → String → List String
  pub realpath : String → String
  -- `os.path.basename(key_file).replace(pattern, '')`
  pub identity : String → String → String
  -- `list.sort`
  pub sort : List String → List String

module _ (F : Files) where
  abbrev found_in : String → List String → List String
  found_in pattern [] = []
  found_in pattern (d ∷ ds) = F.glob d pattern ++ found_in pattern ds

  -- The key files, directory by directory in the order of the search path.
  unfoldable pub key_files : List String → String → List String
  key_files search_path pattern = map F.realpath (found_in pattern (map F.expand search_path))

  abbrev add_if_missing : String → String → Option String → Dict String String → Dict String String
  add_if_missing identity key_file none key_map = insert identity key_file key_map
  add_if_missing identity key_file (some _) key_map = key_map

  unfoldable pub fill : String → List String → Dict String String → Dict String String
  fill pattern [] key_map = key_map
  fill pattern (key_file ∷ files) key_map =
      let identity = F.identity pattern key_file in
      fill pattern files (add_if_missing identity key_file (lookup identity key_map) key_map)

  -- `_build_key_map_`
  unfoldable pub build_key_map : List String → String → Dict String String
  unfolding fill
  build_key_map search_path pattern = fill pattern (key_files search_path pattern) []

  unfoldable pub build_public_key_map : List String → Dict String String
  build_public_key_map search_path = build_key_map search_path "_public.pem"

  unfoldable pub build_private_key_map : List String → Dict String String
  build_private_key_map search_path = build_key_map search_path "_private.pem"

  unfoldable pub build_public_key_list : List String → List String
  build_public_key_list search_path = F.sort (keys (build_public_key_map search_path))

  unfoldable pub build_private_key_list : List String → List String
  build_private_key_list search_path = F.sort (keys (build_private_key_map search_path))
