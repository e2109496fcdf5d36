-- ===== src/Jupyter/Keys/Lookup.antt =====
-- Which key file an identity gets.
use pdo_contracts.Base.{String, Option, none, some, List, [], ◌∷◌, string_eq, ◌==◌, if◌then◌else◌}
use pdo_contracts.Base.Dict.{Dict}
use pdo_contracts.Jupyter.Keys.{Files}

module _ (F : Files) (pattern : String) where
  -- The first file in a list whose identity is the given one.
  abbrev pub first_with : String → List String → Option String
  first_with identity [] = none
  first_with identity (file ∷ files) =
      if identity == F.identity pattern file then some file else first_with identity files

  abbrev or_else : Option String → Option String → Option String
  or_else (some file) other = some file
  or_else none other = other
