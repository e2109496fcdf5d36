-- ===== src/Base/Paths.antt =====
-- Absolute, normalized paths: the list of their names, the last one first. `os.path.split` of a path
-- gives its parent and its last name; the root directory is its own parent, with an empty name.
use Prim.Native.String.{String}
use mathlib.Core.List.{List, [], ◌∷◌}
use pdo_contracts.Base.Equality.{Eq, string_eq}

abbrev pub FilePath : Type 0
FilePath = List String

abbrev pub parent : FilePath → FilePath
parent [] = []
parent (name ∷ path) = path

abbrev pub base_name : FilePath → String
base_name [] = ""
base_name (name ∷ path) = name

FilePath-discrete : Discrete FilePath
FilePath-discrete = hlevel (string_eq.decides)

instance unfoldable pub path_eq : Eq FilePath
unfolding FilePath-discrete
path_eq = record { decides = FilePath-discrete }
