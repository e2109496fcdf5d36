-- ===== src/Base/Json.antt =====
-- The values of Python's `json` module, and the access to them with Python's exceptions.
-- Numbers are kept by their literal: no code here computes with a number from a message.
use Prim.Native.String.{String}
use mathlib.Core.Bool.{Bool, true, false}
use mathlib.Core.List.{List, [], ◌∷◌}
use mathlib.Core.Path.{◌≡◌, refl}
use native.Mathlib.Omega.{arith}
use mathlib.Core.Option.{Option, none, some}
use pdo_contracts.Base.Equality.{Eq, ◌==◌, if◌then◌else◌, string_eq}
use pdo_contracts.Base.Exec.{Result, ok, err, other, or_key_error}

mutual
  pub data Json : Type 0 where
    null : Json
    bool : Bool → Json
    num : String → Json
    str : String → Json
    array : Items → Json
    object : Fields → Json

  pub data Items : Type 0 where
    nil : Items
    item : Json → Items → Items

  pub data Fields : Type 0 where
    end : Fields
    field : String → Json → Fields → Fields

Json-discrete : Discrete Json
Json-discrete = hlevel (string_eq.decides)

instance unfoldable pub json_eq : Eq Json
unfolding Json-discrete
json_eq = record { decides = Json-discrete }

-- `d.get(k)` on a dict
abbrev pub field? : String → Fields → Option Json
field? k end = none
field? k (field j v fs) = if k == j then some v else field? k fs

abbrev pub from_list : List (String × Json) → Fields
from_list [] = end
from_list ((k, v) ∷ l) = field k v (from_list l)

-- The keyword arguments that `**j` stands for.
abbrev pub to_list : Fields → List (String × Json)
to_list end = []
to_list (field k v fs) = (k, v) ∷ to_list fs

abbrev pub keywords : Json → Result (List (String × Json))
keywords (object fs) = ok (to_list fs)
keywords _ = err (other "argument after ** must be a mapping")

-- A dict literal.
abbrev pub dict : List (String × Json) → Json
dict l = object (from_list l)

abbrev items_list : Items → List Json
items_list nil = []
items_list (item j js) = j ∷ items_list js

abbrev from_items : List Json → Items
from_items [] = nil
from_items (j ∷ l) = item j (from_items l)

-- A list and its elements; what is no list raises where it is used as one.
abbrev pub list_items : Json → Result (List Json)
list_items (array js) = ok (items_list js)
list_items _ = err (other "not a list")

abbrev pub list_of : List Json → Json
list_of l = array (from_items l)

pub list_items-list_of : (l : List Json) → list_items (list_of l) ≡ ok l
list_items-list_of [] = refl
list_items-list_of (j ∷ l) = ground (arith, list_items-list_of l)

-- A list literal of strings.
abbrev strings_items : List String → Items
strings_items [] = nil
strings_items (s ∷ l) = item (str s) (strings_items l)

abbrev pub strings : List String → Json
strings l = array (strings_items l)

-- `j[k]`: a missing key is a `KeyError`, and what is no dict raises another exception.
abbrev pub get_item : Json → String → Result Json
get_item (object fs) k = or_key_error k (field? k fs)
get_item _ k = err (other "not a mapping")

-- `j.get(k)`: `None` for a missing key
abbrev or_null : Option Json → Json
or_null none = null
or_null (some v) = v

abbrev pub get_or_none : Json → String → Result Json
get_or_none (object fs) k = ok (or_null (field? k fs))
get_or_none _ k = err (other "no attribute get")

-- A value where the callee takes a text alone, and raises for any other.
abbrev pub as_str : Json → Result String
as_str (str s) = ok s
as_str _ = err (other "not a string")

-- What a set and a dict accept as an element or a key.
abbrev pub hashable : Json → Bool
hashable (array _) = false
hashable (object _) = false
hashable _ = true

-- Truth of a value: `if v`, for the values that the configuration holds.
abbrev pub is_null : Json → Bool
is_null null = true
is_null _ = false
