-- ===== src/Tests/Codec.antt =====
-- A printer of JSON values and its parser, for the concrete platform of the tests.
use Prim.Native.Char.{Char, code}
use Prim.Native.String.{String, ◌∷◌}
use pdo_contracts.Base.{
  ℕ, zero, suc, ◌+◌, ◌≤◌, ◌≡◌, refl, Bool, true, false, Option, none, some, arith, if◌then◌else◌,
  ltb,
}
use pdo_contracts.Base.Json.{
  Json, Items, Fields, null, bool, num, str, array, object, nil, item, end, field,
}
use pdo_contracts.Base.Exec.{Result, ok, err, other}

-- A text goes with a mark before each character and a mark at its end.
unfoldable pub print_text : String → String → String
print_text String.[] r = "." ∷ r
print_text (String.◌∷◌ c s) r = "+" ∷ (c ∷ print_text s r)

mutual
  print : Json → String → String
  print null r = "n" ∷ r
  print (bool true) r = "t" ∷ r
  print (bool false) r = "f" ∷ r
  print (num s) r = "d" ∷ print_text s r
  print (str s) r = "s" ∷ print_text s r
  print (array xs) r = "a" ∷ print_items xs r
  print (object fs) r = "o" ∷ print_fields fs r

  print_items : Items → String → String
  print_items nil r = "." ∷ r
  print_items (item j xs) r = "+" ∷ print j (print_items xs r)

  print_fields : Fields → String → String
  print_fields end r = "." ∷ r
  print_fields (field k j fs) r = "+" ∷ print_text k (print j (print_fields fs r))

pub data Kind : Type 0 where
  is_null is_true is_false is_num is_str is_array is_object is_other : Kind

-- By the character's code.
abbrev kind_of : ℕ → Kind
kind_of c =
    if ltb c b'd'
    then (if ltb c b'b' then is_array else is_other)
    else if ltb c b'e'
    then is_num
    else if ltb c b'g'
    then is_false
    else if ltb c b'o'
    then is_null
    else if ltb c b'p'
    then is_object
    else if ltb c b't'
    then is_str
    else is_true

abbrev is_end : Char → Bool
is_end c = if ltb (code c) b'.' then false else true

abbrev prefix : Char → Option (String × String) → Option (String × String)
prefix c none = none
prefix c (some (s, r)) = some (c ∷ s, r)

unfoldable pub parse_text : String → Option (String × String)
parse_text String.[] = none
parse_text (String.◌∷◌ m String.[]) = if is_end m then some ("", "") else none
parse_text (String.◌∷◌ m (String.◌∷◌ c s)) =
    let rest = parse_text s in if is_end m then some ("", c ∷ s) else prefix c rest

infixl 5 ◌>>=◌
abbrev ◌>>=◌ : {A B : Type 0} → Option A → (A → Option B) → Option B
none >>= f = none
some a >>= f = f a

mutual
  parse : ℕ → String → Option (Json × String)
  parse zero _ = none
  parse (suc f) String.[] = none
  parse (suc f) (String.◌∷◌ c s) = elim (kind_of (code c)) [
    | is_null ↦ some (null, s)
    | is_true ↦ some (bool true, s)
    | is_false ↦ some (bool false, s)
    | is_num ↦ do (t, r) ← parse_text s; some (num t, r)
    | is_str ↦ do (t, r) ← parse_text s; some (str t, r)
    | is_array ↦ do (xs, r) ← parse_items f s; some (array xs, r)
    | is_object ↦ do (fs, r) ← parse_fields f s; some (object fs, r)
    | is_other ↦ none
  ]

  parse_items : ℕ → String → Option (Items × String)
  parse_items zero _ = none
  parse_items (suc f) String.[] = none
  parse_items (suc f) (String.◌∷◌ c s) = elim (is_end c) [
    | true ↦ some (nil, s)
    | false ↦ do (j, r) ← parse f s; (xs, r') ← parse_items f r; some (item j xs, r')
  ]

  parse_fields : ℕ → String → Option (Fields × String)
  parse_fields zero _ = none
  parse_fields (suc f) String.[] = none
  parse_fields (suc f) (String.◌∷◌ c s) = elim (is_end c) [
    | true ↦ some (end, s)
    | false ↦ do
      (k, r) ← parse_text s
      (j, r') ← parse f r
      (fs, r'') ← parse_fields f r'
      some (field k j fs, r'')
  ]

mutual
  size : Json → ℕ
  size (array xs) = suc (size_items xs)
  size (object fs) = suc (size_fields fs)
  size _ = 1

  size_items : Items → ℕ
  size_items nil = 1
  size_items (item j xs) = suc (size j + size_items xs)

  size_fields : Fields → ℕ
  size_fields end = 1
  size_fields (field k j fs) = suc (size j + size_fields fs)

pub parse_text-print_text : (s r : String) → parse_text (print_text s r) ≡ some (s, r)
unfolding parse_text print_text
parse_text-print_text String.[] String.[] = refl
parse_text-print_text String.[] (String.◌∷◌ c r) = refl
parse_text-print_text (String.◌∷◌ c s) r = rw (parse_text-print_text s r)

mutual
  unfolding parse parse_items parse_fields print print_items print_fields size size_items
      size_fields

  parse-print : (f : ℕ) (j : Json) (r : String) → size j ≤ f → parse f (print j r) ≡ some (j, r)
  parse-print zero null r h = absurd (omega arith)
  parse-print zero (bool b) r h = absurd (omega arith)
  parse-print zero (num s) r h = absurd (omega arith)
  parse-print zero (str s) r h = absurd (omega arith)
  parse-print zero (array xs) r h = absurd (omega arith)
  parse-print zero (object fs) r h = absurd (omega arith)
  parse-print (suc f) null r h = refl
  parse-print (suc f) (bool true) r h = refl
  parse-print (suc f) (bool false) r h = refl
  parse-print (suc f) (num s) r h = rw (parse_text-print_text s r)
  parse-print (suc f) (str s) r h = rw (parse_text-print_text s r)
  parse-print (suc f) (array xs) r h = rw (parse_items-print f xs r (omega arith))
  parse-print (suc f) (object fs) r h = rw (parse_fields-print f fs r (omega arith))

  parse_items-print :
      (f : ℕ) (xs : Items) (r : String)
      → size_items xs ≤ f
      → parse_items f (print_items xs r) ≡ some (xs, r)
  parse_items-print zero nil r h = absurd (omega arith)
  parse_items-print zero (item j xs) r h = absurd (omega arith)
  parse_items-print (suc f) nil r h = refl
  parse_items-print (suc f) (item j xs) r h =
      rw (parse-print f j (print_items xs r) (omega arith), parse_items-print f xs r (omega arith))

  parse_fields-print :
      (f : ℕ) (fs : Fields) (r : String)
      → size_fields fs ≤ f
      → parse_fields f (print_fields fs r) ≡ some (fs, r)
  parse_fields-print zero end r h = absurd (omega arith)
  parse_fields-print zero (field k j fs) r h = absurd (omega arith)
  parse_fields-print (suc f) end r h = refl
  parse_fields-print (suc f) (field k j fs) r h = rw (
    parse_text-print_text k (print j (print_fields fs r)),
    parse-print f j (print_fields fs r) (omega arith),
    parse_fields-print f fs r (omega arith),
  )

unfoldable pub count : String → ℕ
count String.[] = 0
count (String.◌∷◌ c s) = suc (count s)

count-print_text : (s r : String) → suc (count r) ≤ count (print_text s r)
unfolding count print_text
count-print_text String.[] r = omega arith
count-print_text (String.◌∷◌ c s) r = omega (arith, count-print_text s r)

mutual
  unfolding count print print_items print_fields size size_items size_fields

  size-le-print : (j : Json) (r : String) → size j + count r ≤ count (print j r)
  size-le-print null r = omega arith
  size-le-print (bool true) r = omega arith
  size-le-print (bool false) r = omega arith
  size-le-print (num s) r = omega (arith, count-print_text s r)
  size-le-print (str s) r = omega (arith, count-print_text s r)
  size-le-print (array xs) r = omega (arith, size_items-le-print xs r)
  size-le-print (object fs) r = omega (arith, size_fields-le-print fs r)

  size_items-le-print :
      (xs : Items) (r : String) → size_items xs + count r ≤ count (print_items xs r)
  size_items-le-print nil r = omega arith
  size_items-le-print (item j xs) r =
      omega (arith, size-le-print j (print_items xs r), size_items-le-print xs r)

  size_fields-le-print :
      (fs : Fields) (r : String) → size_fields fs + count r ≤ count (print_fields fs r)
  size_fields-le-print end r = omega arith
  size_fields-le-print (field k j fs) r = omega (
    arith,
    count-print_text k (print j (print_fields fs r)),
    size-le-print j (print_fields fs r),
    size_fields-le-print fs r,
  )

abbrev whole : Option (Json × String) → Result Json
whole none = err (other "no JSON")
whole (some (j, r)) = ok j

unfoldable pub dumps : Json → String
unfolding print
dumps j = print j ""

-- Fuel for every character is enough: no value has more parts than characters.
unfoldable pub loads : String → Result Json
unfolding count parse
loads s = whole (parse (count s) s)

pub loads-dumps : (j : Json) → loads (dumps j) ≡ ok j
unfolding loads dumps
loads-dumps j = rw (parse-print (count (print j "")) j "" (fits j))
  where
    fits : (j : Json) → size j ≤ count (print j "")
    fits j = omega (arith, size-le-print j "")
