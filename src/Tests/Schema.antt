-- ===== src/Tests/Schema.antt =====
-- A validator for the keywords that the schemas use: `type`, `properties` and `required`.
use pdo_contracts.Base.{
  String, ◌≡◌, refl, Bool, true, false, ◌&&◌, Option, none, some, [], ◌∷◌, arith, ◌==◌, string_eq,
  if◌then◌else◌,
}
use pdo_contracts.Base.Exec.{Result, ok, err, validation_error}
use pdo_contracts.Base.Json.{
  Json, Items, Fields, null, bool, num, str, array, object, nil, item, end, field, field?, dict,
}

abbrev has_type : String → Json → Bool
has_type t (str _) = t == "string"
has_type t (object _) = t == "object"
has_type t (array _) = t == "array"
has_type t _ = false

abbrev has_field : String → Json → Bool
has_field k (object fs) = elim (field? k fs) [ none ↦ false | some _ ↦ true ]
has_field k _ = true

unfoldable pub has_all : Items → Json → Bool
has_all nil j = true
has_all (item (str k) ks) j = has_field k j && has_all ks j
has_all (item _ ks) j = has_all ks j

abbrev child : String → Json → Option Json
child k (object fs) = field? k fs
child k _ = none

-- A schema is read keyword by keyword, and its properties name by name.
unfoldable mutual
  pub accepts : Json → Json → Bool
  accepts (object keywords) j = accepts_keywords keywords j
  accepts null j = true
  accepts (bool b) j = b
  accepts (num n) j = true
  accepts (str s) j = true
  accepts (array xs) j = true

  pub accepts_keywords : Fields → Json → Bool
  accepts_keywords end j = true
  accepts_keywords (field name (object schemas) rest) j =
      let fits = accepts_properties schemas j in
      let others = accepts_keywords rest j in
      (if name == "properties" then fits else true) && others
  accepts_keywords (field name (str t) rest) j =
      let others = accepts_keywords rest j in
      (if name == "type" then has_type t j else true) && others
  accepts_keywords (field name (array ks) rest) j =
      let others = accepts_keywords rest j in
      (if name == "required" then has_all ks j else true) && others
  accepts_keywords (field name _ rest) j = accepts_keywords rest j

  pub accepts_properties : Fields → Json → Bool
  accepts_properties end j = true
  accepts_properties (field k schema rest) j =
      let others = accepts_properties rest j in
      elim (child k j) [ none ↦ true | some v ↦ accepts schema v ] && others

unfoldable pub validate : Json → Json → Result (Unit {0})
validate j schema = if accepts schema j then ok tt else err validation_error

pub validate_string : (s : String) → validate (str s) (dict (("type", str "string") ∷ [])) ≡ ok tt
unfolding validate accepts string_eq
validate_string s = refl

pub validate_object :
    (fs : Fields) (props : Fields)
    → accepts_properties props (object fs) ≡ true
    → validate (object fs) (dict (("type", str "object") ∷ ("properties", object props) ∷ []))
      ≡ ok tt
unfolding validate accepts string_eq
validate_object fs props h = rw h

-- `validate` on one property, as the platform's law states it.
abbrev pub Fits : Json → Option Json → Type 0
Fits schema none = Unit
Fits schema (some v) = validate v schema ≡ ok tt

accepts_of_validate : (v schema : Json) → validate v schema ≡ ok tt → accepts schema v ≡ true
unfolding validate
accepts_of_validate v schema h = ground arith

Fits-accepts :
    (schema : Json) (o : Option Json)
    → Fits schema o
    → elim o [ none ↦ true | some v ↦ accepts schema v ] ≡ true
Fits-accepts schema none h = refl
Fits-accepts schema (some v) h = accepts_of_validate v schema h

pub accepts_properties-field :
    (k : String) (schema : Json) (fs rest : Fields)
    → Fits schema (field? k fs)
    → accepts_properties rest (object fs) ≡ true
    → accepts_properties (field k schema rest) (object fs) ≡ true
unfolding accepts
accepts_properties-field k schema fs rest h r = rw (Fits-accepts schema (field? k fs) h) r
