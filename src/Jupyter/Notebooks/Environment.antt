-- ===== src/Jupyter/Notebooks/Environment.antt =====
-- What the environment of a notebook is configured with.
use pdo_contracts.Base.{
  String, ◌<>◌, ◌==◌, ◌&&◌, string_eq, ◌≡◌, refl, arith, true, false, Option, some, List, [], ◌∷◌,
  ◌++◌, inl, inr, Bool-cases,
}
use pdo_contracts.Base.Dict.{Dict, lookup, insert, lookup-insert}
use pdo_contracts.Base.Exec.{ok}
use pdo_contracts.Base.Json.{Json, str, list_of, list_items-list_of}
use pdo_contracts.Jupyter.Notebooks.{
  configure, is_setting, new_configuration, default_configuration,
}

-- The arguments that are no settings, as pairs, in their order.
unfoldable pub bindings_of : List (String × Json) → List Json
bindings_of [] = []
bindings_of ((k, v) ∷ kwargs) =
    let rest = bindings_of kwargs in
    elim (is_setting k) [ true ↦ rest | false ↦ list_of (str k ∷ v ∷ []) ∷ rest ]

-- What a setting has in the end: its last argument, or what it had.
unfoldable pub setting_of : String → List (String × Json) → Option Json → Option Json
setting_of s [] before = before
setting_of s ((k, v) ∷ kwargs) before =
    setting_of s kwargs (elim (is_setting k && s == k) [ true ↦ some v | false ↦ before ])

-- The entries of the configuration: what was bound before and is bound now, and the settings.
abbrev pub configured : List (String × Json) → List Json → Dict String Json → String → Option Json
configured kwargs bound before s = elim (s == "bind") [
  | true ↦ some (list_of (bound ++ bindings_of kwargs))
  | false ↦ setting_of s kwargs (lookup s before)
]

append_assoc : (a b : List Json) (j : Json) → (a ++ j ∷ []) ++ b ≡ a ++ j ∷ b
append_assoc [] b j = refl
append_assoc (x ∷ a) b j = ground (arith, append_assoc a b j)

append_nil : (a : List Json) → a ++ [] ≡ a
append_nil [] = refl
append_nil (x ∷ a) = ground (arith, append_nil a)

-- `bind` is not among the keys.
abbrev pub Unbound : List (String × Json) → Type 0
Unbound [] = Unit
Unbound ((k, v) ∷ kwargs) = (("bind" == k) ≡ false) × Unbound kwargs

configure_from :
    (kwargs : List (String × Json)) (l : List Json) (before : Dict String Json)
    → Unbound kwargs
    → lookup "bind" before ≡ some (list_of l)
    → (d : Dict String Json) × (configure kwargs before ≡ ok d)
      × ((s : String) → lookup s d ≡ configured kwargs l before s)
unfolding configure bindings_of setting_of
configure_from [] l before u h = (before, refl, (λ s. ground (arith, h, append_nil l)))
configure_from ((k, v) ∷ kwargs) l before u h = elim (Bool-cases (is_setting k)) [
  | inl e ↦
      let (d, r, t) =
        configure_from kwargs l (insert k v before) u.1
          (ground (arith, u.0, lookup-insert "bind" k v before)) in
      (d, ground arith, (λ s. ground (arith, t s, u.0, lookup-insert s k v before)))
  | inr e ↦
      let pair = list_of (str k ∷ v ∷ []) in
      let added = list_of (l ++ pair ∷ []) in
      let (d, r, t) =
        configure_from kwargs (l ++ pair ∷ []) (insert "bind" added before) u.1
          (ground (arith, lookup-insert "bind" "bind" added before)) in
      (
        d,
        ground (arith, list_items-list_of l),
        (λ s. ground (
          arith,
          t s,
          append_assoc l (bindings_of kwargs) pair,
          lookup-insert s "bind" added before,
        )),
      )
]

-- Where no argument is called `bind`, the environment is configured: its bindings are the arguments that
-- are no settings, in their order, and every other setting is its last argument, or where there is none
-- the identity, the key file named for it, or the default.
pub configure-configured :
    (identity : String) (kwargs : List (String × Json))
    → Unbound kwargs
    → (d : Dict String Json) × (configure kwargs (new_configuration identity) ≡ ok d)
      × ((s : String) → lookup s d ≡ configured kwargs [] (new_configuration identity) s)
configure-configured identity kwargs u = configure_from kwargs [] (new_configuration identity) u (
    ground (
      arith,
      lookup-insert "bind" "bind" (list_of []) (
          insert "client_key_file" (str (identity <> "_private.pem"))
            (insert "client_identity" (str identity) default_configuration)),
    ))
