-- ===== src/Jupyter/Widgets.antt =====
-- The selection boxes of ipywidgets, which the forms use, with their documented behaviour.
use pdo_contracts.Base.{String, ◌≡◌, Bool, true, false, List, [], ◌∷◌, contains, string_eq}
use pdo_contracts.Base.Exec.{Result, Exn, ok, err}

pub record Widgets : Type 1 where
  -- `Dropdown`: one of the options is the value.
  pub Dropdown : Type 0
  pub options : Dropdown → List String
  pub value : Dropdown → String
  pub set_options : List String → Dropdown → Dropdown
  pub set_value : String → Dropdown → Result Dropdown
  -- `Dropdown(options=['unknown'], value='unknown')`
  pub unknown_dropdown : Dropdown
  -- `SelectMultiple`: some of the options are the value.
  pub SelectMultiple : Type 0
  pub selection : SelectMultiple → List String
  pub select_multiple : List String → SelectMultiple
  pub set_choices : List String → SelectMultiple → SelectMultiple
  pub set_selection : List String → SelectMultiple → Result SelectMultiple
  -- Whether the observers of a value are called after it went from one to the other.
  pub notifies : List String → List String → Bool

-- A drop-down takes its options as its value, and raises for another text; a selection can be cleared,
-- and a new box has none; observers are called on a change.
pub record IsLawful (W : Widgets) : Type 0 where
  pub options-set : (l : List String) (d : W.Dropdown) → W.options (W.set_options l d) ≡ l
  pub set_value-option :
      (v : String) (d : W.Dropdown)
      → contains (W.options d) v ≡ true
      → (d' : W.Dropdown) × (W.set_value v d ≡ ok d')
        × (W.options d' ≡ W.options d)
        × (W.value d' ≡ v)
  pub set_value-other :
      (v : String) (d : W.Dropdown)
      → contains (W.options d) v ≡ false
      → (e : Exn) × (W.set_value v d ≡ err e)
  pub set_selection-nil :
      (m : W.SelectMultiple)
      → (m' : W.SelectMultiple) × (W.set_selection [] m ≡ ok m') × (W.selection m' ≡ [])
  pub options-unknown : W.options W.unknown_dropdown ≡ "unknown" ∷ []
  pub value-unknown : W.value W.unknown_dropdown ≡ "unknown"
  pub selection-new : (l : List String) → W.selection (W.select_multiple l) ≡ []
  pub silent_eq : (a b : List String) → W.notifies a b ≡ false → a ≡ b
