-- ===== src/Inference/Scoring/Shape.antt =====
-- The input of the model.
use mathlib.Core.Path.{ap₂, subst}
use pdo_contracts.Base.{
  ℕ, ◌≡◌, refl, ap, ◌∙◌, sym, ◌*◌, ◌<◌, Bool, true, false, some, List, [], ◌∷◌, ◌++◌, length, take,
  drop, map, arith, length-append,
}
use pdo_contracts.Base.Exec.{ok}
use pdo_contracts.Inference.Image.{Image, Pixel, crop_resize}
use pdo_contracts.Inference.Image.Window.{HaveWidth, HasShape, Resizes, crop_resize-HasShape}
use pdo_contracts.Inference.Scoring.{
  Vision, MiscParams, Plane, flat, chunks, plane, planes, reshape, preprocess_image,
}

module _ {A : Type 0} where
  abbrev Rows : ℕ → List (List A) → Type 0
  Rows n [] = Unit
  Rows n (row ∷ rows) = (length row ≡ n) × Rows n rows

  take-append : (xs ys : List A) → take (length xs) (xs ++ ys) ≡ xs
  take-append [] ys = refl
  take-append (x ∷ xs) ys = ap (λ (l : List A). x ∷ l) (take-append xs ys)

  drop-append : (xs ys : List A) → drop (length xs) (xs ++ ys) ≡ ys
  drop-append [] ys = refl
  drop-append (x ∷ xs) ys = drop-append xs ys

  chunks-flat :
      (n : ℕ) (rows : List (List A)) → Rows n rows → chunks (length rows) n (flat rows) ≡ rows
  unfolding chunks flat
  chunks-flat n [] h = refl
  chunks-flat n (row ∷ rows) h = rw (sym h.0) (
      ap₂ (λ (a : List A) (b : List (List A)). a ∷ b) (take-append row (flat rows))
        (rw (drop-append row (flat rows)) (
          subst (λ (k : ℕ). chunks (length rows) k (flat rows) ≡ rows) (sym h.0)
            (chunks-flat n rows h.1))))

  length-flat : (n : ℕ) (rows : List (List A)) → Rows n rows → length (flat rows) ≡ length rows * n
  unfolding flat
  length-flat n [] h = omega arith
  length-flat n (row ∷ rows) h =
      grind (arith, length-append row (flat rows), length-flat n rows h.1)

module _ (V : Vision) where
  Rows-plane :
      (n : ℕ) (channel : Pixel → ℕ) (img : Image) → HaveWidth n img → Rows n (plane V channel img)
  Rows-plane n channel [] h = tt
  Rows-plane n channel (row ∷ img) h = (length-pixels row ∙ h.0, Rows-plane n channel img h.1)
    where
      length-pixels :
          (l : List Pixel) → length (map (λ (p : Pixel). V.float32 (channel p)) l) ≡ length l
      length-pixels [] = refl
      length-pixels (p ∷ l) = omega (arith, length-pixels l)

  length-plane : (channel : Pixel → ℕ) (img : Image) → length (plane V channel img) ≡ length img
  length-plane channel [] = refl
  length-plane channel (row ∷ img) = omega (arith, length-plane channel img)

  -- A plane of a size, and the planes that a list of them is cut from.
  record IsSquare (size : ℕ) (p : Plane V) : Type 0 where
    rows : length p ≡ size
    columns : Rows size p

  plane-IsSquare :
      (size : ℕ) (channel : Pixel → ℕ) (img : Image)
      → HasShape size size img
      → IsSquare size (plane V channel img)
  plane-IsSquare size channel img s = record {
    rows = length-plane channel img ∙ s.rows;
    columns = Rows-plane size channel img s.columns;
  }

  Squares : ℕ → List (Plane V) → Type 0
  Squares size [] = Unit
  Squares size (p ∷ ps) = IsSquare size p × Squares size ps

  Rows-flat : (size : ℕ) (ps : List (Plane V)) → Squares size ps → Rows (size * size) (map flat ps)
  unfolding Squares
  Rows-flat size [] h = tt
  Rows-flat size (p ∷ ps) h =
      (length-flat size p h.0.columns ∙ ap (λ (k : ℕ). k * size) h.0.rows, Rows-flat size ps h.1)

  chunks-flats :
      (size : ℕ) (ps : List (Plane V)) → Squares size ps → map (chunks size size) (map flat ps) ≡ ps
  unfolding Squares
  chunks-flats size [] h = refl
  chunks-flats size (p ∷ ps) h =
      ap₂ (λ (a : Plane V) (b : List (Plane V)). a ∷ b)
        (subst (λ (k : ℕ). chunks k size (flat p) ≡ p) h.0.rows (chunks-flat size p h.0.columns))
        (chunks-flats size ps h.1)

  length-map : (ps : List (Plane V)) → length (map flat ps) ≡ length ps
  length-map [] = refl
  length-map (p ∷ ps) = omega (arith, length-map ps)

  -- Three planes of the size keep their elements where they are.
  reshape-Squares :
      (size : ℕ) (ps : List (Plane V))
      → length ps ≡ 3
      → Squares size ps
      → reshape V size ps ≡ ok (ps ∷ [])
  unfolding reshape
  reshape-Squares size ps three h =
      let rows = Rows-flat size ps h in
      let total : length (flat (map flat ps)) ≡ 3 * (size * size) =
        length-flat (size * size) (map flat ps) rows
        ∙ ap (λ (k : ℕ). k * (size * size)) (length-map ps ∙ three) in
      let cut : chunks 3 (size * size) (flat (map flat ps)) ≡ map flat ps =
        subst (λ (k : ℕ). chunks k (size * size) (flat (map flat ps)) ≡ map flat ps)
          (length-map ps ∙ three) (chunks-flat (size * size) (map flat ps) rows) in
      let kept : map (chunks size size) (chunks 3 (size * size) (flat (map flat ps))) ≡ ps =
        ap (map (chunks size size)) cut ∙ chunks-flats size ps h in
      ground arith

  planes-Squares :
      (size : ℕ) (rgb_image : Bool) (img : Image)
      → HasShape size size img
      → (length (planes V rgb_image img) ≡ 3) × Squares size (planes V rgb_image img)
  unfolding Squares
  planes-Squares size true img s = (
    refl,
    (plane-IsSquare size _ img s, (plane-IsSquare size _ img s, (plane-IsSquare size _ img s, tt))),
  )
  planes-Squares size false img s = (
    refl,
    (plane-IsSquare size _ img s, (plane-IsSquare size _ img s, (plane-IsSquare size _ img s, tt))),
  )

  -- If resizing does what it is asked, an image of any size that is not empty becomes one batch of three
  -- planes, red first or blue first as configured, each that channel of the window of the configured
  -- size, element by element; the window has exactly that size, and the reshaping never raises.
  pub preprocess_image-planes :
      (params : MiscParams) (image_bytes : V.Bytes) (img : Image) (h w : ℕ)
      → Resizes V.resize
      → V.imdecode image_bytes ≡ some img
      → 0 < h
      → 0 < w
      → HasShape h w img
      → let window = crop_resize V.resize img params.size params.size in
        HasShape params.size params.size window
        × (preprocess_image V params image_bytes ≡ ok (planes V params.rgb_image window ∷ []))
  unfolding preprocess_image
  preprocess_image-planes params image_bytes img h w resizes decoded pos_h pos_w shape =
      let s =
        crop_resize-HasShape V.resize resizes h w img pos_h pos_w shape params.size params.size in
      let window = crop_resize V.resize img params.size params.size in
      let q = planes-Squares params.size params.rgb_image window s in
      (s, rw decoded (reshape-Squares params.size (planes V params.rgb_image window) q.0 q.1))
