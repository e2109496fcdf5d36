-- ===== src/Inference/Image.antt =====
-- `CropResize` (inference-contract/pdo/inference/common/utility.py): images as rows of pixels.
pub mod Window
use pdo_contracts.Base.{
  ℕ, ◌+◌, ◌-◌, ◌/◌, Bool, if◌then◌else◌, ltb, List, [], ◌∷◌, length, take, drop, map,
}

-- The three channels of a pixel, in the order of the decoded image.
pub record Pixel : Type 0 where
  pub blue : ℕ
  pub green : ℕ
  pub red : ℕ

abbrev pub Image : Type 0
Image = List (List Pixel)

-- `img.shape`
abbrev pub height : Image → ℕ
height img = length img

abbrev pub width : Image → ℕ
width [] = 0
width (row ∷ _) = length row

-- `l[start:stop]`, for indices that are not negative
abbrev pub slice {ℓ} : {A : Type ℓ} → ℕ → ℕ → List A → List A
slice start stop l = take (stop - start) (drop start l)

-- The larger of a size and that of the window.
abbrev pub at_least : ℕ → ℕ → ℕ
at_least n m = if ltb n m then m else n

-- `cv2.resize(img, (width, height))` is a parameter.
module _ (resize : Image → ℕ → ℕ → Image) where
  -- The two enlargements.
  abbrev pub enlarge_height : Image → ℕ → Image
  enlarge_height img cropy = if ltb (height img) cropy then resize img (width img) cropy else img

  abbrev pub enlarge_width : Image → ℕ → ℕ → Image
  enlarge_width img x cropx = if ltb x cropx then resize img cropx (height img) else img

  unfoldable pub enlarged : Image → ℕ → ℕ → Image
  enlarged img cropx cropy = enlarge_width (enlarge_height img cropy) (width img) cropx

  unfoldable pub crop_resize : Image → ℕ → ℕ → Image
  crop_resize img cropx cropy =
      let x = at_least (width img) cropx in
      let y = at_least (height img) cropy in
      let startx = x / 2 - cropx / 2 in
      let starty = y / 2 - cropy / 2 in
      map (slice startx (startx + cropx)) (slice starty (starty + cropy) (enlarged img cropx cropy))
