-- ===== src/Inference/Image/Window.antt =====
-- The window that is cut out.
use mathlib.Core.Path.{subst, sym}
use pdo_contracts.Base.{
  ℕ, zero, suc, ◌≡◌, refl, ◌+◌, ◌-◌, ◌/◌, ◌≤◌, ◌<◌, Bool-cases, inl, inr, ltb, List, [], ◌∷◌,
  length, take, drop, map, arith, length-take, length-drop, ◌∙◌,
}
use pdo_contracts.Inference.Image.{
  Image, Pixel, width, slice, at_least, enlarge_height, enlarge_width, enlarged, crop_resize,
}

-- Every row has a width.
abbrev pub HaveWidth : ℕ → Image → Type 0
HaveWidth w [] = Unit
HaveWidth w (row ∷ img) = (length row ≡ w) × HaveWidth w img

pub record HasShape (h w : ℕ) (img : Image) : Type 0 where
  pub rows : length img ≡ h
  pub columns : HaveWidth w img

HaveWidth-take : (n w : ℕ) (img : Image) → HaveWidth w img → HaveWidth w (take n img)
HaveWidth-take zero w img h = tt
HaveWidth-take (suc n) w [] h = tt
HaveWidth-take (suc n) w (row ∷ img) h = (h.0, HaveWidth-take n w img h.1)

HaveWidth-drop : (n w : ℕ) (img : Image) → HaveWidth w img → HaveWidth w (drop n img)
HaveWidth-drop zero w img h = h
HaveWidth-drop (suc n) w [] h = tt
HaveWidth-drop (suc n) w (row ∷ img) h = HaveWidth-drop n w img h.1

length-slice :
    {A : Type 0} (start n : ℕ) (l : List A)
    → start + n ≤ length l
    → length (slice start (start + n) l) ≡ n
length-slice start n l h =
    omega (arith, length-take (start + n - start) (drop start l), length-drop start l)

HaveWidth-slice :
    (start n w : ℕ) (img : Image)
    → start + n ≤ w
    → HaveWidth w img
    → HaveWidth n (map (slice start (start + n)) img)
HaveWidth-slice start n w [] fits h = tt
HaveWidth-slice start n w (row ∷ img) fits h =
    (length-slice start n row (omega (arith, h.0)), HaveWidth-slice start n w img fits h.1)

length-map : (f : List Pixel → List Pixel) (img : Image) → length (map f img) ≡ length img
length-map f [] = refl
length-map f (row ∷ img) = omega (arith, length-map f img)

width-HasShape : (h w : ℕ) (img : Image) → 0 < h → HasShape h w img → width img ≡ w
width-HasShape h w [] pos s = absurd (omega (arith, s.rows))
width-HasShape h w (row ∷ img) pos s = s.columns.0

-- Whatever the sizes, the window lies in the enlarged image: no index is negative or cut off.
window_fits : (n crop : ℕ) → at_least n crop / 2 - crop / 2 + crop ≤ at_least n crop
window_fits n crop = ground arith

-- What is relied on in `cv2.resize`: an image that is not empty gets the size that is asked for.
abbrev pub Resizes : (Image → ℕ → ℕ → Image) → Type 0
Resizes resize =
    (h w x y : ℕ) (img : Image)
    → 0 < h
    → 0 < w
    → 0 < x
    → 0 < y
    → HasShape h w img
    → HasShape y x (resize img x y)

module _ (resize : Image → ℕ → ℕ → Image) (resizes : Resizes resize) (h w : ℕ) (img : Image)
    (pos_h : 0 < h) (pos_w : 0 < w) (shape : HasShape h w img) where
  enlarge_height-HasShape :
      (cropy : ℕ) → HasShape (at_least h cropy) w (enlarge_height resize img cropy)
  enlarge_height-HasShape cropy = elim (Bool-cases (ltb h cropy)) [
    | inl small ↦
        rw (shape.rows, small, width-HasShape h w img pos_h shape)
          (resizes h w w cropy img pos_h pos_w pos_w (ground arith) shape)
    | inr large ↦ rw (shape.rows, large) shape
  ]

  enlarge_width-HasShape :
      (y cropx : ℕ) (tall : Image)
      → 0 < y
      → HasShape y w tall
      → HasShape y (at_least w cropx) (enlarge_width resize tall w cropx)
  enlarge_width-HasShape y cropx tall pos s = elim (Bool-cases (ltb w cropx)) [
    | inl small ↦ rw (small, s.rows) (resizes y w cropx y tall pos pos_w (ground arith) pos s)
    | inr large ↦ rw large s
  ]

  enlarged-HasShape :
      (cropx cropy : ℕ)
      → HasShape (at_least h cropy) (at_least w cropx) (enlarged resize img cropx cropy)
  unfolding enlarged
  enlarged-HasShape cropx cropy =
      subst
        (λ x.
          HasShape (at_least h cropy) (at_least w cropx)
            (enlarge_width resize (enlarge_height resize img cropy) x cropx))
        (sym (width-HasShape h w img pos_h shape))
        (enlarge_width-HasShape (at_least h cropy) cropx (enlarge_height resize img cropy)
          (ground arith) (enlarge_height-HasShape cropy))

  -- An image that is not empty, of any size, is cut to exactly the size of the window, if resizing does
  -- what it is asked.
  pub crop_resize-HasShape :
      (cropx cropy : ℕ) → HasShape cropy cropx (crop_resize resize img cropx cropy)
  unfolding crop_resize
  crop_resize-HasShape cropx cropy =
      let big = enlarged-HasShape cropx cropy in
      let startx = at_least w cropx / 2 - cropx / 2 in
      let starty = at_least h cropy / 2 - cropy / 2 in
      let cut = slice starty (starty + cropy) (enlarged resize img cropx cropy) in
      rw (shape.rows, width-HasShape h w img pos_h shape)
        (record {
          rows =
              length-map (slice startx (startx + cropx)) cut
              ∙ length-slice starty cropy (enlarged resize img cropx cropy)
                  (omega (arith, window_fits h cropy, big.rows));
          columns = HaveWidth-slice startx cropx (at_least w cropx) cut (window_fits w cropx) (
              HaveWidth-take (starty + cropy - starty) (at_least w cropx)
                (drop starty (enlarged resize img cropx cropy))
                (HaveWidth-drop starty (at_least w cropx) (enlarged resize img cropx cropy)
                  big.columns));
        })
