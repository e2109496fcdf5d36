-- ===== src/Inference/Scoring.antt =====
-- `ImageClassification` (inference-contract/pdo/inference/model_scoring_scripts/image_classification.py).
pub mod Shape
pub mod Labels
use pdo_contracts.Base.{
  String, ℕ, zero, suc, ◌+◌, ◌-◌, ◌*◌, Bool, true, false, if◌then◌else◌, ltb, num_eq, Option, none,
  some, List, [], ◌∷◌, ◌++◌, length, take, drop, map,
}
use pdo_contracts.Base.Exec.{Result, ok, err, key_error, other, or_key_error, ◌▷◌}
use pdo_contracts.Base.Json.{Json, str, dict}
use pdo_contracts.Inference.Image.{Image, Pixel, crop_resize}
use pdo_contracts.Inference.Classes.{imagenet_classes}

-- OpenCV and numpy, which the script calls.
pub record Vision : Type 1 where
  pub Bytes : Type 0
  pub Float : Type 0
  pub float32 : ℕ → Float
  -- `cv2.imdecode`, which gives `None` for what is no image
  pub imdecode : Bytes → Option Image
  pub resize : Image → ℕ → ℕ → Image
  -- the output of a model: `np.array(output)`, with `shape[1]` and `np.argmax`
  pub Output : Type 0
  pub columns : Output → ℕ
  pub argmax : Output → ℕ

-- `self.misc_params`; `rgb_image` is a truth value.
pub record MiscParams : Type 0 where
  pub size : ℕ
  pub rgb_image : Bool

module _ {ℓ} {A : Type ℓ} where
  -- The elements in the order of memory, and the rows of a width that a new shape makes of them.
  unfoldable pub flat : List (List A) → List A
  flat [] = []
  flat (row ∷ rows) = row ++ flat rows

  unfoldable pub chunks : ℕ → ℕ → List A → List (List A)
  chunks zero n l = []
  chunks (suc k) n l = take n l ∷ chunks k n (drop n l)

-- `imagenet_classes[int(ma)]`, by position
abbrev pub nth_class : ℕ → List String → Option String
nth_class n [] = none
nth_class zero (c ∷ l) = some c
nth_class (suc n) (c ∷ l) = nth_class n l

-- The table has no negative key.
unfoldable pub class_of : ℕ → ℕ → Result String
class_of ma skipped =
    if ltb ma skipped
    then err (key_error "-1")
    else or_key_error "class" (nth_class (ma - skipped) imagenet_classes)

module _ (V : Vision) where
  abbrev pub Plane : Type 0
  Plane = List (List V.Float)

  abbrev pub plane : (Pixel → ℕ) → Image → Plane
  plane channel img = map (map (λ p. V.float32 (channel p))) img

  -- The channels after `img[:, :, [2, 1, 0]]`, and `transpose(2, 0, 1)`: a plane for each
  abbrev pub planes : Bool → Image → List Plane
  planes true img = plane (λ p. p.red) img ∷ plane (λ p. p.green) img ∷ plane (λ p. p.blue) img ∷ []
  planes false img =
      plane (λ p. p.blue) img ∷ plane (λ p. p.green) img ∷ plane (λ p. p.red) img ∷ []

  -- `reshape(1, 3, size, size)`, which raises unless the number of elements is the same
  unfoldable pub reshape : ℕ → List Plane → Result (List (List Plane))
  reshape size channels =
      let elements = flat (map flat channels) in
      if num_eq (length elements) (3 * (size * size))
      then ok (map (chunks size size) (chunks 3 (size * size) elements) ∷ [])
      else err (other "cannot reshape array")

  abbrev decoded : Option Image → Result Image
  decoded none = err (other "'NoneType' object has no attribute 'shape'")
  decoded (some img) = ok img

  unfoldable pub preprocess_image : MiscParams → V.Bytes → Result (List (List Plane))
  preprocess_image params image_bytes = decoded (V.imdecode image_bytes) ▷ λ img.
      reshape params.size
        (planes params.rgb_image (crop_resize V.resize img params.size params.size))

  -- 1 for a model with a background class
  abbrev pub offset : V.Output → ℕ
  offset output = if num_eq (V.columns output) 1001 then 1 else 0

  unfoldable pub postprocess_inference_output : V.Output → Result Json
  postprocess_inference_output output =
      class_of (V.argmax output) (offset output) ▷ λ classification_label.
      ok (dict (("image_class", str classification_label) ∷ []))
