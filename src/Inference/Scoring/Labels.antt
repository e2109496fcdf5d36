-- ===== src/Inference/Scoring/Labels.antt =====
-- The label of a classification.
use pdo_contracts.Base.{
  String, ◌≡◌, refl, ℕ, zero, suc, ◌-◌, ◌<◌, ◌≤◌, some, inl, inr, ◌⊎◌, num_eq, ltb, if◌then◌else◌,
  Bool-cases, List, [], ◌∷◌, length, arith,
}
use pdo_contracts.Base.Exec.{ok, err, key_error}
use pdo_contracts.Base.Json.{str, dict}
use pdo_contracts.Inference.Classes.{imagenet_classes, length-imagenet_classes}
use pdo_contracts.Inference.Scoring.{
  Vision, nth_class, offset, class_of, postprocess_inference_output,
}

nth_class_of_lt : (n : ℕ) (l : List String) → n < length l → (c : String) × (nth_class n l ≡ some c)
nth_class_of_lt n [] h = absurd (omega arith)
nth_class_of_lt zero (c ∷ l) h = (c, refl)
nth_class_of_lt (suc n) (c ∷ l) h = nth_class_of_lt n l (omega arith)

class_of_lem :
    (ma skipped : ℕ)
    → skipped ≤ ma
    → ma - skipped < 1000
    → (c : String) × (nth_class (ma - skipped) imagenet_classes ≡ some c)
      × (class_of ma skipped ≡ ok c)
unfolding class_of
class_of_lem ma skipped le lt =
    let (c, h) =
      nth_class_of_lt (ma - skipped) imagenet_classes (omega (arith, length-imagenet_classes)) in
    (c, h, ground arith)

class_of-err : (ma skipped : ℕ) → ma < skipped → class_of ma skipped ≡ err (key_error "-1")
unfolding class_of
class_of-err ma skipped lt = ground arith

module _ (V : Vision) (output : V.Output) (row : V.argmax output < V.columns output) where
  -- With one row of 1000 scores the answer is the class of the highest score, by its position in the
  -- table. With 1001 it is the class one position before; where the first of these, the background, is
  -- the highest, a KeyError is raised in place of an answer.
  pub postprocess_labels :
      V.columns output ≤ 1001
      → let skipped : ℕ = if num_eq (V.columns output) 1001 then 1 else 0 in
        ((skipped ≤ V.argmax output)
          × (c : String) × (nth_class (V.argmax output - skipped) imagenet_classes ≡ some c)
          × (postprocess_inference_output V output ≡ ok (dict (("image_class", str c) ∷ []))))
        ⊎ ((V.columns output ≡ 1001)
            × (V.argmax output ≡ 0)
            × (postprocess_inference_output V output ≡ err (key_error "-1")))
  unfolding postprocess_inference_output
  postprocess_labels small =
      let skipped = offset V output in
      elim (Bool-cases (ltb (V.argmax output) skipped)) [
        | inr le ↦
            let (c, h, e) = class_of_lem (V.argmax output) skipped (ground arith) (ground arith) in
            inl (ground arith, c, h, ground arith)
        | inl lt ↦
            inr (ground arith, ground arith, ground (arith, class_of-err (V.argmax output) skipped))
      ]
