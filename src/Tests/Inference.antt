-- ===== src/Tests/Inference.antt =====
-- Images of one colour, and a model that prefers a class.
use pdo_contracts.Base.{
  if◌then◌else◌, num_eq, ◌⊎◌, ◌≤◌, String, ◌≡◌, refl, ℕ, zero, suc, ◌-◌, true, some, [], ◌∷◌,
  replicate, length, arith,
}
use pdo_contracts.Base.Exec.{ok, err, key_error}
use pdo_contracts.Base.Json.{str, dict}
use pdo_contracts.Inference.Image.{Image, Pixel, crop_resize}
use pdo_contracts.Inference.Image.Window.{HaveWidth, HasShape, Resizes}
use pdo_contracts.Inference.Classes.{imagenet_classes}
use pdo_contracts.Inference.Scoring.{
  Vision, MiscParams, nth_class, planes, preprocess_image, postprocess_inference_output,
}
use pdo_contracts.Inference.Scoring.Shape.{preprocess_image-planes}
use pdo_contracts.Inference.Scoring.Labels.{postprocess_labels}

abbrev grey : Pixel
grey = record { blue = 1; green = 2; red = 3 }

abbrev grey_image : ℕ → ℕ → Image
grey_image x y = replicate y (replicate x grey)

-- An output is its best position among 1001 scores.
abbrev vision : Vision
vision = record {
  Bytes = ℕ;
  Float = ℕ;
  float32 = λ n. n;
  imdecode = λ n. some (grey_image n n);
  resize = λ img x y. grey_image x y;
  Output = ℕ;
  columns = λ o. 1001;
  argmax = λ o. o;
}

length-replicate : {A : Type 0} (n : ℕ) (a : A) → length (replicate n a) ≡ n
length-replicate zero a = refl
length-replicate (suc n) a = omega (arith, length-replicate n a)

HaveWidth-grey : (x y : ℕ) → HaveWidth x (grey_image x y)
HaveWidth-grey x zero = tt
HaveWidth-grey x (suc y) = (length-replicate x grey, HaveWidth-grey x y)

grey-HasShape : (x y : ℕ) → HasShape y x (grey_image x y)
grey-HasShape x y = record {
  rows = length-replicate y (replicate x grey);
  columns = HaveWidth-grey x y;
}

vision-Resizes : Resizes vision.resize
vision-Resizes h w x y img ph pw px py s = grey-HasShape x y

abbrev two_rgb : MiscParams
two_rgb = record { size = 2; rgb_image = true }

preprocess_image-planes_example :
    let window = crop_resize vision.resize (grey_image 5 5) 2 2 in
    HasShape 2 2 window × (preprocess_image vision two_rgb 5 ≡ ok (planes vision true window ∷ []))
preprocess_image-planes_example =
    preprocess_image-planes vision two_rgb 5 (grey_image 5 5) 5 5 vision-Resizes refl (omega arith)
      (omega arith) (grey-HasShape 5 5)

postprocess_labels_example :
    let skipped : ℕ = if num_eq (vision.columns 1) 1001 then 1 else 0 in
    ((skipped ≤ vision.argmax 1)
      × (c : String) × (nth_class (vision.argmax 1 - skipped) imagenet_classes ≡ some c)
      × (postprocess_inference_output vision 1 ≡ ok (dict (("image_class", str c) ∷ []))))
    ⊎ ((vision.columns 1 ≡ 1001)
        × (vision.argmax 1 ≡ 0)
        × (postprocess_inference_output vision 1 ≡ err (key_error "-1")))
postprocess_labels_example = postprocess_labels vision 1 (omega arith) (omega arith)
