-- ===== src/Inference/Classes.antt =====
-- `imagenet_classes` (inference-contract/pdo/inference/model_scoring_scripts/image_classes.py): a dict
-- with the keys from 0 on, as the list of its values, in parts of a hundred.
mod From0
mod From200
mod From400
mod From600
mod From800
use pdo_contracts.Base.{String, ℕ, ◌≡◌, refl, List, ◌++◌, length}
use pdo_contracts.Inference.Classes.From0.{classes_0, classes_100}
use pdo_contracts.Inference.Classes.From200.{classes_200, classes_300}
use pdo_contracts.Inference.Classes.From400.{classes_400, classes_500}
use pdo_contracts.Inference.Classes.From600.{classes_600, classes_700}
use pdo_contracts.Inference.Classes.From800.{classes_800, classes_900}

unfoldable pub imagenet_classes : List String
unfolding classes_0 classes_100 classes_200 classes_300 classes_400 classes_500 classes_600
    classes_700 classes_800 classes_900
imagenet_classes =
    (classes_0
      ++ (classes_100
          ++ (classes_200
              ++ (classes_300
                  ++ (classes_400
                      ++ (classes_500
                          ++ (classes_600 ++ (classes_700 ++ (classes_800 ++ classes_900)))))))))

pub length-imagenet_classes : length imagenet_classes ≡ 1000
unfolding imagenet_classes
length-imagenet_classes = refl
