-- ===== src/Jupyter/Tokens/Creation.antt =====
-- What a click on Create Issuer does, from the directory of an instance.
use pdo_contracts.Base.{
  Bool, not, ◌==◌, ◌<>◌, string_eq, ◌⊎◌, ◌&&◌, false, String, ◌≡◌, refl, arith, true, some, List,
  [], ◌∷◌, Bool-cases, inl, inr, ◌∙◌,
}
use pdo_contracts.Base.Dict.{Dict}
use pdo_contracts.Base.Json.{Json, str}
use pdo_contracts.Base.Exec.{Result, Exn, ok, err, other, Result-cases}
use pdo_contracts.Jupyter.Widgets.{Widgets}
use pdo_contracts.Jupyter.Notebooks.{Notebooks, instance_directory, instantiate_in}
use pdo_contracts.Jupyter.Notebooks.Instances.{instantiate_from_instance}
use pdo_contracts.Jupyter.Wallet.Import.{Upload}
use pdo_contracts.Jupyter.Tokens.Made.{Made, Unmade, instance_path, instantiate_in-cases}
use pdo_contracts.Jupyter.Tokens.{
  TokenClient, IssuerForm, Click, is_class, is_selected, store_upload, create_button_click,
}

-- Files are made and written without a change of directory.
pub record StaysPut (N : Notebooks) (T : TokenClient N) : Type 0 where
  pub getcwd-create :
      (dir suffix : String) (w : N.World)
      → N.getcwd (T.create_temporary dir suffix w).1 ≡ N.getcwd w
  pub getcwd-write :
      (name content : String) (w : N.World) → N.getcwd (T.write name content w).1 ≡ N.getcwd w

module _ (W : Widgets) (N : Notebooks) (T : TokenClient N) (f : IssuerForm W N) where
  -- A class that is a word, and something selected in each of the four drop-downs.
  abbrev pub is_filled : Bool
  is_filled =
      not (f.token_class == "")
      && T.is_word f.token_class
      && not (W.value f.issuer_identity == "")
      && not (W.value f.eservice_group == "")
      && not (W.value f.pservice_group == "")
      && not (W.value f.sservice_group == "")

  -- The values of the form under the names that the notebook gives them.
  abbrev pub values : String → Dict String Json
  values image_file_name =
      ("token_owner", str (W.value f.issuer_identity))
      ∷ ("token_class", str f.token_class)
      ∷ ("token_description", str f.token_description)
      ∷ ("count", T.int_value f.count)
      ∷ ("eservice_group", str (W.value f.eservice_group))
      ∷ ("pservice_group", str (W.value f.pservice_group))
      ∷ ("sservice_group", str (W.value f.sservice_group))
      ∷ ("border_width", T.int_value f.border_width)
      ∷ ("image_file", str image_file_name)
      ∷ []

  abbrev image_created : Result String × N.World
  image_created = T.create_temporary (T.expand "${data}" f.world) ".bmp" f.world

  -- The first image that was picked is in a new file.
  pub record Stored (image_file_name : String) (w' : N.World) : Type 0 where
    pub created : image_created.0 ≡ ok image_file_name
    pub upload : Upload
    pub others : List Upload
    pub picked : f.image_file ≡ upload ∷ others
    pub written : T.write image_file_name upload.content image_created.1 ≡ (ok tt, w')

  -- Why it is not: no file, no image, or the file is not written. In the last two cases it stays.
  pub data Unstored (e : Exn) (w' : N.World) : Type 0 where
    uncreated : image_created ≡ (err e, w') → Unstored e w'
    unpicked : (name : String) → image_created ≡ (ok name, w') → f.image_file ≡ [] → Unstored e w'
    unwritten :
        (name : String) (upload : Upload) (others : List Upload)
        → image_created.0 ≡ ok name
        → f.image_file ≡ upload ∷ others
        → T.write name upload.content image_created.1 ≡ (err e, w')
        → Unstored e w'

  store_upload-cases :
      (uploads : List Upload)
      → f.image_file ≡ uploads
      → let stored = store_upload W N T uploads f.world in
        ((name : String) × Stored name stored.1 × (stored.0 ≡ ok name))
        ⊎ ((e : Exn) × Unstored e stored.1 × (stored.0 ≡ err e))
  unfolding store_upload
  store_upload-cases [] picked = elim (Result-cases image_created.0) [
    | inr (e, h) ↦ inr (e, uncreated (ground arith), ground arith)
    | inl (name, h) ↦
        inr (other "tuple index out of range", unpicked name (ground arith) picked, ground arith)
  ]
  store_upload-cases (upload ∷ others) picked = elim (Result-cases image_created.0) [
    | inr (e, h) ↦ inr (e, uncreated (ground arith), ground arith)
    | inl (name, h) ↦ elim (Result-cases (T.write name upload.content image_created.1).0) [
      | inr (e, h₁) ↦ inr (e, unwritten name upload others h picked (ground arith), ground arith)
      | inl (done, h₁) ↦ inl (
        name,
        record {
          created = h;
          upload = upload;
          others = others;
          picked = picked;
          written = ground arith;
        },
        ground arith,
      )
    ]
  ]

  -- What a click does: a form that is not filled in is refused, and nothing outside changes; for any
  -- other the image is not stored, or the notebook is not made, and the click raises; or the notebook is
  -- there and the form shows the link to it.
  pub data Creates (family : String) (click : Click W N T (IssuerForm W N)) : Type 0 where
    refused :
        (r : Result (Unit {0})) (feedback : List String)
        → is_filled ≡ false
        → click ≡ some (r, record f { feedback = feedback })
        → Creates family click
    unstored :
        (e : Exn) (w' : N.World)
        → is_filled ≡ true
        → Unstored e w'
        → click ≡ some (err e, record f { feedback = []; world = w' })
        → Creates family click
    unmade :
        (name : String) (w : N.World) (e : Exn) (w' : N.World)
        → is_filled ≡ true
        → Stored name w
        → Unmade N family f.token_class (values name) w e w'
        → click ≡ some (err e, record f { feedback = []; world = w' })
        → Creates family click
    created :
        (name : String) (w : N.World) (letters : String) (w' : N.World)
        → is_filled ≡ true
        → Stored name w
        → Made N family f.token_class (values name) w letters w'
        → click
          ≡ some (
            ok tt,
            record f {
              feedback =
                  ("[Token Issuer]("
                    <> N.relpath (instance_path N family f.token_class letters) w'
                    <> ")")
                  ∷ [];
              world = w';
            },
          )
        → Creates family click

module _ (W : Widgets) (N : Notebooks) (T : TokenClient N) (S : StaysPut N T) where
  getcwd-store_upload :
      (uploads : List Upload) (w : N.World) → N.getcwd (store_upload W N T uploads w).1 ≡ N.getcwd w
  unfolding store_upload
  getcwd-store_upload [] w = ground (arith, S.getcwd-create (T.expand "${data}" w) ".bmp" w)
  getcwd-store_upload (upload ∷ _) w = grind (arith, S.getcwd-create, S.getcwd-write)

  -- From the directory of an instance of a family, a click on Create Issuer always ends. It is refused
  -- exactly where the class is no word or something is not selected. Otherwise the image that was
  -- picked is written to a new file, and the notebook is made in the family from its template, with the
  -- values of the form; where a step of this raises, or no image was picked, so does the click.
  pub create_button_click-Creates :
      (family current : String) (f : IssuerForm W N)
      → N.getcwd f.world ≡ instance_directory N family current
      → N.starts_with_root (instance_directory N family current) ≡ true
      → Creates W N T f family (create_button_click W N T f)
  unfolding create_button_click
  create_button_click-Creates family current f at starts =
      let s = store_upload W N T f.image_file f.world in
      elim (Bool-cases (is_class W N T f.token_class)) [
        | inr h ↦
            refused (ok tt) ("must specify value for token class" ∷ []) (ground arith)
              (ground arith)
        | inl h ↦ elim (Bool-cases (is_selected W N T f)) [
          | inr h₁ ↦ refused (err (other "AssertionError")) [] (ground arith) (ground arith)
          | inl h₁ ↦
              let filled : is_filled W N T f ≡ true = ground arith in
              elim (store_upload-cases W N T f f.image_file refl) [
                | inr (e, why, h₂) ↦ unstored e s.1 filled why (ground arith)
                | inl (name, stored, h₂) ↦
                    let parameters = values W N T f name in
                    let run =
                      instantiate_from_instance N family f.token_class "token_issuer" parameters
                        current s.1 (getcwd-store_upload f.image_file f.world ∙ at) starts in
                    let made =
                      instantiate_in N family f.token_class "token_issuer" parameters s.1 in
                    elim (instantiate_in-cases N family f.token_class parameters s.1) [
                      | inr (e, why, h₃) ↦
                          unmade name s.1 e made.1 filled stored why (ground (arith, run))
                      | inl (letters, there, h₃) ↦
                          created name s.1 letters made.1 filled stored there (ground (arith, run))
                    ]
              ]
        ]
      ]
