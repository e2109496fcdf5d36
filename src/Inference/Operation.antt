-- ===== src/Inference/Operation.antt =====
-- `InferenceOperation` (inference-contract/pdo/inference/operations/inference.py), as an operation of
-- the guardian.
pub mod Dispatch
use pdo_contracts.Base.{String, Bool, true, false, Option, none, some, List, [], ◌∷◌}
use pdo_contracts.Base.Exec.{Action, Result, ok, err, lift, pure, ◌>>=◌}
use pdo_contracts.Base.Json.{Json, null, str, dict, get_item}
use pdo_contracts.Platform.{Platform}
use pdo_contracts.Guardian.Secrets.{of_type, validate_json}
use pdo_contracts.Guardian.ProcessCapability.{Operation}
use pdo_contracts.Inference.Scoring.{
  Vision, MiscParams, Plane, preprocess_image, postprocess_inference_output,
}

abbrev pub inference_schema : Json
inference_schema = dict (
    ("type", str "object")
    ∷ (
      "properties",
      dict (
          ("encryption_key", of_type "string")
          ∷ ("state_hash", of_type "string")
          ∷ ("image_key", of_type "string")
          ∷ []),
    )
    ∷ [])

-- The key-value store and the model server, which the operation calls.
pub record Backend (P : Platform) (V : Vision) : Type 0 where
  -- `KeyValueStore(encryption_key, state_hash)`, opened, and the bytes that it has under a key
  pub stored_bytes : Json → Json → Json → Action P.Outside V.Bytes
  -- `create_request_package_for_image_input` and `invoke_predict`, with the configured names
  pub predict : List (List (Plane V)) → Action P.Outside V.Output

module _ (P : Platform) (V : Vision) (B : Backend P V) (params : MiscParams) where
  -- The work once the arguments are validated.
  unfoldable pub infer : Json → Action P.Outside Json
  infer arguments = do
    encryption_key ← lift (get_item arguments "encryption_key")
    state_hash ← lift (get_item arguments "state_hash")
    image_key ← lift (get_item arguments "image_key")
    image_bytes ← B.stored_bytes encryption_key state_hash image_key
    img ← lift (preprocess_image V params image_bytes)
    output ← B.predict img
    lift (postprocess_inference_output V output)

  -- `None`, which is `null` here, for arguments that do not fit the schema
  abbrev infer_if : Json → Bool → Action P.Outside Json
  infer_if arguments true = infer arguments
  infer_if arguments false = pure null

  unfoldable pub perform_inference : Json → Action P.Outside Json
  perform_inference arguments = do
    valid ← lift (validate_json P arguments inference_schema)
    infer_if arguments valid

  -- The operation has no attribute `unique_requests`.
  abbrev pub inference_operation : Operation P
  inference_operation = record { unique_requests = none; perform = perform_inference }
