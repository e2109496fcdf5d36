-- ===== src/Inference/Operation/Dispatch.antt =====
-- What the guardian answers for an inference.
use pdo_contracts.Base.{◌≡◌, none, some, arith}
use pdo_contracts.Base.Exec.{ok, err, validation_error}
use pdo_contracts.Base.Json.{Json}
use pdo_contracts.Platform.{Platform}
use pdo_contracts.Guardian.World.{World}
use pdo_contracts.Guardian.Http.{returned, error_response, unprocessable_entity}
use pdo_contracts.Guardian.Secrets.{validate_json}
use pdo_contracts.Guardian.ProcessCapability.{dispatch}
use pdo_contracts.Guardian.ProcessCapability.Replay.{dispatch_lem, dispatched}
use pdo_contracts.Inference.Scoring.{Vision, MiscParams}
use pdo_contracts.Inference.Operation.{
  Backend, infer, inference_schema, perform_inference, inference_operation,
}

module _ (P : Platform) (V : Vision) (B : Backend P V) (params : MiscParams) (arguments : Json)
    (w : World P) where
  -- Arguments that do not fit the schema are answered with "operation failed", and neither the store
  -- nor the model server is asked: nothing changes.
  pub dispatch-invalid :
      P.validate arguments inference_schema ≡ err validation_error
      → dispatch P (inference_operation P V B params) arguments w
        ≡ (returned (error_response "operation failed" none (some unprocessable_entity)), w)
  unfolding perform_inference validate_json
  dispatch-invalid invalid =
      ground (arith, dispatch_lem P (inference_operation P V B params) arguments w)

  -- Arguments that fit give the result of the inference; whatever it raises, such as the KeyError for
  -- the background class, is answered as an unknown exception.
  pub dispatch-valid :
      P.validate arguments inference_schema ≡ ok tt
      → dispatch P (inference_operation P V B params) arguments w ≡ (
          let (r, o) = infer P V B params arguments w.outside in
          (dispatched P r, record w { outside = o }))
  unfolding perform_inference validate_json
  dispatch-valid valid =
      ground (arith, dispatch_lem P (inference_operation P V B params) arguments w)
