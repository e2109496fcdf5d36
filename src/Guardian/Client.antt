-- ===== src/Guardian/Client.antt =====
-- The requests of `GuardianServiceClient` (guardian/common/guardian_service.py): `__post_request__` and
-- `__get_request__` resubmit while the service answers 429.
pub mod Retry
pub mod Methods
use pdo_contracts.Base.{
  ℕ, String, Bool, true, false, Option, none, some, List, [], ◌∷◌, ◌++◌, min, num_eq,
}
use pdo_contracts.Base.Exec.{Result, Exn, ok, err}
use pdo_contracts.Base.Json.{Json}

-- What one submission meets: an answer, or a `ConnectionError` or a `Timeout`. An answer has its
-- status, the number of milliseconds of its header `retry-after` if it has one (an exception if that
-- is no number), its text, and the value of `response.json()`.
pub data Attempt : Type 0 where
  answered : (status : ℕ) → Option (Result ℕ) → String → Result Json → Attempt
  broken : String → Attempt

pub data Failure : Type 0 where
  -- `MessageException` on an HTTP error, with status and text, and on a network error
  http_error : ℕ → String → Failure
  network_error : String → Failure
  -- an exception that the client does not catch
  uncaught : Exn → Failure

-- The result once the client returns or raises; `waiting` while every submission so far was put off.
pub data Reply : Type 0 where
  returned : Json → Reply
  failed : Failure → Reply
  waiting : Reply

abbrev pub body : Result Json → Reply
body (ok j) = returned j
body (err e) = failed (uncaught e)

-- `min(1.0, float(response.headers.get('retry-after', 1.0)))`, in milliseconds
abbrev pub sleep_time : Option (Result ℕ) → Result ℕ
sleep_time none = ok (min 1000 1000)
sleep_time (some (err e)) = err e
sleep_time (some (ok ms)) = ok (min 1000 ms)

-- `is_error` tells for which statuses `raise_for_status` raises.
module _ (is_error : ℕ → Bool) where
  abbrev pub finished : ℕ → String → Result Json → Reply
  finished status text json = elim (is_error status) [
    | true ↦ failed (http_error status text)
    | false ↦ body json
  ]

  -- The replies to the submissions, in their order, and the times that the client slept.
  unfoldable pub request : List Attempt → Reply × List ℕ
  request [] = (waiting, [])
  request (broken reason ∷ _) = (failed (network_error reason), [])
  request (answered status retry_after text json ∷ rest) =
      let later = request rest in
      elim (num_eq status 429) [
        | false ↦ (finished status text json, [])
        | true ↦ elim (sleep_time retry_after) [
          | err e ↦ (failed (uncaught e), [])
          | ok ms ↦ (later.0, ms ∷ later.1)
        ]
      ]
