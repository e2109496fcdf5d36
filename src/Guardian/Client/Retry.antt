-- ===== src/Guardian/Client/Retry.antt =====
-- The client answers with the first submission that the service does not put off.
use pdo_contracts.Base.{ℕ, ◌≤◌, ◌≡◌, ◌≢◌, String, Bool, Option, List, [], ◌∷◌, ◌++◌, arith, length}
use pdo_contracts.Base.Exec.{Result, ok}
use pdo_contracts.Base.Json.{Json}
use pdo_contracts.Guardian.Client.{Attempt, answered, broken, sleep_time, finished, request}

-- A submission that the service puts off, with a readable delay or none.
abbrev pub IsPutOff : Attempt → Type 0
IsPutOff (broken _) = ⊥
IsPutOff (answered status retry_after _ _) =
    (status ≡ 429) × ((ms : ℕ) × (sleep_time retry_after ≡ ok ms))

abbrev pub AllPutOff : List Attempt → Type 0
AllPutOff [] = Unit
AllPutOff (a ∷ attempts) = IsPutOff a × AllPutOff attempts

abbrev pub AtMost : ℕ → List ℕ → Type 0
AtMost bound [] = Unit
AtMost bound (n ∷ ns) = (n ≤ bound) × AtMost bound ns

module _ (is_error : ℕ → Bool) where
  -- After any number of submissions that are put off, the client's result is that of the next one,
  -- whatever would come after it; it has slept once for each, and no longer than a second each time.
  pub request_answer :
      (before : List Attempt) (status : ℕ) (retry_after : Option (Result ℕ)) (text : String)
      (json : Result Json) (rest : List Attempt)
      → AllPutOff before
      → status ≢ 429
      → let (reply, sleeps) =
          request is_error (before ++ answered status retry_after text json ∷ rest) in
        (reply ≡ finished is_error status text json)
        × (length sleeps ≡ length before)
        × AtMost 1000 sleeps
  unfolding request
  request_answer [] status retry_after text json rest h ne = ground arith
  request_answer (broken reason ∷ before) status retry_after text json rest h ne = elim h.0 [ ]
  request_answer (answered s r t j ∷ before) status retry_after text json rest h ne =
      ground (arith, request_answer before status retry_after text json rest h.1 ne)
