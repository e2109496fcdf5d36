-- ===== src/Guardian/Http.antt =====
-- A request handler (`__call__` of an app in guardian/wsgi): code that mutates the shared state, may
-- raise, and may leave early with a response.
use pdo_contracts.Base.{
  ℕ, ◌≡◌, refl, ◌⊎◌, inl, inr, String, Option, none, some, List, [], ◌∷◌, Bool, true, false,
}
use pdo_contracts.Base.Exec.{Action, Result, Exn, ok, err, key_error}
use pdo_contracts.Base.Json.{Json}
use pdo_contracts.Platform.{Platform}

-- The members of `http.HTTPStatus` that the handlers name.
pub data HttpStatus : Type 0 where
  unauthorized not_found unprocessable_entity : HttpStatus

-- The value of a header; `decimal n` is `str(n)`.
pub data Header : Type 0 where
  plain : String → Header
  decimal : ℕ → Header

-- `ErrorResponse(start_response, message, status)` with the exception that the message formats and
-- the status if one is given; or `start_response(status, headers)` and the body.
pub data Response (P : Platform) : Type 0 where
  error_response : String → Option Exn → Option HttpStatus → Response P
  reply : String → List (String × Header) → P.Bytes → Response P

-- How a handler's code goes on: with a value, by an exception, or not at all after `return`.
pub data Outcome (P : Platform) (A : Type 0) : Type 0 where
  value : A → Outcome P A
  raised : Exn → Outcome P A
  returned : Response P → Outcome P A

abbrev pub Handler : Platform → Type 0 → Type 0 → Type 0
Handler P S A = S → Outcome P A × S

abbrev from_result : {P : Platform} {A : Type 0} → Result A → Outcome P A
from_result (ok a) = value a
from_result (err e) = raised e

module _ {P : Platform} {S A : Type 0} where
  -- A call of code that is no handler.
  abbrev pub call : Action S A → Handler P S A
  call m s = let (r, s') = m s in (from_result r, s')

  abbrev pub yields : A → Handler P S A
  yields a s = (value a, s)

  abbrev pub respond : Response P → Handler P S A
  respond r s = (returned r, s)

module _ {P : Platform} {S A B : Type 0} where
  abbrev continue : (A → Handler P S B) → Outcome P A × S → Outcome P B × S
  continue f (value a, s) = f a s
  continue f (raised e, s) = (raised e, s)
  continue f (returned r, s) = (returned r, s)

  infixl 5 ◌>>=◌
  abbrev pub ◌>>=◌ : Handler P S A → (A → Handler P S B) → Handler P S B
  ◌>>=◌ m f s = continue f (m s)

infixl 5 ◌>>◌
abbrev pub ◌>>◌ : {P : Platform} {S B : Type 0} → Handler P S Unit → Handler P S B → Handler P S B
m >> n = m >>= λ _. n

-- `if test : return response`
abbrev pub return_if : {P : Platform} {S : Type 0} → Bool → Response P → Handler P S Unit
return_if true r s = (returned r, s)
return_if false r s = (value tt, s)

-- `try: m except KeyError: f except Exception: g`, where both clauses return a response
abbrev handled :
    {P : Platform} {A : Type 0}
    → (Exn → Response P)
    → (Exn → Response P)
    → Outcome P A
    → Outcome P A
handled f g (value a) = value a
handled f g (raised (key_error k)) = returned (f (key_error k))
handled f g (raised e) = returned (g e)
handled f g (returned r) = returned r

abbrev pub excepting :
    {P : Platform} {S A : Type 0}
    → (Exn → Response P)
    → (Exn → Response P)
    → Handler P S A
    → Handler P S A
excepting f g m s = let (o, s') = m s in (handled f g o, s')

-- What the server gets: a response, or the exception that left the handler.
abbrev finish : {P : Platform} → Outcome P (Response P) → Result (Response P)
finish (value r) = ok r
finish (raised e) = err e
finish (returned r) = ok r

abbrev pub serve : {P : Platform} {S : Type 0} → Handler P S (Response P) → Action S (Response P)
serve m s = let (o, s') = m s in (finish o, s')

-- `ErrorResponse` without and with an exception in its message, under the default status.
abbrev pub refusal : {P : Platform} → String → Response P
refusal message = error_response message none none

abbrev pub refusal_about : {P : Platform} → String → Exn → Response P
refusal_about message e = error_response message (some e) none

-- The success replies: the JSON text as UTF-8, with its length.
unfoldable pub json_reply : (P : Platform) → Json → Response P
json_reply P j =
    let result = P.utf8 (P.json_dumps j) in
    reply "200 OK"
      (("Content-Type", plain "application/json")
        ∷ ("Content-Length", decimal (P.byte_length result))
        ∷ [])
      result

unfoldable pub octet_reply : (P : Platform) → Json → Response P
octet_reply P j =
    let result = P.utf8 (P.json_dumps j) in
    reply "200 OK"
      (("Content-Type", plain "application/octet-stream")
        ∷ ("Content-Transfer-Encoding", plain "utf-8")
        ∷ ("Content-Length", decimal (P.byte_length result))
        ∷ [])
      result

-- To split on a computed outcome: it goes on with a value, or it ends.
abbrev pub Ends : {P : Platform} {A : Type 0} → Outcome P A → Type 0
Ends (value _) = ⊥
Ends (raised _) = Unit
Ends (returned _) = Unit

pub Outcome-cases :
    {P : Platform} {A : Type 0} (o : Outcome P A) → ((a : A) × (o ≡ value a)) ⊎ Ends o
Outcome-cases (value a) = inl (a, refl)
Outcome-cases (raised e) = inr tt
Outcome-cases (returned r) = inr tt
