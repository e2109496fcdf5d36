-- ===== src/Base/Exec.antt =====
-- Python code that mutates a state and may raise. What was written before a raise stays written.
use Prim.Native.String.{String}
use mathlib.Core.Path.{◌≡◌, refl}
use mathlib.Core.Logic.{◌⊎◌, inl, inr}
use mathlib.Core.Option.{Option, none, some}

-- The exceptions that the code tells apart; `other` is any other `Exception`, with its text.
pub data Exn : Type 0 where
  key_error : String → Exn
  validation_error : Exn
  other : String → Exn

pub data Result {ℓ} (A : Type ℓ) : Type ℓ where
  ok : A → Result A
  err : Exn → Result A

-- To split on a computed result and keep the equation.
pub Result-cases {ℓ} :
    {A : Type ℓ} (r : Result A) → ((a : A) × (r ≡ ok a)) ⊎ ((e : Exn) × (r ≡ err e))
Result-cases (ok a) = inl (a, refl)
Result-cases (err e) = inr (e, refl)

abbrev pub Action {ℓ} : Type ℓ → Type ℓ → Type ℓ
Action S A = S → Result A × S

module _ {ℓ} {S A : Type ℓ} where
  abbrev pub pure : A → Action S A
  pure a s = (ok a, s)

  abbrev pub raise : Exn → Action S A
  raise e s = (err e, s)

  abbrev pub lift : Result A → Action S A
  lift r s = (r, s)

  abbrev pub gets : (S → A) → Action S A
  gets f s = (ok (f s), s)

abbrev pub modify : {S : Type 0} → (S → S) → Action S Unit
modify f s = (ok tt, f s)

infixl 5 ◌>>=◌ ◌>>◌
abbrev pub ◌>>=◌ {ℓ} : {S A B : Type ℓ} → Action S A → (A → Action S B) → Action S B
◌>>=◌ m f s = let (r, s') = m s in elim r [ ok a ↦ f a s' | err e ↦ (err e, s') ]

abbrev pub ◌>>◌ : {S B : Type 0} → Action S Unit → Action S B → Action S B
m >> n = m >>= λ _. n

-- A pure step that may raise, and the rest.
infixl 5 ◌▷◌
abbrev pub ◌▷◌ {ℓ κ} : {A : Type ℓ} {B : Type κ} → Result A → (A → Result B) → Result B
ok a ▷ f = f a
err e ▷ f = err e

-- `d[k]`, where `found` is the lookup
abbrev pub or_key_error {ℓ} : {A : Type ℓ} → String → Option A → Result A
or_key_error k none = err (key_error k)
or_key_error k (some a) = ok a

-- The result of `try: m except KeyError: n`, from that of `m`.
abbrev pub on_key_error : {S A : Type 0} → Action S A → Result A × S → Result A × S
on_key_error n (ok a, s) = (ok a, s)
on_key_error n (err (key_error _), s) = n s
on_key_error n (err e, s) = (err e, s)

abbrev pub except_key_error : {S A : Type 0} → Action S A → Action S A → Action S A
except_key_error m n s = on_key_error n (m s)
