-- ===== src/Plugins/TokenObject/Mint/Count.antt =====
-- How many tokens are minted.
use pdo_contracts.Base.{
  ◌≡◌, ◌⊎◌, inl, inr, ℕ, zero, suc, ◌+◌, ◌-◌, ◌<◌, ◌≤◌, Bool-cases, Option, some, List, [], ◌∷◌,
  ◌++◌, length, ltb, arith,
}
use mathlib.Core.List.{append-nil, append_assoc}
use pdo_contracts.Base.Exec.{Result, ok, err, Exn, Result-cases}
use pdo_contracts.Base.Json.{Json, str, list_of}
use pdo_contracts.Plugins.Client.{Client, Kwargs}
use pdo_contracts.Plugins.Ledger.{Ledger}
use pdo_contracts.Plugins.TokenObject.Mint.{
  mint_one_token, mint_next, mint_tokens, mint_configuration, cmd_mint_tokens,
}

module _ (K : Client) (D : Ledger K) where
  -- A round raises, or adds one token at the end.
  mint_next_cases :
      (context ti dg : K.Context) (kwargs : Kwargs) (minted : List Json) (w : K.World)
      → let r = (mint_next K D context ti dg kwargs minted w).0 in
        ((e : Exn) × (r ≡ err e)) ⊎ ((t : Json) × (r ≡ ok (minted ++ t ∷ [])))
  unfolding mint_next
  mint_next_cases context ti dg kwargs minted w =
      elim (Result-cases (mint_one_token K D context ti dg kwargs w).0) [
        | inr (e, h) ↦ inl (e, ground arith)
        | inl (file, h) ↦ inr (str file, ground arith)
      ]

  length-snoc : (l : List Json) (t : Json) → length (l ++ t ∷ []) ≡ length l + 1
  length-snoc [] t = omega arith
  length-snoc (x ∷ l) t = omega (arith, length-snoc l t)

  -- The loop with enough fuel raises, or adds exactly the tokens that are missing.
  pub mint_tokens_count :
      (fuel : ℕ) (context ti dg : K.Context) (kwargs : Kwargs) (n : ℕ) (minted : List Json)
      (w : K.World)
      → n - length minted < fuel
      → let r = (mint_tokens K D fuel context ti dg kwargs n minted w).0 in
        ((e : Exn) × (r ≡ err e))
        ⊎ ((new : List Json) × (r ≡ ok (some (minted ++ new))) × (length new ≡ n - length minted))
  unfolding mint_tokens
  mint_tokens_count zero context ti dg kwargs n minted w h = absurd (omega arith)
  mint_tokens_count (suc fuel) context ti dg kwargs n minted w h =
      elim (Bool-cases (ltb (length minted) n)) [
        | inr done ↦ inr ([], ground (arith, append-nil minted), ground arith)
        | inl more ↦ elim (mint_next_cases context ti dg kwargs minted w) [
          | inl (e, h₁) ↦ inl (e, ground arith)
          | inr (t, h₁) ↦
              let next = mint_next K D context ti dg kwargs minted w in
              elim (mint_tokens_count fuel context ti dg kwargs n (minted ++ t ∷ []) next.1
                (ground (arith, length-snoc minted t))) [
                  | inl (e, h₂) ↦ inl (e, ground arith)
                  | inr (new, h₂, h₃) ↦ inr (
                    t ∷ new,
                    ground (arith, append_assoc minted (t ∷ []) new),
                    ground (arith, length-snoc minted t),
                  )
                ]
        ]
      ]

  module _ (context : K.Context) (kwargs : Kwargs) where
    -- What the guards of the command found, and what was minted.
    pub record Minted (w : K.World) (r : Result (Option (List Json)) × K.World) : Type 0 where
      pub ti : K.Context
      pub dg : K.Context
      pub token_count : ℕ
      pub minted : List Json
      pub configured : mint_configuration K D context w ≡ (ok (ti, dg, token_count, minted), w)
      pub new : List Json
      pub returned : r.0 ≡ ok (some (minted ++ new))
      pub counted : length new ≡ token_count - length minted
      pub before : K.World
      pub saved :
          r.1 ≡ K.context_set context "token_save_file_list" (list_of (minted ++ new)) before

    mint_tokens_done :
        (fuel : ℕ) (ti dg : K.Context) (n : ℕ) (minted : List Json) (w : K.World)
        → n ≤ length minted
        → mint_tokens K D (suc fuel) context ti dg kwargs n minted w ≡ (ok (some minted), w)
    unfolding mint_tokens
    mint_tokens_done fuel ti dg n minted w h = ground arith

    -- Where the configured count is reached, the command sends nothing and mints nothing: it returns
    -- the list of tokens and saves it again.
    cmd_mint_tokens-again :
        (ti dg : K.Context) (n : ℕ) (minted : List Json) (w : K.World)
        → mint_configuration K D context w ≡ (ok (ti, dg, n, minted), w)
        → n ≤ length minted
        → cmd_mint_tokens K D context kwargs w
          ≡ (ok (some minted), K.context_set context "token_save_file_list" (list_of minted) w)
    unfolding cmd_mint_tokens
    cmd_mint_tokens-again ti dg n minted w h enough =
        ground (arith, mint_tokens_done (n - length minted) ti dg n minted w enough)
