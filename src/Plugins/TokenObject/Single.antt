-- ===== src/Plugins/TokenObject/Single.antt =====
-- A token is transferred whole.
use pdo_contracts.Base.Dict.{lookup}
use pdo_contracts.Base.{
  none, some, Option-cases, string_eq, String, ◌≡◌, ◌⊎◌, inl, inr, true, arith, List, [], ◌∷◌,
}
use pdo_contracts.Base.Exec.{Result, ok, err, Exn, Result-cases}
use pdo_contracts.Base.Json.{Json, num, json_eq}
use pdo_contracts.Plugins.Client.{Client, Kwargs, transact, find_contract, public_key}
use pdo_contracts.Plugins.Client.Laws.{IsLawful, message_to, invoke-Sends}
use pdo_contracts.Plugins.Issuer.{op_transfer}
use pdo_contracts.Plugins.TokenObject.{single_count, cmd_transfer_assets}

abbrev no_contract : String
no_contract = "issuer contract must be created and initialized"

single_count-one :
    (kwargs rest : Kwargs)
    → single_count kwargs ≡ ok rest
    → (lookup "count" kwargs ≡ none) ⊎ (lookup "count" kwargs ≡ some (num "1"))
single_count-one kwargs rest h = elim (Option-cases (lookup "count" kwargs)) [
  | inl e ↦ inl e
  | inr (count, e) ↦ inr (ground arith)
]

module _ (K : Client) (L : IsLawful K) (context : K.Context) (new_owner : Json) (kwargs : Kwargs)
    (w : K.World) where
  -- The contract of the token, and the key of the new owner; a count, if there is one, is 1.
  pub record Transferable (file : String) (key : Json) : Type 0 where
    pub token : find_contract K no_contract context w ≡ ok file
    pub owner : public_key K new_owner w ≡ ok key
    pub single : (lookup "count" kwargs ≡ none) ⊎ (lookup "count" kwargs ≡ some (num "1"))

  -- Transferring a token raises and sends nothing, or sends one message, committed, to the token's
  -- contract: the transfer of 1 to the key of the new owner, where no count or the count 1 was given.
  pub cmd_transfer_assets-Transferable :
      let (r, w') = cmd_transfer_assets K context new_owner kwargs w in
      ((e : Exn) × (r ≡ err e) × (L.sent w' ≡ L.sent w))
      ⊎ ((file : String) × (key : Json) × (answer : Result String) × Transferable file key
          × (L.sent w'
              ≡ message_to K L file true "transfer"
                  (("new_owner_identity", key) ∷ ("count", num "1") ∷ [])
                  answer
                ∷ L.sent w))
  unfolding cmd_transfer_assets op_transfer
  cmd_transfer_assets-Transferable = elim (Result-cases (find_contract K no_contract context w)) [
    | inr (e, h) ↦ inl (e, ground arith, ground arith)
    | inl (file, h) ↦ elim (Result-cases (public_key K new_owner w)) [
      | inr (e, h₁) ↦ inl (e, ground arith, ground arith)
      | inl (key, h₁) ↦ elim (Result-cases (single_count kwargs)) [
        | inr (e, h₂) ↦ inl (e, ground arith, ground arith)
        | inl (rest, h₂) ↦
            let arguments : List (String × Json) =
              ("new_owner_identity", key) ∷ ("count", num "1") ∷ [] in
            let m =
              K.invoke_contract_op (transact K "transfer" arguments true) context
                (K.session_parameters file) rest w in
            elim (invoke-Sends K L "transfer" arguments true context file rest w) [
              | inr (e, h₃, s) ↦ inl (e, ground arith, ground arith)
              | inl s ↦ inr (
                file,
                key,
                m.0,
                record { token = h; owner = h₁; single = single_count-one kwargs rest h₂ },
                ground arith,
              )
            ]
      ]
    ]
  ]
