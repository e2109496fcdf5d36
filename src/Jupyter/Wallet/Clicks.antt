-- ===== src/Jupyter/Wallet/Clicks.antt =====
-- What a click on Transfer commits.
use pdo_contracts.Base.{
  not, ◌&&◌, String, ◌==◌, string_eq, ◌≡◌, refl, arith, num_eq, Bool, true, false, some, List, [],
  ◌∷◌, Bool-cases, ◌⊎◌, inl, inr,
}
use pdo_contracts.Base.Exec.{Result, Exn, ok, err, Result-cases}
use pdo_contracts.Base.Json.{Json, str}
use pdo_contracts.Plugins.Client.{Client, Kwargs, transact, find_contract, public_key}
use pdo_contracts.Plugins.Client.Laws.{Sent, IsLawful, committed, message_to, invoke-Sends}
use pdo_contracts.Plugins.Issuer.{op_transfer, cmd_transfer_assets}
use pdo_contracts.Jupyter.Widgets.{Widgets}
use pdo_contracts.Jupyter.Wallet.{WalletClient, asset_context, transfer_assets, or_identity}
use pdo_contracts.Jupyter.Wallet.Transfer.{
  TransferForm, transfer, after_transfer, try_transfer, submit_button_click, clear_output,
}
use pdo_contracts.Jupyter.Wallet.Quiet.{IsQuiet, trades, Quiet, reset_widget-Quiet}

abbrev uninitialized : String
uninitialized = "issuer contract must be created and initialized"

module _ (K : Client) (L : IsLawful K) (C : WalletClient K) (Q : IsQuiet K L C) where
  -- A transfer of a count to the key of its new owner, as a message to the issuer of a context.
  pub record Transferred (c : K.Context) (count new_owner : Json) (w : K.World) (m : Sent)
      : Type 0 where
    pub file : String
    pub key : Json
    pub answer : Result String
    pub issuer : find_contract K uninitialized c w ≡ ok file
    pub owner : public_key K new_owner w ≡ ok key
    pub message :
        m
        ≡ message_to K L file true "transfer"
            (("new_owner_identity", key) ∷ ("count", count) ∷ [])
            answer

  -- The call raised and nothing was committed, or one such transfer.
  abbrev AtMostOne : K.Context → Json → Json → K.World → Result Bool × K.World → Type 0
  AtMostOne c count new_owner w (r, w') =
      ((e : Exn) × (r ≡ err e) × (trades K L C Q w' ≡ trades K L C Q w))
      ⊎ ((m : Sent) × Transferred c count new_owner w m
          × (trades K L C Q w' ≡ m ∷ trades K L C Q w))

  cmd_transfer_assets-AtMostOne :
      (c : K.Context) (count new_owner : Json) (kwargs : Kwargs) (w : K.World)
      → AtMostOne c count new_owner w (cmd_transfer_assets K c new_owner count kwargs w)
  unfolding cmd_transfer_assets op_transfer committed
  cmd_transfer_assets-AtMostOne c count new_owner kwargs w =
      elim (Result-cases (find_contract K uninitialized c w)) [
        | inr (e, h) ↦ inl (e, ground arith, ground arith)
        | inl (file, h) ↦ elim (Result-cases (public_key K new_owner w)) [
          | inr (e, h₁) ↦ inl (e, ground arith, ground arith)
          | inl (key, h₁) ↦
              let arguments : List (String × Json) =
                ("new_owner_identity", key) ∷ ("count", count) ∷ [] in
              elim (invoke-Sends K L "transfer" arguments true c file kwargs w) [
                | inr (e, r, s) ↦ inl (e, ground (arith, r), ground (arith, s))
                | inl s ↦
                    let answer =
                      (K.invoke_contract_op (transact K "transfer" arguments true) c
                        (K.session_parameters file) kwargs w).0 in
                    inr (
                      message_to K L file true "transfer" arguments answer,
                      record {
                        file = file;
                        key = key;
                        answer = answer;
                        issuer = h;
                        owner = h₁;
                        message = refl;
                      },
                      ground (arith, s),
                    )
              ]
        ]
      ]

  transfer_assets-AtMostOne :
      (wallet_path asset_handle owner : String) (count new_owner : Json) (w : K.World)
      (c : K.Context)
      → asset_context K C wallet_path asset_handle "issuer" w ≡ ok c
      → AtMostOne c count new_owner w
          (transfer_assets K C wallet_path asset_handle count new_owner (some owner) w)
  unfolding transfer_assets
  transfer_assets-AtMostOne wallet_path asset_handle owner count new_owner w c found =
      let arguments : List (String × Json) =
        ("identity", or_identity K C wallet_path (some owner) c w) ∷ [] in
      let run =
        Q.commanded (λ c' kwargs. cmd_transfer_assets K c' new_owner count kwargs) c arguments w in
      elim (Result-cases (Q.effective_kwargs c arguments w)) [
        | inr (e, h) ↦ inl (e, ground (arith, run), ground (arith, run))
        | inl (kwargs, h) ↦ elim (cmd_transfer_assets-AtMostOne c count new_owner kwargs w) [
          | inl (e, r, s) ↦ inl (e, ground (arith, run, r), ground (arith, run, s))
          | inr (m, t, s) ↦ inr (m, t, ground (arith, run, s))
        ]
      ]

module _ (W : Widgets) (K : Client) (L : IsLawful K) (C : WalletClient K) (Q : IsQuiet K L C)
    (wallet_path : String) where
  -- The guards of the click.
  abbrev pub is_ready : TransferForm W K → Bool
  is_ready f =
      not (W.value f.source == "unknown")
      && not (num_eq f.balance 0)
      && not (W.value f.new_owner == "unknown")

  -- A form that asks for a transfer: a source of the wallet, with its issuer's context, an amount, and a
  -- new owner.
  pub record Asks (f : TransferForm W K) (c : K.Context) : Type 0 where
    pub source_known : (W.value f.source == "unknown") ≡ false
    pub some_assets : num_eq f.balance 0 ≡ false
    pub owner_known : (W.value f.new_owner == "unknown") ≡ false
    pub found : asset_context K C wallet_path (W.value f.source) "issuer" f.world ≡ ok c

  -- The transfer that a form asks for was committed.
  abbrev pub Committed : TransferForm W K → K.World → Type 0
  Committed f w' =
      (c : K.Context) × (m : Sent) × Asks f c
      × Transferred K L C Q c (C.int_value f.balance) (str (W.value f.new_owner)) f.world m
      × (trades K L C Q w' ≡ m ∷ trades K L C Q f.world)

  -- Nothing was committed: the form does not ask for a transfer, or the transfer raised.
  abbrev pub Unsent : TransferForm W K → K.World → Type 0
  Unsent f w' =
      (trades K L C Q w' ≡ trades K L C Q f.world)
      × ((is_ready f ≡ false) ⊎ ((e : Exn) × ((transfer W K C wallet_path f).0 ≡ err e)))

  transfer_assets-lost :
      (asset_handle owner : String) (count new_owner : Json) (w : K.World) (e : Exn)
      → asset_context K C wallet_path asset_handle "issuer" w ≡ err e
      → transfer_assets K C wallet_path asset_handle count new_owner (some owner) w ≡ (err e, w)
  unfolding transfer_assets
  transfer_assets-lost asset_handle owner count new_owner w e lost = ground (arith, lost)

  after_transfer-Quiet :
      (r : Result Bool) → Quiet W K L C Q wallet_path (after_transfer W K C wallet_path r)
  after_transfer-Quiet (err e) f = refl
  after_transfer-Quiet (ok b) f = grind (arith, reset_widget-Quiet W K L C Q wallet_path)

  try_transfer-Committed :
      (f : TransferForm W K)
      → (W.value f.source == "unknown") ≡ false
      → num_eq f.balance 0 ≡ false
      → (W.value f.new_owner == "unknown") ≡ false
      → let w' = (try_transfer W K C wallet_path f).1.world in Unsent f w' ⊎ Committed f w'
  try_transfer-Committed f h h₁ h₂ =
      let t = transfer W K C wallet_path f in
      let rest = after_transfer-Quiet t.0 t.1 in
      elim (Result-cases (asset_context K C wallet_path (W.value f.source) "issuer" f.world)) [
        | inr (e, h₃) ↦
            let lost =
              transfer_assets-lost (W.value f.source) f.old_owner (C.int_value f.balance)
                (str (W.value f.new_owner)) f.world e h₃ in
            inl (ground (arith, rest, lost), inr (e, ground (arith, lost)))
        | inl (c, h₃) ↦
            elim (transfer_assets-AtMostOne K L C Q wallet_path (W.value f.source) f.old_owner
              (C.int_value f.balance) (str (W.value f.new_owner)) f.world c h₃) [
                | inl (e, r, s) ↦ inl (ground (arith, rest, s), inr (e, ground (arith, r)))
                | inr (m, t, s) ↦ inr (
                  c,
                  m,
                  record { source_known = h; some_assets = h₁; owner_known = h₂; found = h₃ },
                  t,
                  ground (arith, rest, s),
                )
              ]
      ]

  Unsent-clear :
      (f : TransferForm W K)
      → let f₀ = (clear_output W K C wallet_path f).1 in
        (is_ready f₀ ≡ false) ⊎ ((e : Exn) × ((transfer W K C wallet_path f₀).0 ≡ err e))
        → (is_ready f ≡ false) ⊎ ((e : Exn) × ((transfer W K C wallet_path f).0 ≡ err e))
  Unsent-clear f (inl h) = inl h
  Unsent-clear f (inr (e, h)) = inr (e, ground (arith, h))

  -- A click on Transfer, where a source of the wallet, an amount and a new owner are selected and the
  -- transfer does not raise, commits one transaction: the transfer of that amount to the key of that
  -- owner, sent to the issuer of the source. Otherwise it commits this one, or none.
  pub submit_button_click-Transfers :
      (f : TransferForm W K)
      → let w' = (submit_button_click W K C wallet_path f).1.world in Unsent f w' ⊎ Committed f w'
  unfolding submit_button_click
  submit_button_click-Transfers f =
      let f₀ = (clear_output W K C wallet_path f).1 in
      elim (Bool-cases (W.value f.source == "unknown")) [
        | inl h ↦ inl (ground arith, inl (ground arith))
        | inr h ↦ elim (Bool-cases (num_eq f.balance 0)) [
          | inl h₁ ↦ inl (ground arith, inl (ground arith))
          | inr h₁ ↦ elim (Bool-cases (W.value f.new_owner == "unknown")) [
            | inl h₂ ↦ inl (ground arith, inl (ground arith))
            | inr h₂ ↦ elim (try_transfer-Committed f₀ h h₁ h₂) [
              | inl (s, why) ↦ inl (ground (arith, s), Unsent-clear f why)
              | inr (c, m, a, t, s) ↦ inr (
                c,
                m,
                record { source_known = h; some_assets = h₁; owner_known = h₂; found = a.found },
                t,
                ground (arith, s),
              )
            ]
          ]
        ]
      ]
