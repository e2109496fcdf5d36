-- ===== src/Plugins/Client/Laws.antt =====
-- What the plugins rely on in the client library.
use pdo_contracts.Base.{String, ◌≡◌, ◌⊎◌, inl, inr, Bool, if◌then◌else◌, arith, List, [], ◌∷◌}
use pdo_contracts.Base.Dict.{Dict}
use pdo_contracts.Base.Exec.{Action, Result, ok, err, Exn, Result-cases, lift, ◌>>=◌}
use pdo_contracts.Base.Json.{Json}
use pdo_contracts.Plugins.Client.{Client, Kwargs, transact, invoke_json}

-- A message that a contract was sent, and its answer.
pub record Sent : Type 0 where
  pub save_file : String
  pub commit : Bool
  pub message : Json
  pub answer : Result String

-- The messages of transactions that were to be committed.
unfoldable pub committed : List Sent → List Sent
committed [] = []
committed (m ∷ ms) = let rest = committed ms in if m.commit then m ∷ rest else rest

pub record IsLawful (K : Client) : Type 1 where
  -- The messages sent so far, the latest first: one for each call of `send_to_contract`.
  pub sent : K.World → List Sent
  pub save_file : K.Session → String
  pub commit : K.Session → Bool
  pub save_file-session : (f : String) → save_file (K.session_parameters f) ≡ f
  pub save_file-set : (b : Bool) (s : K.Session) → save_file (K.set_commit b s) ≡ save_file s
  pub commit-set : (b : Bool) (s : K.Session) → commit (K.set_commit b s) ≡ b
  pub sent-send :
      (m : Json) (s : K.Session) (w : K.World)
      → sent (K.send_to_contract m s w).1
        ≡ record {
          save_file = save_file s;
          commit = commit s;
          message = m;
          answer = (K.send_to_contract m s w).0;
        }
          ∷ sent w
  -- `invoke_contract_op` runs the operation with a session for the same contract, or raises.
  pub effective : K.Context → K.Session → Kwargs → K.World → Result K.Session
  pub effective_file :
      (c : K.Context) (s s' : K.Session) (kwargs : Kwargs) (w : K.World)
      → effective c s kwargs w ≡ ok s'
      → save_file s' ≡ save_file s
  pub invoked :
      {A : Type 0} (op : K.Session → Action K.World A) (c : K.Context) (s : K.Session)
      (kwargs : Kwargs) (w : K.World)
      → K.invoke_contract_op op c s kwargs w ≡ (lift (effective c s kwargs w) >>= op) w
  -- Contracts and contexts are made without messages to contracts.
  pub sent-create :
      (c : K.Context) (contract_class : String) (kwargs : Kwargs) (w : K.World)
      → sent (K.create_contract_from_context c contract_class kwargs w).1 ≡ sent w
  pub sent-set :
      (c : K.Context) (k : String) (j : Json) (w : K.World) → sent (K.context_set c k j w) ≡ sent w
  -- Asking for a contract's key commits nothing.
  pub key_committed :
      (s : K.Session) (w : K.World)
      → committed (sent (K.op_get_verifying_key s w).1) ≡ committed (sent w)

module _ (K : Client) (L : IsLawful K) where
  -- A message to the contract of a save file.
  abbrev pub message_to : String → Bool → String → Dict String Json → Result String → Sent
  message_to file b method arguments a = record {
    save_file = file;
    commit = b;
    message = K.invocation_request method arguments;
    answer = a;
  }

  -- One message was sent, and its answer is the result; or none was, and the call raised.
  abbrev pub Sends :
      String → Bool → String → Dict String Json → K.World → Result String × K.World → Type 0
  Sends file b method arguments w (r, w') =
      (L.sent w' ≡ message_to file b method arguments r ∷ L.sent w)
      ⊎ ((e : Exn) × (r ≡ err e) × (L.sent w' ≡ L.sent w))

  pub transact-sent :
      (method : String) (arguments : Dict String Json) (b : Bool) (s : K.Session) (w : K.World)
      → L.sent (transact K method arguments b s w).1
        ≡ message_to (L.save_file s) b method arguments (transact K method arguments b s w).0
          ∷ L.sent w
  transact-sent method arguments b s w = ground (
    arith,
    L.sent-send (K.invocation_request method arguments) (K.set_commit b s) w,
    L.save_file-set b s,
    L.commit-set b s,
  )

  pub invoke-Sends :
      (method : String) (arguments : Dict String Json) (b : Bool) (c : K.Context) (file : String)
      (kwargs : Kwargs) (w : K.World)
      → Sends file b method arguments w (
          K.invoke_contract_op
            (transact K method arguments b)
            c
            (K.session_parameters file)
            kwargs
            w)
  invoke-Sends method arguments b c file kwargs w =
      let run = L.invoked (transact K method arguments b) c (K.session_parameters file) kwargs w in
      elim (Result-cases (L.effective c (K.session_parameters file) kwargs w)) [
        | inr (e, h) ↦ inr (e, ground (arith, run), ground (arith, run))
        | inl (s', h) ↦ inl (
            ground (
              arith,
              run,
              transact-sent method arguments b s' w,
              L.effective_file c (K.session_parameters file) s' kwargs w h,
              L.save_file-session file,
            ))
      ]

  key-committed :
      (c : K.Context) (s : K.Session) (kwargs : Kwargs) (w : K.World)
      → committed (L.sent (K.invoke_contract_op K.op_get_verifying_key c s kwargs w).1)
        ≡ committed (L.sent w)
  key-committed c s kwargs w = elim (Result-cases (L.effective c s kwargs w)) [
    | inr (e, h) ↦ ground (arith, L.invoked K.op_get_verifying_key c s kwargs w)
    | inl (s', h) ↦
        ground (arith, L.invoked K.op_get_verifying_key c s kwargs w, L.key_committed s' w)
  ]

  pub invoke_json-committed :
      (c : K.Context) (s : K.Session) (kwargs : Kwargs) (w : K.World)
      → committed (L.sent (invoke_json K K.op_get_verifying_key c s kwargs w).1)
        ≡ committed (L.sent w)
  invoke_json-committed c s kwargs w = ground (arith, key-committed c s kwargs w)
