-- ===== src/Plugins/Client.antt =====
-- The client library of PDO (pdo.client, pdo.contract), which the plugins call.
pub mod Laws
pub mod Relay
pub mod Custody
use pdo_contracts.Base.{
  String, Bool, true, false, if◌then◌else◌, ◌==◌, Option, none, some, List, [], ◌∷◌, ◌<>◌,
  string_eq,
}
use pdo_contracts.Base.Dict.{Dict, lookup, insert}
use pdo_contracts.Base.Exec.{Action, Result, ok, err, other, lift, ◌▷◌, ◌>>=◌}
use pdo_contracts.Base.Json.{str, Json, null, is_null}

-- The further arguments of a command, which it hands on.
abbrev pub Kwargs : Type 0
Kwargs = Dict String Json

pub record Client : Type 1 where
  -- The client's state with what it reaches: contexts, files, the ledger and the contract services.
  pub World : Type 0
  pub Context : Type 0
  -- A context may be Python's `None`.
  pub is_none : Context → Bool
  pub get_context : Context → String → World → Result Context
  -- `context.get(k, default)`
  pub context_get : Context → String → Json → World → Json
  pub has_key : Context → String → World → Bool
  pub context_item : Context → String → World → Result Json
  pub context_set : Context → String → Json → World → World
  pub open_context : String → Context
  -- `state.get(['context'] + path.split('.'))`
  pub state_context : String → World → Context
  pub get_contract_from_context : Context → World → Result (Option String)
  pub create_contract_from_context : Context → String → Kwargs → Action World String
  -- A session of a contract, by its save file, and its entry `commit`.
  pub Session : Type 0
  pub session_parameters : String → Session
  pub set_commit : Bool → Session → Session
  pub invocation_request : String → Dict String Json → Json
  pub send_to_contract : Json → Session → Action World String
  pub invoke_contract_op :
      {A : Type 0} → (Session → Action World A) → Context → Session → Kwargs → Action World A
  pub invoke_contract_cmd :
      {A : Type 0} → (Context → Kwargs → Action World A) → Context → Kwargs → Action World A
  -- `invoke` of pdo.client.plugins.common.op_get_verifying_key
  pub op_get_verifying_key : Session → Action World String
  pub json_loads : String → Result Json
  -- A file on the state's search path for keys, and what it holds.
  pub find_file_in_path : String → World → Result String
  pub read_file : String → World → Result String
  -- Python's `int` and the text of a value in a format
  pub to_int : Json → Result Json
  pub format_value : Json → String
  -- `state.identity`
  pub identity : World → Json

module _ (K : Client) where
  -- The body that the operations share.
  abbrev pub transact : String → Dict String Json → Bool → K.Session → Action K.World String
  transact method arguments commit session =
      K.send_to_contract (K.invocation_request method arguments) (K.set_commit commit session)

  -- `json.loads(pcontract.invoke_contract_op(...))`
  abbrev pub invoke_json :
      (K.Session → Action K.World String) → K.Context → K.Session → Kwargs → Action K.World Json
  invoke_json op context session kwargs =
      K.invoke_contract_op op context session kwargs >>= λ text. lift (K.json_loads text)

  -- `if not save_file : raise`
  abbrev nonempty : String → Option String → Result String
  nonempty message none = err (other message)
  nonempty message (some save_file) = if save_file == "" then err (other message) else ok save_file

  -- `if save_file is None : raise`
  abbrev present : String → Option String → Result String
  present message none = err (other message)
  present message (some save_file) = ok save_file

  abbrev pub find_contract : String → K.Context → K.World → Result String
  find_contract message context w = K.get_contract_from_context context w ▷ nonempty message

  abbrev pub find_contract_or_none : String → K.Context → K.World → Result String
  find_contract_or_none message context w = K.get_contract_from_context context w ▷ present message

  -- The key in the file `<user>_public.pem`.
  abbrev pub public_key : Json → K.World → Result Json
  public_key user w = K.find_file_in_path (K.format_value user <> "_public.pem") w ▷ λ keyfile.
      K.read_file keyfile w ▷ λ text. ok (str text)

  abbrev given : Option Json → Bool
  given none = false
  given (some j) = elim (is_null j) [ true ↦ false | false ↦ true ]

  -- `if kwargs.get('identity') is None : kwargs['identity'] = state.identity`
  abbrev pub with_identity : Kwargs → K.World → Kwargs
  with_identity kwargs w = elim (given (lookup "identity" kwargs)) [
    | true ↦ kwargs
    | false ↦ insert "identity" (K.identity w) kwargs
  ]
