-- ===== src/Plugins/Ledger.antt =====
-- The ledger, the contracts' metadata and their code, which the token plugins take from PDO.
use pdo_contracts.Base.{ℕ, String}
use pdo_contracts.Base.Exec.{Action, Result}
use pdo_contracts.Base.Json.{Json}
use pdo_contracts.Plugins.Client.{Client}

pub record Ledger (K : Client) : Type 1 where
  -- The submitter that `create_submitter(state.get(['Ledger']))` makes
  pub get_ledger_info : Action K.World Json
  pub get_contract_info : Json → Action K.World Json
  pub get_current_state_hash : Json → Action K.World Json
  -- `get_contract(state, save_file).contract_id`
  pub contract_id : String → Action K.World Json
  -- `invoke` of the operations of pdo.client.plugins.common
  pub op_get_contract_metadata : K.Session → Action K.World String
  pub op_get_contract_code_metadata : K.Session → Action K.World String
  pub op_add_endpoint : Json → Json → Json → Json → K.Session → Action K.World String
  -- The session parameter `wait=True`
  pub wait : K.Session → K.Session
  -- `ContractCode.create_from_file`, on the state's search path for sources: the code and the name
  pub create_from_file : String → Json → K.World → Result (String × String)
  -- The number of a numeral; the counts in contexts are natural numbers.
  pub natural : Json → Result ℕ
  -- Python's `format` of a number
  pub format_number : ℕ → String
  -- pdo.common.crypto
  pub Bytes : Type 0
  pub string_to_byte_array : String → Bytes
  pub compute_message_hash : Bytes → Bytes
  pub byte_array_to_base64 : Bytes → String
