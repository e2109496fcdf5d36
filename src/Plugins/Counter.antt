-- ===== src/Plugins/Counter.antt =====
-- The example counter (example-contract/pdo/example/plugins/counter.py). Its operations leave the entry
-- `commit` of their session as it is.
use pdo_contracts.Base.{String, Option, none, some, []}
use pdo_contracts.Base.Exec.{Action, lift, pure, ◌>>=◌}
use pdo_contracts.Plugins.Client.{Client, Kwargs, find_contract}
use pdo_contracts.Plugins.AssetType.{create, existing}

module _ (K : Client) where
  unfoldable pub op_inc_value : K.Session → Action K.World String
  op_inc_value = K.send_to_contract (K.invocation_request "inc_value" [])

  unfoldable pub op_get_value : K.Session → Action K.World String
  op_get_value = K.send_to_contract (K.invocation_request "get_value" [])

  -- The result is `None` where the context has a contract.
  abbrev create_counter : K.Context → Kwargs → Option String → Action K.World (Option String)
  create_counter context kwargs (some _) = pure none
  create_counter context kwargs none = do
    save_file ← create K context "example_counter" kwargs
    pure (some save_file)

  unfoldable pub cmd_create_counter : K.Context → Kwargs → Action K.World (Option String)
  cmd_create_counter context kwargs = do
    found ← λ w. lift (K.get_contract_from_context context w) w
    create_counter context kwargs (existing K found)

  abbrev pub counter_file : K.Context → Action K.World String
  counter_file context w =
      lift (find_contract K "counter contract must be created and initialized" context w) w

  unfoldable pub cmd_inc_value : K.Context → Kwargs → Action K.World String
  cmd_inc_value context kwargs = do
    save_file ← counter_file context
    K.invoke_contract_op op_inc_value context (K.session_parameters save_file) kwargs

  unfoldable pub cmd_get_value : K.Context → Kwargs → Action K.World String
  cmd_get_value context kwargs = do
    save_file ← counter_file context
    K.invoke_contract_op op_get_value context (K.session_parameters save_file) kwargs
