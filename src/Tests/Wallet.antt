-- ===== src/Tests/Wallet.antt =====
-- A wallet with one asset, on the client whose answers are the same text.
use pdo_contracts.Base.{
  ◌||◌, String, ◌<>◌, ◌==◌, ◌≡◌, refl, ◌≤◌, ◌+◌, ◌⊎◌, arith, false, none, List, [], ◌∷◌, length,
  string_eq, if◌then◌else◌,
}
use pdo_contracts.Base.Exec.{ok}
use pdo_contracts.Base.Json.{Json, num, str, dict}
use pdo_contracts.Plugins.Client.{Client}
use pdo_contracts.Plugins.Client.Laws.{Sent, committed}
use pdo_contracts.Plugins.Issuer.{cmd_transfer_assets, op_transfer}
use pdo_contracts.Jupyter.Keys.{build_public_key_list}
use pdo_contracts.Jupyter.Keys.Forms.{create_key_list}
use pdo_contracts.Jupyter.Wallet.{WalletClient, transfer_assets, get_asset_type, get_asset_owner}
use pdo_contracts.Jupyter.Wallet.Transfer.{
  TransferForm, Event, slide, submit, refresh, submit_button_click, run_events, reset_widget,
  set_source_options, set_source_value, handle_source_change, update_source_information,
  show_source,
}
use pdo_contracts.Jupyter.Wallet.Quiet.{IsQuiet, trades}
use pdo_contracts.Jupyter.Wallet.Slider.{Within}
use pdo_contracts.Jupyter.Wallet.Clicks.{Committed, Unsent, submit_button_click-Transfers}
use pdo_contracts.Jupyter.Wallet.Runs.{run_events-clicks}
use pdo_contracts.Jupyter.Wallet.Import.{ImportClient}
use pdo_contracts.Tests.Forms.{toy_widgets}
use pdo_contracts.Tests.Exchanges.{toy_client, toy_client-IsLawful}
use pdo_contracts.Tests.Notebooks.{files}

abbrev toy_wallet : WalletClient toy_client
toy_wallet = record {
  properties = λ c w. ok (dict (("name", str "gold") ∷ []));
  flush_contract_cache = λ w. w;
  is_value_error = λ e. false;
  files = λ w. files;
  search_path = λ w. "keys" ∷ [];
  characters = λ text. [];
  options_of = λ j. ok ("gold" ∷ []);
  slider_max = λ j. ok 5;
  int_value = λ n. num "3";
  exception_text = λ e. "error";
}

abbrev toy_wallet-IsQuiet : IsQuiet toy_client toy_client-IsLawful toy_wallet
toy_wallet-IsQuiet = record {
  effective_kwargs = λ c kwargs w. ok kwargs;
  commanded = λ cmd c kwargs w. refl;
  sent-flush = λ w. refl;
}

abbrev form : TransferForm toy_widgets toy_client
form = record {
  source = record { entries = "gold" ∷ []; shown = "gold" };
  old_owner = "alice";
  asset_type = "gold";
  balance = 3;
  balance_max = 5;
  new_owner = record { entries = "bob" ∷ []; shown = "bob" };
  feedback = [];
  world = [];
}

-- The transfer is the one message that is committed.
abbrev submitted : List Sent
submitted = (submit_button_click toy_widgets toy_client toy_wallet "wallet" form).1.world

one_trade :
    length (trades toy_client toy_client-IsLawful toy_wallet toy_wallet-IsQuiet submitted) ≡ 1
unfolding submit_button_click string_eq committed transfer_assets cmd_transfer_assets op_transfer
    reset_widget set_source_options set_source_value handle_source_change update_source_information
    create_key_list build_public_key_list show_source get_asset_type get_asset_owner
one_trade = refl

submit_button_click-Transfers_example :
    Unsent toy_widgets toy_client toy_client-IsLawful toy_wallet toy_wallet-IsQuiet "wallet" form
      submitted
    ⊎ Committed toy_widgets toy_client toy_client-IsLawful toy_wallet toy_wallet-IsQuiet "wallet"
        form submitted
submit_button_click-Transfers_example =
    submit_button_click-Transfers toy_widgets toy_client toy_client-IsLawful toy_wallet
      toy_wallet-IsQuiet "wallet" form

abbrev deeds : List Event
deeds = slide 9 ∷ submit ∷ refresh ∷ submit ∷ []

run_events-clicks_example :
    let f' = run_events toy_widgets toy_client toy_wallet "wallet" deeds form in
    Within toy_widgets toy_client toy_wallet "wallet" f'
    × (length (trades toy_client toy_client-IsLawful toy_wallet toy_wallet-IsQuiet f'.world)
        ≤ 2
          + length (trades toy_client toy_client-IsLawful toy_wallet toy_wallet-IsQuiet form.world))
run_events-clicks_example =
    run_events-clicks toy_widgets toy_client toy_client-IsLawful toy_wallet toy_wallet-IsQuiet
      "wallet" deeds form (omega arith)

-- A client whose contexts keep what is set, as entries among the messages.
abbrev entry : String → Json → List Sent → Json
entry k default [] = default
entry k default (m ∷ w) = if k == m.save_file then m.message else entry k default w

abbrev keeper : Client
keeper = record toy_client {
  context_get = λ c k default w. entry k default w;
  context_set =
      λ c k j w. record { save_file = k; commit = false; message = j; answer = ok "" } ∷ w;
}

abbrev keeper_wallet : WalletClient keeper
keeper_wallet = record {
  properties = λ c w. ok (dict (("name", str "gold") ∷ []));
  flush_contract_cache = λ w. w;
  is_value_error = λ e. false;
  files = λ w. files;
  search_path = λ w. "keys" ∷ [];
  characters = λ text. [];
  options_of = λ j. ok ("gold" ∷ []);
  slider_max = λ j. ok 5;
  int_value = λ n. num "3";
  exception_text = λ e. "error";
}

abbrev importer : ImportClient keeper
importer = record {
  collections = record {
    data_binding = λ w. none;
    save_binding = λ w. none;
    data_directory = λ w. "data";
    join = λ a b. a <> "/" <> b;
    export_collection = λ c paths cache file w. (ok tt, w);
    import_collection = λ context_file cache file w. (ok (dict []), w);
  };
  with_temporary = λ body. body "tmp";
  write = λ name content w. (ok tt, w);
  is_word = λ text. text == "asset_list" || text == "gold";
  save_context_file = λ file path w. (ok tt, w);
}
