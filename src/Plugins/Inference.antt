-- ===== src/Plugins/Inference.antt =====
-- Inference tokens (inference-contract/pdo/inference/plugins/inference_token_object.py).
use pdo_contracts.Base.{String, false, Option, none, some, List, [], ◌∷◌}
use pdo_contracts.Base.Exec.{Action, Result, ok, lift, ◌▷◌, ◌>>=◌}
use pdo_contracts.Base.Json.{Json, str, keywords}
use pdo_contracts.Plugins.Client.{Client, Kwargs, transact, find_contract}
use pdo_contracts.Plugins.Storage.{Storage}
use pdo_contracts.Plugins.GuardianService.{Reach}
use pdo_contracts.Guardian.Client.Methods.{
  GuardianServiceClient, guardian_service_client, post_process_capability,
}

-- How the image gets to the guardian.
pub record Delivery (K : Client) (S : Storage K) (R : Reach K) : Type 0 where
  -- The client of a guardian service stands in for its storage service (`store_blocks` and others).
  pub block_store : GuardianServiceClient R.network → S.Service
  -- `putils.find_file_in_path` on a search path that is given
  pub find_file : String → List String → K.World → Result String

module _ (K : Client) (S : Storage K) (R : Reach K) (G : Delivery K S R) where
  -- The image's blocks reach the guardian's storage before the capability does.
  unfoldable pub op_do_inference : String → List String → Json → K.Session → Action K.World Json
  op_do_inference image search_path url session = do
    image_file ← λ w. lift (G.find_file image search_path w) w
    image_bytes ← S.read_bytes image_file
    new ← S.new_store
    kv ← S.set "__image__" image_bytes new
    answer ←
        transact K "do_inference"
          (("image_key", str "__image__")
            ∷ ("encryption_key", S.encryption_key kv)
            ∷ ("state_hash", S.hash_identity kv)
            ∷ [])
          false session
    capability ← lift (K.json_loads answer)
    service_client ← R.over_network (guardian_service_client R.network url)
    _ ← S.sync_to_block_store (G.block_store service_client) kv
    params ← lift (keywords capability)
    R.over_network (post_process_capability R.network service_client params)

  -- `guardian_context['url']` where no URL is given
  abbrev service_url : K.Context → Option Json → K.World → Result Json
  service_url context (some url) w = ok url
  service_url context none w =
      K.get_context context "data_guardian_context" w ▷ λ c. K.context_item c "url" w

  unfoldable pub cmd_do_inference :
      K.Context → String → List String → Option Json → Kwargs → Action K.World Json
  cmd_do_inference context image search_path given_url kwargs = do
    save_file ← λ w. lift (find_contract K "token has not been created" context w) w
    url ← λ w. lift (service_url context given_url w) w
    K.invoke_contract_op (op_do_inference image search_path url) context
        (K.session_parameters save_file) kwargs
