-- ===== src/Guardian/Service/Forgets.antt =====
-- What a restart of the service changes: the registry of requests, and service keys.
use pdo_contracts.Base.{String, ◌≡◌, refl, ◌∙◌, arith, none, some, List, [], ◌∷◌, string_eq}
use pdo_contracts.Base.Exec.{ok}
use pdo_contracts.Base.Dict.{Dict, lookup, insert, lookup-insert, lookup-nil}
use pdo_contracts.Base.Json.{Json, str, get_item, json_eq}
use pdo_contracts.Platform.{Platform}
use pdo_contracts.Platform.Laws.{IsLawful}
use pdo_contracts.Guardian.World.{World, Shelf}
use pdo_contracts.Guardian.Http.{value}
use pdo_contracts.Guardian.Keys.{CapabilityKeys, serialize}
use pdo_contracts.Guardian.Keystore.{ServiceKeys, get_capability_key, open_keystore, close_keystore}
use pdo_contracts.Guardian.Keystore.Laws.{new_keys, deserialize-serialize}
use pdo_contracts.Guardian.Keystore.Restart.{
  key_in, mgmt_name, svc_name, names_differ, open_keystore_of_held,
}
use pdo_contracts.Guardian.Secrets.{recv_secret, open_secret}
use pdo_contracts.Guardian.Still.{world-get_capability_key, world-recv_secret}
use pdo_contracts.Guardian.Registry.{Endpoints, open_registry, close_registry}
use pdo_contracts.Guardian.ProcessCapability.{Operation, HandlerMap, unpack}
use pdo_contracts.Guardian.ProcessCapability.Replay.{Asks, process_fresh}
use pdo_contracts.Guardian.Provision.{provision_token_object, unpack_object}
use pdo_contracts.Guardian.Provision.Delivery.{object_key_created}
use pdo_contracts.Guardian.Service.{
  Config, App, success, processes_capabilities, call_app, start_service, serve_requests,
  open_stores, run_service, local_main,
}

module _ (P : Platform) where
  -- A process that starts: nothing is open, and no request was seen.
  abbrev pub process : P.Outside → World P
  process o = record { outside = o; keystore = none; registry = none; request_registry = [] }

  -- What a request unpacks to depends on the key store alone.
  get_capability_key-same :
      (k : String) (w u : World P)
      → w.keystore ≡ u.keystore
      → (get_capability_key P k w).0 ≡ (get_capability_key P k u).0
  unfolding get_capability_key
  get_capability_key-same k w u same = ground arith

  recv_secret-same :
      (k : CapabilityKeys P) (j : Json) (w u : World P)
      → (recv_secret P k j w).0 ≡ (recv_secret P k j u).0
  unfolding recv_secret open_secret
  recv_secret-same k j w u = ground arith

  unpack-same :
      (environ : P.Environ) (w u : World P)
      → w.keystore ≡ u.keystore
      → (unpack P environ w).0 ≡ (unpack P environ u).0
  unfolding unpack
  unpack-same environ w u same = grind (
    arith, get_capability_key-same, recv_secret-same, world-get_capability_key, world-recv_secret,
  )

  -- The key of an identity that a token issuer names like the service's own key replaces that key: the
  -- service that is started on the file has a new key.
  module _ (L : IsLawful P) (keys : ServiceKeys P) (environ : P.Environ) (w : World P) where
    pub restart_replaces_service_key :
        (message : Json) (shelf : Shelf) (mgmt : CapabilityKeys P) (u : World P)
        → (unpack_object P keys environ w).0 ≡ value message
        → get_item message "minted_identity" ≡ ok (str svc_name)
        → w.keystore ≡ some shelf
        → key_in P mgmt_name shelf ≡ ok mgmt
        → let w' = (provision_token_object P keys environ w).1 in
          (left : Shelf) × ((close_keystore P w').0 ≡ ok left)
          × ((open_keystore P left u).0
              ≡ ok (record { mgmt_capability_key = mgmt; svc_capability_key = new_keys P w }))
    unfolding close_keystore
    restart_replaces_service_key message shelf mgmt u unpacked named is_open held =
        let left = insert svc_name (serialize P (new_keys P w)) shelf in
        let stored =
          object_key_created P keys environ w message svc_name shelf unpacked named is_open in
        let kept : key_in P mgmt_name left ≡ ok mgmt = ground (
          arith,
          names_differ,
          lookup-insert mgmt_name svc_name (serialize P (new_keys P w)) shelf,
        ) in
        let new : key_in P svc_name left ≡ ok (new_keys P w) = ground (
          arith,
          lookup-insert svc_name svc_name (serialize P (new_keys P w)) shelf,
          deserialize-serialize P L w,
        ) in
        (
          left,
          ground (arith, stored),
          ground (arith, open_keystore_of_held P L left mgmt (new_keys P w) u kept new),
        )

  module _ (L : IsLawful P) (config : Config P) (key_file : Shelf) (endpoint_file : Endpoints)
      (mgmt svc : CapabilityKeys P) (apps : Dict String (App P)) (handlers : HandlerMap P) where
    abbrev opened : P.Outside → World P
    opened o = record (process o) { keystore = some key_file; registry = some endpoint_file }

    -- What a service needs of its configuration and files to start with no new keys.
    pub record Starts : Type 0 where
      pub keys_named : (f : String) × (config.capability_key_store ≡ some f)
      pub endpoints_named : (f : String) × (config.endpoint_registry ≡ some f)
      pub started : start_service P config ≡ ok apps
      pub routed : lookup "process_capability" apps ≡ some (processes_capabilities handlers)
      pub mgmt_held : key_in P mgmt_name key_file ≡ ok mgmt
      pub svc_held : key_in P svc_name key_file ≡ ok svc

    module _ (environ : P.Environ) {identity id : String} {operation : Operation P}
        {parameters : Json} where
      -- One life of the service, in which a fresh request is served: it is performed.
      life :
          (o : P.Outside)
          → Starts
          → Asks P handlers environ (opened o) identity id operation parameters
          → let (ending, w') =
              local_main P config key_file endpoint_file
                (("process_capability", environ) ∷ [])
                none
                (process o) in
            (ending ≡ success key_file endpoint_file)
            × (w'.outside ≡ (operation.perform parameters o).1)
      unfolding local_main open_stores open_registry serve_requests call_app run_service
          close_keystore close_registry
      life o starts asks = ground (
        arith,
        open_keystore_of_held P L key_file mgmt svc (process o) starts.mgmt_held starts.svc_held,
        starts.started,
        starts.routed,
        process_fresh P handlers environ (opened o) asks
            (ground (arith, lookup-nil {K = String} {V = List Json} identity)),
      )

      -- A request for a unique operation is performed in one life of the service, and again in the next,
      -- on the files that the first has left: the registry of requests does not outlive the process.
      pub performed_in_each_life :
          (o : P.Outside)
          → Starts
          → Asks P handlers environ (opened o) identity id operation parameters
          → let run = λ (e : P.Outside).
            local_main P config key_file endpoint_file
              (("process_capability", environ) ∷ [])
              none
              (process e) in
            let o' = (operation.perform parameters o).1 in
            ((run o).0 ≡ success key_file endpoint_file)
            × ((run o).1.outside ≡ o')
            × ((run o').1.outside ≡ (operation.perform parameters o').1)
      performed_in_each_life o starts asks =
          let o' = (operation.perform parameters o).1 in
          let first = life o starts asks in
          let again : Asks P handlers environ (opened o') identity id operation parameters =
            record {
              message = asks.message;
              method = asks.method;
              unpacked = unpack-same environ (opened o') (opened o) refl ∙ asks.unpacked;
              named = asks.named;
              given = asks.given;
              found = asks.found;
              unique = asks.unique;
              identified = asks.identified;
            } in
          (first.0, first.1, (life o' starts again).1)
