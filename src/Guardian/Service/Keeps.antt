-- ===== src/Guardian/Service/Keeps.antt =====
-- What a running service never loses: the keys of identities, and the endpoints of contracts.
use pdo_contracts.Base.{
  ◌∙◌, String, ◌≡◌, refl, arith, ap, Option, none, some, List, [], ◌∷◌, string_eq, ◌⊎◌, inl, inr,
}
use pdo_contracts.Base.Dict.{Dict, lookup, insert}
use pdo_contracts.Base.Exec.{Result, ok, Result-cases}
use pdo_contracts.Base.Json.{Json, str, get_item, as_str}
use pdo_contracts.Platform.{Platform}
use pdo_contracts.Platform.Laws.{IsLawful}
use pdo_contracts.Guardian.World.{World, Shelf}
use pdo_contracts.Guardian.Keys.{create_new_keys, serialize}
use pdo_contracts.Guardian.Keystore.{ServiceKeys, create_capability_key, set_capability_key}
use pdo_contracts.Guardian.Keystore.Laws.{new_keys}
use pdo_contracts.Guardian.Registry.{Endpoints}
use pdo_contracts.Guardian.AddEndpoint.Policy.{add_endpoint-policy, as_str-eq-ok}
use pdo_contracts.Guardian.Secrets.{send_secret}
use pdo_contracts.Guardian.Http.{Outcome-cases}
use pdo_contracts.Guardian.Provision.Delivery.{
  world-unpack_issuer, world-unpack_object, keystore-send_secret, object_refused,
  object_key_created,
}
use pdo_contracts.Guardian.ProcessCapability.Effects.{process_capability-keeps}
use pdo_contracts.Guardian.Provision.{
  encrypt_for, provision_token_issuer, provision_token_object, unpack_object,
}
use pdo_contracts.Guardian.AddEndpoint.{AddEndpointApp, add_endpoint}
use pdo_contracts.Guardian.Service.{
  App, adds_endpoints, informs, processes_capabilities, provisions_issuers, provisions_objects,
  call_app, served, serve_requests,
}
use pdo_contracts.Guardian.Service.Kept.{
  NamesIdentity, NamesContract, SomeIdentity, SomeContract, Keeps, Keeps-of_same, KeepsKeys-insert,
  KeepsEndpoints-insert, KeepsKeys-trans, KeepsEndpoints-trans,
}

module _ (P : Platform) where
  registry-send_secret :
      (keys : P.EnclaveKeys) (message : Json) (w : World P)
      → (send_secret P (encrypt_for P keys) message w).1.registry ≡ w.registry
  unfolding send_secret
  registry-send_secret keys message w = ground arith

  registry-create_capability_key :
      (identity : String) (w : World P)
      → (create_capability_key P identity w).1.registry ≡ w.registry
  unfolding create_capability_key set_capability_key create_new_keys
  registry-create_capability_key identity w = ground arith

  registry-provision_token_object :
      (keys : ServiceKeys P) (environ : P.Environ) (w : World P)
      → (provision_token_object P keys environ w).1.registry ≡ w.registry
  unfolding provision_token_object
  registry-provision_token_object keys environ w =
      grind (arith, world-unpack_object, registry-send_secret, registry-create_capability_key)

  provision_token_issuer-keeps :
      (keys : ServiceKeys P) (environ : P.Environ) (w : World P)
      → let w' = (provision_token_issuer P keys environ w).1 in
        (w'.keystore ≡ w.keystore) × (w'.registry ≡ w.registry)
  unfolding provision_token_issuer
  provision_token_issuer-keeps keys environ w =
      grind (arith, world-unpack_issuer, registry-send_secret, keystore-send_secret)

  -- A request for a token object leaves the keys, or gives one identity a new one.
  object_cases :
      (keys : ServiceKeys P) (environ : P.Environ) (w : World P) (s : Shelf)
      → w.keystore ≡ some s
      → let w' = (provision_token_object P keys environ w).1 in
        (w'.keystore ≡ w.keystore)
        ⊎ ((identity : String) × NamesIdentity P keys (some provisions_objects) environ identity
            × (w'.keystore ≡ some (insert identity (serialize P (new_keys P w)) s)))
  object_cases keys environ w s is_open = elim (Outcome-cases (unpack_object P keys environ w).0) [
    | inr ends ↦ inl (ap (λ (x : World P). x.keystore) (object_refused P keys environ w ends))
    | inl (message, e) ↦ elim (Result-cases (get_item message "minted_identity")) [
      | inr (x, e₁) ↦
          inl
            (unfold provision_token_object in ground (arith, world-unpack_object P keys environ w))
      | inl (j, e₁) ↦ elim (Result-cases (as_str j)) [
        | inr (x, e₂) ↦
            inl (
              unfold provision_token_object in ground (arith, world-unpack_object P keys environ w))
        | inl (identity, e₂) ↦
            let named : get_item message "minted_identity" ≡ ok (str identity) =
              e₁
              ∙ ap (λ (x : Json). let y : Result Json = ok x in y) (as_str-eq-ok P j identity e₂) in
            inr (
              identity,
              record {
                to_objects = refl;
                state = w;
                message = message;
                unpacked = e;
                named = named;
              },
              object_key_created P keys environ w message identity s e named is_open,
            )
      ]
    ]
  ]

module _ (P : Platform) (L : IsLawful P) where
  module _ (s : Shelf) (r : Endpoints) (w : World P) (keys_open : w.keystore ≡ some s)
      (registry_open : w.registry ≡ some r) (keys : ServiceKeys P) (environ : P.Environ) where
    abbrev KeepsBy : App P → World P → Type 0
    KeepsBy app w' =
        Keeps P w w' s r (NamesIdentity P keys (some app) environ)
          (NamesContract P (some app) environ)

    object-Keeps : KeepsBy provisions_objects (provision_token_object P keys environ w).1
    object-Keeps =
        let w' = (provision_token_object P keys environ w).1 in
        elim (object_cases P keys environ w s keys_open) [
          | inl same ↦
              Keeps-of_same P s r w w' keys_open registry_open _ _ same
                (registry-provision_token_object P keys environ w)
          | inr (identity, who, stored) ↦ record {
            shelf = insert identity (serialize P (new_keys P w)) s;
            endpoints = r;
            keys_open = stored;
            registry_open = registry-provision_token_object P keys environ w ∙ registry_open;
            keeps_keys =
                KeepsKeys-insert P L (NamesIdentity P keys (some provisions_objects) environ)
                  identity w s who;
            keeps_endpoints = λ c e h. inl h;
          }
        ]

    endpoint-Keeps :
        (app : AddEndpointApp) → KeepsBy (adds_endpoints app) (add_endpoint P app environ w).1
    endpoint-Keeps app =
        let w' = (add_endpoint P app environ w).1 in
        elim (add_endpoint-policy P app environ w) [
          | inl same ↦
              Keeps-of_same P s r w w' keys_open registry_open _ _
                (ap (λ (x : World P). x.keystore) same) (ap (λ (x : World P). x.registry) same)
          | inr g ↦ record {
            shelf = s;
            endpoints = insert g.contract_id (g.verifying_key, g.encryption_key) r;
            keys_open = ap (λ (x : World P). x.keystore) g.stored ∙ keys_open;
            registry_open = ground (arith, g.stored, g.opened);
            keeps_keys = λ j k h. inl h;
            keeps_endpoints =
                KeepsEndpoints-insert P (NamesContract P (some (adds_endpoints app)) environ)
                  g.contract_id (g.verifying_key, g.encryption_key) r
                  (record {
                    adder = app;
                    to_endpoints = refl;
                    before = w;
                    after = w';
                    registers = g;
                    of_contract = refl;
                  });
          }
        ]

    call_app-Keeps : (app : App P) → KeepsBy app (call_app P keys app environ w).1
    unfolding call_app
    call_app-Keeps (adds_endpoints app) = endpoint-Keeps app
    call_app-Keeps (informs storage_url) =
        Keeps-of_same P s r w w keys_open registry_open _ _ refl refl
    call_app-Keeps (processes_capabilities handlers) =
        let (same, same') = process_capability-keeps P handlers environ w in
        Keeps-of_same P s r w _ keys_open registry_open _ _ same same'
    call_app-Keeps provisions_issuers =
        let (same, same') = provision_token_issuer-keeps P keys environ w in
        Keeps-of_same P s r w _ keys_open registry_open _ _ same same'
    call_app-Keeps provisions_objects = object-Keeps

    served-Keeps :
        (app : Option (App P))
        → Keeps P w
            (served P keys app environ w).1
            s
            r
            (NamesIdentity P keys app environ)
            (NamesContract P app environ)
    served-Keeps none = Keeps-of_same P s r w w keys_open registry_open _ _ refl refl
    served-Keeps (some app) = call_app-Keeps app

  -- On a lawful platform with open stores, whatever requests are served: a readable key stays as it is
  -- but for an identity that one of the requests for token objects names, which has another; and an
  -- endpoint stays but for a contract of which one of the requests registers another.
  pub serve_requests-Keeps :
      (keys : ServiceKeys P) (apps : Dict String (App P)) (requests : List (String × P.Environ))
      (s : Shelf) (r : Endpoints) (w : World P)
      → w.keystore ≡ some s
      → w.registry ≡ some r
      → Keeps P w
          (serve_requests P keys apps requests w).1
          s
          r
          (SomeIdentity P keys apps requests)
          (SomeContract P apps requests)
  unfolding serve_requests
  serve_requests-Keeps keys apps [] s r w o o' = Keeps-of_same P s r w w o o' _ _ refl refl
  serve_requests-Keeps keys apps ((verb, environ) ∷ requests) s r w o o' =
      let w₁ = (served P keys (lookup verb apps) environ w).1 in
      let k = served-Keeps s r w o o' keys environ (lookup verb apps) in
      let l =
        serve_requests-Keeps keys apps requests k.shelf k.endpoints w₁ k.keys_open
          k.registry_open in
      record {
        shelf = l.shelf;
        endpoints = l.endpoints;
        keys_open = l.keys_open;
        registry_open = l.registry_open;
        keeps_keys =
            KeepsKeys-trans P (NamesIdentity P keys (lookup verb apps) environ)
              (SomeIdentity P keys apps requests) s k.shelf l.shelf k.keeps_keys l.keeps_keys;
        keeps_endpoints =
            KeepsEndpoints-trans P (NamesContract P (lookup verb apps) environ)
              (SomeContract P apps requests) r k.endpoints l.endpoints k.keeps_endpoints
              l.keeps_endpoints;
      }
