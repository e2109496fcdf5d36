-- ===== src/Guardian/Service/Kept.antt =====
-- What a service keeps of its keys and endpoints, and what may be renewed by which request.
use pdo_contracts.Base.{
  ◌∙◌, String, ◌≡◌, arith, Option, some, List, [], ◌∷◌, string_eq, ◌⊎◌, inl, inr,
}
use mathlib.Core.Path.{subst}
use pdo_contracts.Base.Dict.{Dict, lookup, insert, lookup-insert}
use pdo_contracts.Base.Exec.{ok}
use pdo_contracts.Base.Json.{Json, str, get_item}
use pdo_contracts.Platform.{Platform}
use pdo_contracts.Platform.Laws.{IsLawful}
use pdo_contracts.Guardian.World.{World, Shelf}
use pdo_contracts.Guardian.Keys.{CapabilityKeys, serialize}
use pdo_contracts.Guardian.Keystore.{ServiceKeys}
use pdo_contracts.Guardian.Keystore.Laws.{new_keys, deserialize-serialize}
use pdo_contracts.Guardian.Keystore.Restart.{key_in}
use pdo_contracts.Guardian.Registry.{Endpoints}
use pdo_contracts.Guardian.AddEndpoint.Policy.{Registers}
use pdo_contracts.Guardian.Http.{value}
use pdo_contracts.Guardian.Provision.{unpack_object}
use pdo_contracts.Guardian.AddEndpoint.{AddEndpointApp}
use pdo_contracts.Guardian.Service.{App, adds_endpoints, provisions_objects}

module _ (P : Platform) where
  -- Identities keep their key, but for some, which have another that is readable.
  abbrev pub KeepsKeys : (String → Type 0) → Shelf → Shelf → Type 0
  KeepsKeys Renewed s s' =
      (j : String) (k : CapabilityKeys P)
      → key_in P j s ≡ ok k
      → (key_in P j s' ≡ ok k) ⊎ (Renewed j × (k' : CapabilityKeys P) × (key_in P j s' ≡ ok k'))

  -- Contracts keep their endpoint, but for some, which have another.
  abbrev pub KeepsEndpoints : (String → Type 0) → Endpoints → Endpoints → Type 0
  KeepsEndpoints Renewed r r' =
      (c : String) (e : Json × Json)
      → lookup c r ≡ some e
      → (lookup c r' ≡ some e) ⊎ (Renewed c × (e' : Json × Json) × (lookup c r' ≡ some e'))

  -- A request for a token object that names the identity, as it unpacks in some state of the service.
  pub record NamesIdentity (keys : ServiceKeys P) (app : Option (App P)) (environ : P.Environ)
      (identity : String) : Type 0 where
    pub to_objects : app ≡ some provisions_objects
    pub state : World P
    pub message : Json
    pub unpacked : (unpack_object P keys environ state).0 ≡ value message
    pub named : get_item message "minted_identity" ≡ ok (str identity)

  -- An authorized request to add an endpoint of the contract, as it is served in some state of the service.
  pub record NamesContract (app : Option (App P)) (environ : P.Environ) (contract : String)
      : Type 0 where
    pub adder : AddEndpointApp
    pub to_endpoints : app ≡ some (adds_endpoints adder)
    pub before : World P
    pub after : World P
    pub registers : Registers P adder environ before after
    pub of_contract : registers.contract_id ≡ contract

  -- One of the requests names the identity, or the contract.
  abbrev pub SomeIdentity :
      ServiceKeys P → Dict String (App P) → List (String × P.Environ) → String → Type 0
  SomeIdentity keys apps [] j = ⊥
  SomeIdentity keys apps ((verb, environ) ∷ requests) j =
      NamesIdentity keys (lookup verb apps) environ j ⊎ SomeIdentity keys apps requests j

  abbrev pub SomeContract : Dict String (App P) → List (String × P.Environ) → String → Type 0
  SomeContract apps [] c = ⊥
  SomeContract apps ((verb, environ) ∷ requests) c =
      NamesContract (lookup verb apps) environ c ⊎ SomeContract apps requests c

  -- From one world to a later one, both stores being open.
  pub record Keeps (w w' : World P) (s : Shelf) (r : Endpoints) (I C : String → Type 0)
      : Type 0 where
    pub shelf : Shelf
    pub endpoints : Endpoints
    pub keys_open : w'.keystore ≡ some shelf
    pub registry_open : w'.registry ≡ some endpoints
    pub keeps_keys : KeepsKeys I s shelf
    pub keeps_endpoints : KeepsEndpoints C r endpoints

  module _ (s : Shelf) (r : Endpoints) (w w' : World P) (keys_open : w.keystore ≡ some s)
      (registry_open : w.registry ≡ some r) where
    pub Keeps-of_same :
        (I C : String → Type 0)
        → w'.keystore ≡ w.keystore
        → w'.registry ≡ w.registry
        → Keeps w w' s r I C
    Keeps-of_same I C same same' = record {
      shelf = s;
      endpoints = r;
      keys_open = same ∙ keys_open;
      registry_open = same' ∙ registry_open;
      keeps_keys = λ j k h. inl h;
      keeps_endpoints = λ c e h. inl h;
    }

module _ (P : Platform) where
  pub KeepsEndpoints-insert :
      (C : String → Type 0) (c : String) (e : Json × Json) (r : Endpoints)
      → C c
      → KeepsEndpoints P C r (insert c e r)
  KeepsEndpoints-insert C c e r who d f h = elim (string_eq.decides c d) [
    | yes same ↦ inr (subst C same who, e, ground (arith, lookup-insert d c e r))
    | no differ ↦ inl (ground (arith, lookup-insert d c e r))
  ]

  pub KeepsKeys-trans :
      (I I' : String → Type 0) (s s₁ s₂ : Shelf)
      → KeepsKeys P I s s₁
      → KeepsKeys P I' s₁ s₂
      → KeepsKeys P (λ j. I j ⊎ I' j) s s₂
  KeepsKeys-trans I I' s s₁ s₂ f g j k h = elim (f j k h) [
    | inl h₁ ↦ elim (g j k h₁) [ inl h₂ ↦ inl h₂ | inr (who, k₂, h₂) ↦ inr (inr who, k₂, h₂) ]
    | inr (who, k₁, h₁) ↦ elim (g j k₁ h₁) [
      | inl h₂ ↦ inr (inl who, k₁, h₂)
      | inr (who', k₂, h₂) ↦ inr (inl who, k₂, h₂)
    ]
  ]

  pub KeepsEndpoints-trans :
      (C C' : String → Type 0) (r r₁ r₂ : Endpoints)
      → KeepsEndpoints P C r r₁
      → KeepsEndpoints P C' r₁ r₂
      → KeepsEndpoints P (λ c. C c ⊎ C' c) r r₂
  KeepsEndpoints-trans C C' r r₁ r₂ f g c e h = elim (f c e h) [
    | inl h₁ ↦ elim (g c e h₁) [ inl h₂ ↦ inl h₂ | inr (who, e₂, h₂) ↦ inr (inr who, e₂, h₂) ]
    | inr (who, e₁, h₁) ↦ elim (g c e₁ h₁) [
      | inl h₂ ↦ inr (inl who, e₁, h₂)
      | inr (who', e₂, h₂) ↦ inr (inl who, e₂, h₂)
    ]
  ]

module _ (P : Platform) (L : IsLawful P) where
  pub KeepsKeys-insert :
      (I : String → Type 0) (identity : String) (w : World P) (s : Shelf)
      → I identity
      → KeepsKeys P I s (insert identity (serialize P (new_keys P w)) s)
  KeepsKeys-insert I identity w s who j k h = elim (string_eq.decides identity j) [
    | yes same ↦ inr (
      subst I same who,
      new_keys P w,
      ground (
        arith,
        lookup-insert j identity (serialize P (new_keys P w)) s,
        deserialize-serialize P L w,
      ),
    )
    | no differ ↦ inl (ground (arith, lookup-insert j identity (serialize P (new_keys P w)) s))
  ]
