-- ===== src/Guardian/World.antt =====
-- The state that the handlers of one guardian service share: the key store and the endpoint registry
-- (`self._keystore` and `self._registry`, `None` once closed), and the registry of requests seen.
use pdo_contracts.Base.{String, Option, List}
use pdo_contracts.Base.Dict.{Dict}
use pdo_contracts.Base.Exec.{Action, ok}
use pdo_contracts.Base.Json.{Json}
use pdo_contracts.Platform.{Platform}

-- A stored capability key is the pair of its serialized keys, an endpoint the pair of its keys as the
-- request gave them.
abbrev pub Shelf : Type 0
Shelf = Dict String (String × String)

pub record World (P : Platform) : Type 0 where
  pub outside : P.Outside
  pub keystore : Option Shelf
  pub registry : Option (Dict String (Json × Json))
  pub request_registry : Dict String (List Json)

module _ {P : Platform} where
  -- A call that changes what lies outside.
  abbrev pub draw : {A : Type 0} → (P.Outside → A × P.Outside) → Action (World P) A
  draw f w = let (a, o) = f w.outside in (ok a, record w { outside = o })

  -- One that may raise, too.
  abbrev pub attempt : {A : Type 0} → Action P.Outside A → Action (World P) A
  attempt f w = let (r, o) = f w.outside in (r, record w { outside = o })
