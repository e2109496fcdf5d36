-- ===== src/Guardian/Keystore/Restart.antt =====
-- The service keys outlive the process: a store that is closed and opened again has the same keys.
use pdo_contracts.Base.{String, ◌≡◌, ◌≢◌, refl, some, arith, string_eq, inl, inr, ne_of_compare}
use pdo_contracts.Base.Dict.{lookup, insert, lookup-insert}
use pdo_contracts.Base.Exec.{
  Exn, Result, ok, err, other, key_error, validation_error, Result-cases, or_key_error, ◌▷◌,
}
use pdo_contracts.Platform.{Platform}
use pdo_contracts.Platform.Laws.{IsLawful}
use pdo_contracts.Guardian.World.{World, Shelf}
use pdo_contracts.Guardian.Keys.{CapabilityKeys, serialize, deserialize}
use pdo_contracts.Guardian.Keystore.{
  ServiceKeys, get_capability_key, create_capability_key, get_or_create, open_keystore,
  close_keystore,
}
use pdo_contracts.Guardian.Keystore.Laws.{
  new_keys, create_capability_key_lem, deserialize-serialize,
}

abbrev pub mgmt_name : String
mgmt_name = "management_capability_key"

abbrev pub svc_name : String
svc_name = "service_capability_key"

pub names_differ : mgmt_name ≢ svc_name
names_differ = ne_of_compare _ _ refl

module _ (P : Platform) where
  -- The key that a shelf holds for a name.
  abbrev pub key_in : String → Shelf → Result (CapabilityKeys P)
  key_in k shelf = or_key_error k (lookup k shelf) ▷ λ (s, d). deserialize P s d

  get_lem :
      (k : String) (w : World P) (shelf : Shelf)
      → w.keystore ≡ some shelf
      → get_capability_key P k w ≡ (key_in k shelf, w)
  unfolding get_capability_key
  get_lem k w shelf h = ground arith

  module _ (L : IsLawful P) where
    -- What `get_or_create` leaves: a shelf that holds the key, and every key that was there before.
    record Provides (name : String) (before : Shelf) (key : CapabilityKeys P) (w' : World P)
        : Type 0 where
      shelf : Shelf
      stored : w'.keystore ≡ some shelf
      holds : key_in name shelf ≡ ok key
      keeps : (j : String) (k : CapabilityKeys P) → key_in j before ≡ ok k → key_in j shelf ≡ ok k

    get_or_create-created :
        (name : String) (w : World P) (shelf : Shelf)
        → w.keystore ≡ some shelf
        → (x : Exn) → key_in name shelf ≡ err x
        → Provides name shelf (new_keys P w) (create_capability_key P name w).1
    get_or_create-created name w shelf h x missing = record {
      shelf = insert name (serialize P (new_keys P w)) shelf;
      stored = ground (arith, create_capability_key_lem P name w shelf h);
      holds = ground (
        arith,
        lookup-insert name name (serialize P (new_keys P w)) shelf,
        deserialize-serialize P L w,
      );
      keeps =
          λ j k e. ground (arith, missing, lookup-insert j name (serialize P (new_keys P w)) shelf);
    }

    module _ (name : String) (w w' : World P) (shelf : Shelf) (key : CapabilityKeys P)
        (stored : w.keystore ≡ some shelf) (got : get_or_create P name w ≡ (ok key, w')) where
      Provides-of_missing : (x : Exn) → key_in name shelf ≡ err x → Provides name shelf key w'
      unfolding get_or_create
      Provides-of_missing (key_error k) p =
          let same_key : key ≡ new_keys P w =
            ground (
              arith,
              get_lem name w shelf stored,
              create_capability_key_lem P name w shelf stored,
            ) in
          let same_world : w' ≡ (create_capability_key P name w).1 =
            ground (arith, get_lem name w shelf stored) in
          rw (same_key, same_world) (get_or_create-created name w shelf stored (key_error k) p)
      Provides-of_missing validation_error p = absurd (ground (arith, get_lem name w shelf stored))
      Provides-of_missing (other m) p = absurd (ground (arith, get_lem name w shelf stored))

      get_or_create-Provides : Provides name shelf key w'
      unfolding get_or_create
      get_or_create-Provides = elim (Result-cases (key_in name shelf)) [
        | inl (k, p) ↦ record {
          shelf = shelf;
          stored = ground (arith, get_lem name w shelf stored);
          holds = ground (arith, get_lem name w shelf stored);
          keeps = λ j k' q. q;
        }
        | inr (x, p) ↦ Provides-of_missing x p
      ]

    pub get_or_create_of_held :
        (name : String) (w : World P) (shelf : Shelf) (key : CapabilityKeys P)
        → w.keystore ≡ some shelf
        → key_in name shelf ≡ ok key
        → get_or_create P name w ≡ (ok key, w)
    unfolding get_or_create
    get_or_create_of_held name w shelf key h e = ground (arith, get_lem name w shelf h)

    -- What a store that was opened holds: its two service keys, and every key that the file had.
    pub record Opened (file : Shelf) (keys : ServiceKeys P) (w' : World P) : Type 0 where
      pub shelf : Shelf
      pub stored : w'.keystore ≡ some shelf
      pub mgmt_held : key_in mgmt_name shelf ≡ ok keys.mgmt_capability_key
      pub svc_held : key_in svc_name shelf ≡ ok keys.svc_capability_key
      pub keeps : (j : String) (k : CapabilityKeys P) → key_in j file ≡ ok k → key_in j shelf ≡ ok k

    pub open_keystore-Opened :
        (file : Shelf) (w w' : World P) (keys : ServiceKeys P)
        → open_keystore P file w ≡ (ok keys, w')
        → Opened file keys w'
    unfolding open_keystore
    open_keystore-Opened file w w' keys opened =
        let w₀ : World P = record w { keystore = some file } in
        let w₁ = (get_or_create P mgmt_name w₀).1 in
        elim (Result-cases (get_or_create P mgmt_name w₀).0) [
          | inr (x, e) ↦ absurd (ground arith)
          | inl (mgmt, e) ↦
              let p : Provides mgmt_name file mgmt w₁ =
                get_or_create-Provides mgmt_name w₀ w₁ file mgmt refl (ground arith) in
              elim (Result-cases (get_or_create P svc_name w₁).0) [
                | inr (x, e') ↦ absurd (ground arith)
                | inl (svc, e') ↦
                    let q : Provides svc_name p.shelf svc w' =
                      get_or_create-Provides svc_name w₁ w' p.shelf svc p.stored (ground arith) in
                    record {
                      shelf = q.shelf;
                      stored = q.stored;
                      mgmt_held = q.keeps mgmt_name _ (ground (arith, p.holds));
                      svc_held = ground (arith, q.holds);
                      keeps = λ j k h. q.keeps j k (p.keeps j k h);
                    }
              ]
        ]

    -- A store whose file holds both keys is opened with these, and nothing else changes.
    pub open_keystore_of_held :
        (file : Shelf) (mgmt svc : CapabilityKeys P) (w : World P)
        → key_in mgmt_name file ≡ ok mgmt
        → key_in svc_name file ≡ ok svc
        → open_keystore P file w ≡ (
          ok (record { mgmt_capability_key = mgmt; svc_capability_key = svc }),
          record w { keystore = some file },
        )
    unfolding open_keystore
    open_keystore_of_held file mgmt svc w h h' =
        let u : World P = record w { keystore = some file } in
        ground (
          arith,
          get_or_create_of_held mgmt_name u file mgmt refl h,
          get_or_create_of_held svc_name u file svc refl h',
        )

    -- On a lawful platform, a store that was opened, closed and opened again from the file that it left has the same two
    -- keys, and the second opening generates none: it changes nothing but the open shelf.
    pub restart :
        (file : Shelf) (w w' u : World P) (keys : ServiceKeys P)
        → open_keystore P file w ≡ (ok keys, w')
        → (left : Shelf) × ((close_keystore P w').0 ≡ ok left)
          × (open_keystore P left u ≡ (ok keys, record u { keystore = some left }))
    unfolding close_keystore
    restart file w w' u keys opened =
        let o = open_keystore-Opened file w w' keys opened in
        (
          o.shelf,
          ground (arith, o.stored),
          open_keystore_of_held o.shelf keys.mgmt_capability_key keys.svc_capability_key u
              o.mgmt_held o.svc_held,
        )
