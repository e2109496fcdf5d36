-- ===== src/Guardian/Keystore/Laws.antt =====
-- The key store keeps what was created, also over a restart of the service.
use pdo_contracts.Base.{String, ◌≡◌, ◌≢◌, some, arith, string_eq, inl, inr, Option-cases}
use pdo_contracts.Base.Dict.{insert, lookup-insert}
use pdo_contracts.Base.Exec.{ok}
use pdo_contracts.Platform.{Platform}
use pdo_contracts.Platform.Laws.{IsLawful}
use pdo_contracts.Guardian.World.{World, Shelf}
use pdo_contracts.Guardian.Keys.{
  CapabilityKeys, capability_keys, create_new_keys, serialize, deserialize,
}
use pdo_contracts.Guardian.Keystore.{get_capability_key, set_capability_key, create_capability_key}

module _ (P : Platform) where
  -- The keys that `create_new_keys` makes in a world, and the world after it.
  abbrev pub new_keys : World P → CapabilityKeys P
  new_keys w =
      let (s, o) = P.sig_generate w.outside in
      let (d, _) = P.pkenc_generate o in capability_keys P s d

  abbrev pub outside_after : World P → P.Outside
  outside_after w = let (s, o) = P.sig_generate w.outside in (P.pkenc_generate o).1

  pub create_capability_key_lem :
      (identity : String) (w : World P) (shelf : Shelf)
      → w.keystore ≡ some shelf
      → create_capability_key P identity w ≡ (
        ok (new_keys w),
        record w {
          outside = outside_after w;
          keystore = some (insert identity (serialize P (new_keys w)) shelf);
        },
      )
  unfolding create_capability_key set_capability_key create_new_keys
  create_capability_key_lem identity w shelf h = ground arith

  module _ (L : IsLawful P) where
    pub deserialize-serialize :
        (w : World P)
        → (let (s, d) = serialize P (new_keys w) in deserialize P s d) ≡ ok (new_keys w)
    unfolding serialize deserialize capability_keys
    deserialize-serialize w = rw (L.sig_read_back, L.pkenc_read_back)

    -- On a lawful platform, a key that was created in an open store is the key that the identity then has.
    pub get-create :
        (identity : String) (w : World P) (shelf : Shelf)
        → w.keystore ≡ some shelf
        → let (r, w') = create_capability_key P identity w in
          (r ≡ ok (new_keys w)) × (get_capability_key P identity w' ≡ (ok (new_keys w), w'))
    unfolding get_capability_key
    get-create identity w shelf h = ground (
      arith,
      create_capability_key_lem identity w shelf h,
      lookup-insert identity identity (serialize P (new_keys w)) shelf,
      deserialize-serialize w,
    )

  -- Creating a key for one identity leaves what any other reads, whether the store is open or not.
  get-create_ne :
      (identity other_identity : String) (w : World P)
      → other_identity ≢ identity
      → (get_capability_key P other_identity (create_capability_key P identity w).1).0
        ≡ (get_capability_key P other_identity w).0
  unfolding get_capability_key
  get-create_ne identity other_identity w ne = elim (Option-cases w.keystore) [
    | inl closed ↦ unfold create_capability_key set_capability_key create_new_keys in ground arith
    | inr (shelf, e) ↦ ground (
      arith,
      create_capability_key_lem identity w shelf e,
      lookup-insert other_identity identity (serialize P (new_keys w)) shelf,
    )
  ]
