-- ===== src/Stores/Shape.antt =====
-- The shape of the heap of stores: which references every operation keeps.
use localstack_bb.Base.{
  ℕ, ◌<◌, String, ◌≡◌, ◌≢◌, refl, Bool, none, some, arith, eq_iff, ◌⊎◌, inl, inr,
}
use localstack_bb.Base.Dict
use localstack_bb.Base.Dict.{lookup-insert}
use localstack_bb.Base.Result.{Result, ok, err}
use localstack_bb.Stores.{
  Config, Error, World, add_store, region_getitem, add_bundle, account_getitem, get_region,
  get_store, new_bundle,
}

module _ {V : Type 0} where
  -- A region bundle that is registered for an account.
  pub record BundleAt (w : World V) (account : String) (b : ℕ) : Type 0 where
    pub allocated : b < w.next
    pub of_account : (w.bundles b).account_id ≡ account
    pub to_universal : (w.bundles b).universal ≡ w.root.universal
    pub global_allocated : (w.bundles b).global < w.next
    pub global_apart : (w.bundles b).global ≢ w.root.universal

  -- A store that is registered for a region in bundle `b`.
  pub record StoreAt (w : World V) (b : ℕ) (region : String) (o : ℕ) : Type 0 where
    pub allocated : o < w.next
    pub to_global : (w.stores o).global ≡ some (w.bundles b).global
    pub to_universal : (w.stores o).universal ≡ some w.root.universal
    pub of_account : (w.stores o).account_id ≡ some (w.bundles b).account_id
    pub of_region : (w.stores o).region_name ≡ some region

  -- Every store shares the dict of its bundle and that of the account bundle, no two accounts share
  -- one, and each store knows its place.
  pub record IsWellFormed (w : World V) : Type 0 where
    pub universal_allocated : w.root.universal < w.next
    pub bundle_at :
        (account : String) (b : ℕ)
        → Dict.lookup account w.root.accounts ≡ some b
        → BundleAt w account b
    pub store_at :
        (account : String) (b : ℕ) (region : String) (o : ℕ)
        → Dict.lookup account w.root.accounts ≡ some b
        → Dict.lookup region (w.bundles b).regions ≡ some o
        → StoreAt w b region o
    pub globals_apart :
        (account account' : String) (b b' : ℕ)
        → Dict.lookup account w.root.accounts ≡ some b
        → Dict.lookup account' w.root.accounts ≡ some b'
        → (w.bundles b).global ≡ (w.bundles b').global
        → account ≡ account'

  pub new_bundle-IsWellFormed :
      (service : String) (validate : Bool) → IsWellFormed (new_bundle service validate)
  unfolding new_bundle Dict.lookup
  new_bundle-IsWellFormed service validate = record {
    universal_allocated = omega arith;
    bundle_at = λ account b h. ground arith;
    store_at = λ account b region o h k. ground arith;
    globals_apart = λ account account' b b' h h' e. ground arith;
  }

  pub region_getitem-cases :
      (cfg : Config) (b : ℕ) (r : String) (w : World V)
      → ((region_getitem cfg b r w).1 ≡ w)
        ⊎ ((Dict.lookup r (w.bundles b).regions ≡ none)
            × ((region_getitem cfg b r w).1 ≡ add_store b r w))
  unfolding region_getitem
  region_getitem-cases cfg b r w = ground arith

  pub account_getitem-cases :
      (cfg : Config) (a : String) (w : World V)
      → ((account_getitem cfg a w).1 ≡ w)
        ⊎ ((Dict.lookup a w.root.accounts ≡ none)
            × ((account_getitem cfg a w).1 ≡ add_bundle cfg a w))
  unfolding account_getitem
  account_getitem-cases cfg a w = ground arith

  module _ {w : World V} (v : IsWellFormed w) where
    add_bundle-BundleAt :
        (cfg : Config) (a : String)
        → Dict.lookup a w.root.accounts ≡ none
        → (account : String) (b : ℕ)
        → Dict.lookup account (add_bundle cfg a w).root.accounts ≡ some b
        → BundleAt (add_bundle cfg a w) account b
    unfolding add_bundle
    add_bundle-BundleAt cfg a new account b h = ground (
      arith,
      lookup-insert a account w.next w.root.accounts,
      eq_iff a account,
      v.bundle_at account b,
    )

    add_bundle-StoreAt :
        (cfg : Config) (a : String)
        → Dict.lookup a w.root.accounts ≡ none
        → (account : String) (b : ℕ) (region : String) (o : ℕ)
        → Dict.lookup account (add_bundle cfg a w).root.accounts ≡ some b
        → Dict.lookup region ((add_bundle cfg a w).bundles b).regions ≡ some o
        → StoreAt (add_bundle cfg a w) b region o
    unfolding add_bundle Dict.lookup
    add_bundle-StoreAt cfg a new account b region o h k = ground (
      arith,
      lookup-insert a account w.next w.root.accounts,
      eq_iff a account,
      v.bundle_at account b,
      v.store_at account b region o,
    )

    add_bundle-globals_apart :
        (cfg : Config) (a : String)
        → Dict.lookup a w.root.accounts ≡ none
        → (account account' : String) (b b' : ℕ)
        → Dict.lookup account (add_bundle cfg a w).root.accounts ≡ some b
        → Dict.lookup account' (add_bundle cfg a w).root.accounts ≡ some b'
        → ((add_bundle cfg a w).bundles b).global ≡ ((add_bundle cfg a w).bundles b').global
        → account ≡ account'
    unfolding add_bundle
    add_bundle-globals_apart cfg a new account account' b b' h h' e = ground (
      arith,
      lookup-insert a account w.next w.root.accounts,
      lookup-insert a account' w.next w.root.accounts,
      eq_iff a account,
      eq_iff a account',
      v.bundle_at account b,
      v.bundle_at account' b',
      v.globals_apart account account' b b',
    )

    add_bundle-IsWellFormed :
        (cfg : Config) (a : String)
        → Dict.lookup a w.root.accounts ≡ none
        → IsWellFormed (add_bundle cfg a w)
    unfolding add_bundle
    add_bundle-IsWellFormed cfg a new = record {
      universal_allocated = omega (arith, v.universal_allocated);
      bundle_at = add_bundle-BundleAt cfg a new;
      store_at = add_bundle-StoreAt cfg a new;
      globals_apart = add_bundle-globals_apart cfg a new;
    }

    module _ (a : String) (c : ℕ) (here : Dict.lookup a w.root.accounts ≡ some c) (r : String) where
      add_store-BundleAt :
          (account : String) (b : ℕ)
          → Dict.lookup account w.root.accounts ≡ some b
          → BundleAt (add_store c r w) account b
      unfolding add_store
      add_store-BundleAt account b h = ground (arith, v.bundle_at account b)

      add_store-StoreAt :
          (account : String) (b : ℕ) (region : String) (o : ℕ)
          → Dict.lookup account w.root.accounts ≡ some b
          → Dict.lookup region ((add_store c r w).bundles b).regions ≡ some o
          → StoreAt (add_store c r w) b region o
      unfolding add_store
      add_store-StoreAt account b region o h k = ground (
        arith,
        lookup-insert r region w.next (w.bundles c).regions,
        eq_iff r region,
        v.bundle_at account b,
        v.store_at account b region o,
      )

      add_store-globals_apart :
          (account account' : String) (b b' : ℕ)
          → Dict.lookup account w.root.accounts ≡ some b
          → Dict.lookup account' w.root.accounts ≡ some b'
          → ((add_store c r w).bundles b).global ≡ ((add_store c r w).bundles b').global
          → account ≡ account'
      unfolding add_store
      add_store-globals_apart account account' b b' h h' e =
          ground (arith, v.globals_apart account account' b b')

      add_store-IsWellFormed : IsWellFormed (add_store c r w)
      unfolding add_store
      add_store-IsWellFormed = record {
        universal_allocated = omega (arith, v.universal_allocated);
        bundle_at = add_store-BundleAt;
        store_at = add_store-StoreAt;
        globals_apart = add_store-globals_apart;
      }

      pub region_getitem-IsWellFormed : (cfg : Config) → IsWellFormed (region_getitem cfg c r w).1
      region_getitem-IsWellFormed cfg = elim (region_getitem-cases cfg c r w) [
        | inl same ↦ rw same v
        | inr (_, grown) ↦ rw grown add_store-IsWellFormed
      ]

    -- The bundle that an account's key returns is registered for it.
    pub account_getitem-lookup :
        (cfg : Config) (a : String) (b : ℕ)
        → (account_getitem cfg a w).0 ≡ ok b
        → Dict.lookup a (account_getitem cfg a w).1.root.accounts ≡ some b
    unfolding account_getitem add_bundle
    account_getitem-lookup cfg a b e =
        ground (arith, lookup-insert a a w.next w.root.accounts, eq_iff a a)

    pub account_getitem-IsWellFormed :
        (cfg : Config) (a : String) → IsWellFormed (account_getitem cfg a w).1
    account_getitem-IsWellFormed cfg a = elim (account_getitem-cases cfg a w) [
      | inl same ↦ rw same v
      | inr (new, grown) ↦ rw grown (add_bundle-IsWellFormed cfg a new)
    ]

    get_region-IsWellFormed :
        (cfg : Config) (a r : String) (found : Result Error ℕ)
        → ((b : ℕ) → found ≡ ok b → Dict.lookup a w.root.accounts ≡ some b)
        → IsWellFormed (get_region cfg r found w).1
    get_region-IsWellFormed cfg a r (ok b) h = region_getitem-IsWellFormed a b (h b refl) r cfg
    get_region-IsWellFormed cfg a r (err e) h = v

  -- Opening the store of an account and region keeps the shape.
  pub get_store-IsWellFormed :
      {w : World V} (v : IsWellFormed w) (cfg : Config) (account region : String)
      → IsWellFormed (get_store cfg account region w).1
  unfolding get_store
  get_store-IsWellFormed {w} v cfg account region =
      get_region-IsWellFormed (account_getitem-IsWellFormed v cfg account) cfg account region _
        (account_getitem-lookup v cfg account)
