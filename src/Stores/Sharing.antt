-- ===== src/Stores/Sharing.antt =====
-- What the stores of a service share: an attribute of each kind, written through one store and read
-- through another.
use localstack_bb.Base.{ℕ, String, ◌≡◌, some, arith, eq_iff, ◌∙◌, ap}
use localstack_bb.Base.Dict
use localstack_bb.Base.Dict.{lookup-insert}
use localstack_bb.Base.Result.{ok}
use localstack_bb.Stores.{Config, Default, World, get_store}
use localstack_bb.Stores.Attributes.{
  cross_region_get, cross_region_set, cross_account_get, cross_account_set,
}
use localstack_bb.Stores.Shape.{IsWellFormed, BundleAt, StoreAt, get_store-IsWellFormed}
use localstack_bb.Stores.Frame.{
  SameShape, IsWellFormed-SameShape, cross_region_set-SameShape, cross_account_set-SameShape,
}
use localstack_bb.Stores.Access.{Holds, Extends, get_store-Holds, get_store-Extends}

module _ {V : Type 0} where
  -- What a registered store knows of its bundle, over one shape.
  pub record Place (w : World V) (account region : String) (o : ℕ) : Type 0 where
    pub bundle : ℕ
    pub at_account : Dict.lookup account w.root.accounts ≡ some bundle
    pub at_region : Dict.lookup region (w.bundles bundle).regions ≡ some o
    pub place : BundleAt w account bundle
    pub link : StoreAt w bundle region o

  pub Place-Holds :
      {w : World V} {account region : String} {o : ℕ}
      → IsWellFormed w
      → Holds w account region o
      → Place w account region o
  Place-Holds {account} {region} {o} v h = record {
    bundle = h.bundle;
    at_account = h.at_account;
    at_region = h.at_region;
    place = v.bundle_at account h.bundle h.at_account;
    link = v.store_at account h.bundle region o h.at_account h.at_region;
  }

  pub get_store-Place :
      {w : World V} (v : IsWellFormed w) (cfg : Config) (a r : String) (o : ℕ)
      → (get_store cfg a r w).0 ≡ ok o
      → Place (get_store cfg a r w).1 a r o
  get_store-Place v cfg a r o e =
      Place-Holds (get_store-IsWellFormed v cfg a r) (get_store-Holds v cfg a r o e)

  -- Reading a shared attribute finds the entry of the dict that the store refers to.
  module _ (name : String) (u : V) (o : ℕ) (w : World V) (g : ℕ) where
    cross_region_set_entry :
        (w.stores o).global ≡ some g
        → Dict.lookup name ((cross_region_set name u o w).1.dicts g) ≡ some u
    unfolding cross_region_set
    cross_region_set_entry h =
        ground (arith, lookup-insert name name u (w.dicts g), eq_iff name name)

    cross_region_get_entry :
        (d : Default V)
        → (w.stores o).global ≡ some g
        → Dict.lookup name (w.dicts g) ≡ some u
        → (cross_region_get name d o w).0 ≡ ok u
    unfolding cross_region_get
    cross_region_get_entry d h e = ground arith

    cross_account_set_entry :
        (w.stores o).universal ≡ some g
        → Dict.lookup name ((cross_account_set name u o w).1.dicts g) ≡ some u
    unfolding cross_account_set
    cross_account_set_entry h =
        ground (arith, lookup-insert name name u (w.dicts g), eq_iff name name)

    cross_account_get_entry :
        (d : Default V)
        → (w.stores o).universal ≡ some g
        → Dict.lookup name (w.dicts g) ≡ some u
        → (cross_account_get name d o w).0 ≡ ok u
    unfolding cross_account_get
    cross_account_get_entry d h e = ground arith

  -- Two stores of one account refer to the same dict, also where the second is opened later.
  module _ {w₁ w₂ w₃ : World V} {a r r' : String} {o o' : ℕ} (p : Place w₁ a r o)
      (s : SameShape w₁ w₂) (x : Extends w₂ w₃) (p' : Place w₃ a r' o') where
    same_bundle : p'.bundle ≡ p.bundle
    same_bundle = ground (arith, x.accounts a p.bundle, s.root, p.at_account, p'.at_account)

    same_global : (w₃.stores o').global ≡ some (w₁.bundles p.bundle).global
    same_global =
        p'.link.to_global
        ∙ ap (λ b. some (w₃.bundles b).global) same_bundle
        ∙ ap some (x.globals p.bundle (rw s.next p.place.allocated))
        ∙ ap (λ f. some (f p.bundle).global) s.bundles

    same_dict : w₃.dicts (w₁.bundles p.bundle).global ≡ w₂.dicts (w₁.bundles p.bundle).global
    same_dict = x.dicts (w₁.bundles p.bundle).global (rw s.next p.place.global_allocated)

  module _ {w : World V} (v : IsWellFormed w) (cfg : Config) (a r : String) (o : ℕ)
      (found : (get_store cfg a r w).0 ≡ ok o) (name : String) (d : Default V) (u : V) where
    -- The world with the store of the first key open, and the worlds after each kind of write.
    abbrev opened : World V
    opened = (get_store cfg a r w).1

    abbrev region_written : World V
    region_written = (cross_region_set name u o opened).1

    abbrev account_written : World V
    account_written = (cross_account_set name u o opened).1

    -- From a well-formed world on, a cross-region attribute that is written through a store that
    -- was opened is read in every region of the account whose store then opens.
    pub cross_region_shared :
        (r' : String) (o' : ℕ)
        → (get_store cfg a r' region_written).0 ≡ ok o'
        → (cross_region_get name d o' (get_store cfg a r' region_written).1).0 ≡ ok u
    cross_region_shared r' o' found' =
        let p = get_store-Place v cfg a r o found in
        let s = cross_region_set-SameShape name u o opened in
        let v₂ = IsWellFormed-SameShape s (get_store-IsWellFormed v cfg a r) in
        let p' = get_store-Place v₂ cfg a r' o' found' in
        let x = get_store-Extends v₂ cfg a r' in
        cross_region_get_entry name u o' _ _ d (same_global p s x p')
          (rw (same_dict p s x p') (cross_region_set_entry name u o opened _ p.link.to_global))

    -- From a well-formed world on, a cross-account attribute that is written through a store that
    -- was opened is read in every account and region whose store then opens.
    pub cross_account_shared :
        (a' r' : String) (o' : ℕ)
        → (get_store cfg a' r' account_written).0 ≡ ok o'
        → (cross_account_get name d o' (get_store cfg a' r' account_written).1).0 ≡ ok u
    cross_account_shared a' r' o' found' =
        let p = get_store-Place v cfg a r o found in
        let s = cross_account_set-SameShape name u o opened in
        let v₁ = get_store-IsWellFormed v cfg a r in
        let v₂ = IsWellFormed-SameShape s v₁ in
        let p' = get_store-Place v₂ cfg a' r' o' found' in
        let x = get_store-Extends v₂ cfg a' r' in
        let e = p'.link.to_universal ∙ ap some (x.universal ∙ ap (λ t. t.universal) s.root) in
        cross_account_get_entry name u o' _ _ d e (
          rw (x.dicts opened.root.universal (rw s.next v₁.universal_allocated))
            (cross_account_set_entry name u o opened _ p.link.to_universal))
