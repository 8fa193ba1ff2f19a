-- ===== src/Stores/Frame.antt =====
-- The operations that write only attribute values, and the shape of the heap of stores.
use localstack_bb.Base.{ℕ, String, ◌≡◌, refl, ◌∙◌, Bool, some, List, [], ◌∷◌, arith}
use localstack_bb.Base.Dict
use localstack_bb.Stores.{Default, World}
use localstack_bb.Stores.Attributes.{
  local_get, local_set, cross_region_get, cross_region_set, cross_account_get, cross_account_set,
}
use localstack_bb.Stores.Clear.{reset_store, reset_stores}
use localstack_bb.Stores.Shape.{IsWellFormed, BundleAt, StoreAt}

module _ {V : Type 0} where
  -- `w'` has the references of `w`.
  pub record SameShape (w w' : World V) : Type 0 where
    pub next : w'.next ≡ w.next
    pub root : w'.root ≡ w.root
    pub bundles : w'.bundles ≡ w.bundles
    pub globals : (o : ℕ) → (w'.stores o).global ≡ (w.stores o).global
    pub universals : (o : ℕ) → (w'.stores o).universal ≡ (w.stores o).universal
    pub account_ids : (o : ℕ) → (w'.stores o).account_id ≡ (w.stores o).account_id
    pub region_names : (o : ℕ) → (w'.stores o).region_name ≡ (w.stores o).region_name

  pub SameShape-refl : (w : World V) → SameShape w w
  SameShape-refl w = record {
    next = refl;
    root = refl;
    bundles = refl;
    globals = λ o. refl;
    universals = λ o. refl;
    account_ids = λ o. refl;
    region_names = λ o. refl;
  }

  pub SameShape-trans : {u w x : World V} → SameShape u w → SameShape w x → SameShape u x
  SameShape-trans a b = record {
    next = b.next ∙ a.next;
    root = b.root ∙ a.root;
    bundles = b.bundles ∙ a.bundles;
    globals = λ o. b.globals o ∙ a.globals o;
    universals = λ o. b.universals o ∙ a.universals o;
    account_ids = λ o. b.account_ids o ∙ a.account_ids o;
    region_names = λ o. b.region_names o ∙ a.region_names o;
  }

  module _ {w w' : World V} (s : SameShape w w') (v : IsWellFormed w) where
    SameShape-BundleAt :
        (account : String) (b : ℕ)
        → Dict.lookup account w'.root.accounts ≡ some b
        → BundleAt w' account b
    SameShape-BundleAt account b h =
        let c = v.bundle_at account b (rw s.root at h) in
        ground (arith, s.next, s.root, s.bundles, c)

    SameShape-StoreAt :
        (account : String) (b : ℕ) (region : String) (o : ℕ)
        → Dict.lookup account w'.root.accounts ≡ some b
        → Dict.lookup region (w'.bundles b).regions ≡ some o
        → StoreAt w' b region o
    SameShape-StoreAt account b region o h k =
        let c = v.store_at account b region o (rw s.root at h) (rw s.bundles at k) in
        ground (
          arith,
          s.next,
          s.root,
          s.bundles,
          s.globals o,
          s.universals o,
          s.account_ids o,
          s.region_names o,
          c,
        )

    pub IsWellFormed-SameShape : IsWellFormed w'
    IsWellFormed-SameShape = record {
      universal_allocated = rw (s.next, s.root) v.universal_allocated;
      bundle_at = SameShape-BundleAt;
      store_at = SameShape-StoreAt;
      globals_apart = λ account account' b b' h h' e.
          v.globals_apart account account' b b' (rw s.root at h) (rw s.root at h')
            (rw s.bundles at e);
    }

  pub local_get-SameShape :
      (name : String) (d : Default V) (o : ℕ) (w : World V) → SameShape w (local_get name d o w).1
  unfolding local_get
  local_get-SameShape name d o w = ground arith

  pub local_set-SameShape :
      (name : String) (u : V) (o : ℕ) (w : World V) → SameShape w (local_set name u o w)
  unfolding local_set
  local_set-SameShape name u o w = ground arith

  pub cross_region_get-SameShape :
      (name : String) (d : Default V) (o : ℕ) (w : World V)
      → SameShape w (cross_region_get name d o w).1
  unfolding cross_region_get
  cross_region_get-SameShape name d o w = ground arith

  pub cross_region_set-SameShape :
      (name : String) (u : V) (o : ℕ) (w : World V) → SameShape w (cross_region_set name u o w).1
  unfolding cross_region_set
  cross_region_set-SameShape name u o w = ground arith

  pub cross_account_get-SameShape :
      (name : String) (d : Default V) (o : ℕ) (w : World V)
      → SameShape w (cross_account_get name d o w).1
  unfolding cross_account_get
  cross_account_get-SameShape name d o w = ground arith

  pub cross_account_set-SameShape :
      (name : String) (u : V) (o : ℕ) (w : World V) → SameShape w (cross_account_set name u o w).1
  unfolding cross_account_set
  cross_account_set-SameShape name u o w = ground arith

  pub reset_store-SameShape :
      (flag : Bool) (o : ℕ) (w : World V) → SameShape w (reset_store flag o w)
  unfolding reset_store
  reset_store-SameShape flag o w = ground arith

  pub reset_stores-SameShape :
      (flag : Bool) (os : List ℕ) (w : World V) → SameShape w (reset_stores flag os w)
  unfolding reset_stores
  reset_stores-SameShape flag [] w = SameShape-refl w
  reset_stores-SameShape flag (o ∷ os) w =
      SameShape-trans (reset_store-SameShape flag o w)
        (reset_stores-SameShape flag os (reset_store flag o w))
