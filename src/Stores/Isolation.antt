-- ===== src/Stores/Isolation.antt =====
-- What the stores of a service do not share, and opening a store twice.
use text.Mathlib.TextLemmas.{append_cancel_left}
use localstack_bb.Base.{ℕ, String, ◌≡◌, ◌≢◌, ◌⊎◌, refl, arith, eq_iff, str_eq_self, str_eq_ne}
use localstack_bb.Base.Dict.{lookup-insert}
use localstack_bb.Base.Result.{Result, ok, err}
use localstack_bb.Stores.{
  Config, Error, Default, World, local_attr_prefix, local_name, add_bundle, account_getitem,
  add_store, region_getitem, get_region, get_store,
}
use localstack_bb.Stores.Attributes.{local_get, local_set, cross_region_get, cross_region_set}
use localstack_bb.Stores.Shape.{IsWellFormed}
use localstack_bb.Stores.Access.{Holds}
use localstack_bb.Stores.Sharing.{Place-Holds}

local_name_ne : (name name' : String) → name ≢ name' → local_name name ≢ local_name name'
local_name_ne name name' ne e = ne (append_cancel_left local_attr_prefix name name' e)

module _ {V : Type 0} where
  module _ {w : World V} (v : IsWellFormed w) {a a' r r' : String} {o o' : ℕ} (h : Holds w a r o)
      (h' : Holds w a' r' o') (name name' : String) (d : Default V) (u : V) where
    -- In a well-formed world, a write to a cross-region attribute through a registered store is not
    -- seen from a registered store of another account.
    pub cross_region_isolated :
        a ≢ a'
        → (cross_region_get name' d o' (cross_region_set name u o w).1).0
          ≡ (cross_region_get name' d o' w).0
    unfolding cross_region_get cross_region_set
    cross_region_isolated ne =
        let p = Place-Holds v h in
        let p' = Place-Holds v h' in
        let apart : (w.bundles h.bundle).global ≢ (w.bundles h'.bundle).global =
          λ e. ne (v.globals_apart a a' h.bundle h'.bundle h.at_account h'.at_account e) in
        ground (arith, p.link.to_global, p'.link.to_global, apart)

    -- In a well-formed world, a write to a local attribute of a registered store is not seen from a
    -- registered store of another region or of another account.
    pub local_isolated :
        (a ≢ a') ⊎ (r ≢ r')
        → (local_get name' d o' (local_set name u o w)).0 ≡ (local_get name' d o' w).0
    unfolding local_get local_set
    local_isolated ne =
        let p = Place-Holds v h in
        let p' = Place-Holds v h' in ground (arith, p.link, p'.link, p.place, p'.place)

  -- What is written to a local attribute of a store is read back from it, and its other local
  -- attributes read as before.
  pub local_get-set :
      (name name' : String) (d : Default V) (u : V) (o : ℕ) (w : World V)
      → name ≢ name'
      → ((local_get name d o (local_set name u o w)).0 ≡ u)
        × ((local_get name' d o (local_set name u o w)).0 ≡ (local_get name' d o w).0)
  unfolding local_get local_set
  local_get-set name name' d u o w ne =
      let n = local_name name in
      let n' = local_name name' in
      let fields = (w.stores o).fields in
      ground (
        arith,
        lookup-insert n n u fields,
        lookup-insert n n' u fields,
        str_eq_self n,
        str_eq_ne n n' (local_name_ne name name' ne),
      )

  account_getitem_again :
      (cfg : Config) (a : String) (b : ℕ) (w w' : World V)
      → (account_getitem cfg a w).0 ≡ ok b
      → w'.root ≡ (account_getitem cfg a w).1.root
      → account_getitem cfg a w' ≡ (ok b, w')
  unfolding account_getitem add_bundle
  account_getitem_again cfg a b w w' e s =
      ground (arith, lookup-insert a a w.next w.root.accounts, eq_iff a a)

  region_getitem_again :
      (cfg : Config) (b : ℕ) (r : String) (o : ℕ) (w : World V)
      → (region_getitem cfg b r w).0 ≡ ok o
      → region_getitem cfg b r (region_getitem cfg b r w).1 ≡ (ok o, (region_getitem cfg b r w).1)
  unfolding region_getitem add_store
  region_getitem_again cfg b r o w e =
      ground (arith, lookup-insert r r w.next (w.bundles b).regions, eq_iff r r)

  region_getitem-root :
      (cfg : Config) (b : ℕ) (r : String) (w : World V) → (region_getitem cfg b r w).1.root ≡ w.root
  unfolding region_getitem add_store
  region_getitem-root cfg b r w = ground arith

  get_region_again :
      (cfg : Config) (a r : String) (o : ℕ) (w : World V) (found : Result Error ℕ)
      → (account_getitem cfg a w).0 ≡ found
      → (get_region cfg r found (account_getitem cfg a w).1).0 ≡ ok o
      → get_store cfg a r (get_region cfg r found (account_getitem cfg a w).1).1
        ≡ (ok o, (get_region cfg r found (account_getitem cfg a w).1).1)
  unfolding get_store
  get_region_again cfg a r o w (ok b) f e =
      let w₁ = (account_getitem cfg a w).1 in
      rw
        (account_getitem_again cfg a b w (region_getitem cfg b r w₁).1 f
          (region_getitem-root cfg b r w₁))
        (region_getitem_again cfg b r o w₁ e)
  get_region_again cfg a r o w (err x) f e = absurd (cc)

  -- Opening the store of an account and region again returns the same store and changes nothing.
  pub get_store_again :
      (cfg : Config) (a r : String) (o : ℕ) (w : World V)
      → (get_store cfg a r w).0 ≡ ok o
      → get_store cfg a r (get_store cfg a r w).1 ≡ (ok o, (get_store cfg a r w).1)
  unfolding get_store
  get_store_again cfg a r o w e = get_region_again cfg a r o w _ refl e
