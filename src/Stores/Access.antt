-- ===== src/Stores/Access.antt =====
-- Opening the store of an account and region: what it finds and what it leaves.
use localstack_bb.Base.{ℕ, ◌<◌, ◌≤◌, String, ◌≡◌, refl, ◌∙◌, none, some, arith, eq_iff, inl, inr}
use localstack_bb.Base.Dict
use localstack_bb.Base.Dict.{lookup-insert}
use localstack_bb.Base.Result.{Result, ok, err}
use localstack_bb.Stores.{
  Config, Error, World, add_store, region_getitem, add_bundle, account_getitem, get_region,
  get_store,
}
use localstack_bb.Stores.Shape.{
  IsWellFormed, account_getitem-lookup, region_getitem-cases, account_getitem-cases,
}

module _ {V : Type 0} where
  -- `o` is the store of an account and region.
  pub record Holds (w : World V) (account region : String) (o : ℕ) : Type 0 where
    pub bundle : ℕ
    pub at_account : Dict.lookup account w.root.accounts ≡ some bundle
    pub at_region : Dict.lookup region (w.bundles bundle).regions ≡ some o

  -- `w'` has the objects of `w` as they were, and perhaps more.
  pub record Extends (w w' : World V) : Type 0 where
    pub next : w.next ≤ w'.next
    pub universal : w'.root.universal ≡ w.root.universal
    pub accounts :
        (account : String) (b : ℕ)
        → Dict.lookup account w.root.accounts ≡ some b
        → Dict.lookup account w'.root.accounts ≡ some b
    pub regions :
        (b : ℕ) (region : String) (o : ℕ)
        → b < w.next
        → Dict.lookup region (w.bundles b).regions ≡ some o
        → Dict.lookup region (w'.bundles b).regions ≡ some o
    pub globals : (b : ℕ) → b < w.next → (w'.bundles b).global ≡ (w.bundles b).global
    pub stores : (o : ℕ) → o < w.next → w'.stores o ≡ w.stores o
    pub dicts : (g : ℕ) → g < w.next → w'.dicts g ≡ w.dicts g

  pub Extends-refl : (w : World V) → Extends w w
  Extends-refl w = record {
    next = omega arith;
    universal = refl;
    accounts = λ account b h. h;
    regions = λ b region o a h. h;
    globals = λ b a. refl;
    stores = λ o a. refl;
    dicts = λ g a. refl;
  }

  pub Extends-trans : {u w x : World V} → Extends u w → Extends w x → Extends u x
  Extends-trans {u} {w} {x} a b = record {
    next = omega (arith, a.next, b.next);
    universal = b.universal ∙ a.universal;
    accounts = λ account c h. b.accounts account c (a.accounts account c h);
    regions =
        λ c region o lt h. b.regions c region o (omega (arith, a.next)) (a.regions c region o lt h);
    globals = λ c lt. b.globals c (omega (arith, a.next)) ∙ a.globals c lt;
    stores = λ o lt. b.stores o (omega (arith, a.next)) ∙ a.stores o lt;
    dicts = λ g lt. b.dicts g (omega (arith, a.next)) ∙ a.dicts g lt;
  }

  add_bundle-Extends :
      (cfg : Config) (a : String) (w : World V)
      → Dict.lookup a w.root.accounts ≡ none
      → Extends w (add_bundle cfg a w)
  unfolding add_bundle
  add_bundle-Extends cfg a w new = record {
    next = omega arith;
    universal = refl;
    accounts = λ account b h.
        ground (arith, lookup-insert a account w.next w.root.accounts, eq_iff a account);
    regions = λ b region o lt h. ground arith;
    globals = λ b lt. ground arith;
    stores = λ o lt. ground arith;
    dicts = λ g lt. ground arith;
  }

  add_store-Extends :
      (c : ℕ) (r : String) (w : World V)
      → Dict.lookup r (w.bundles c).regions ≡ none
      → Extends w (add_store c r w)
  unfolding add_store
  add_store-Extends c r w new = record {
    next = omega arith;
    universal = refl;
    accounts = λ account b h. h;
    regions = λ b region o lt h.
        ground (arith, lookup-insert r region w.next (w.bundles c).regions, eq_iff r region);
    globals = λ b lt. ground arith;
    stores = λ o lt. ground arith;
    dicts = λ g lt. ground arith;
  }

  pub account_getitem-Extends :
      (cfg : Config) (a : String) (w : World V) → Extends w (account_getitem cfg a w).1
  account_getitem-Extends cfg a w = elim (account_getitem-cases cfg a w) [
    | inl same ↦ rw same (Extends-refl w)
    | inr (new, grown) ↦ rw grown (add_bundle-Extends cfg a w new)
  ]

  pub region_getitem-Extends :
      (cfg : Config) (b : ℕ) (r : String) (w : World V) → Extends w (region_getitem cfg b r w).1
  region_getitem-Extends cfg b r w = elim (region_getitem-cases cfg b r w) [
    | inl same ↦ rw same (Extends-refl w)
    | inr (new, grown) ↦ rw grown (add_store-Extends b r w new)
  ]

  region_getitem-lookup :
      (cfg : Config) (b : ℕ) (r : String) (w : World V) (o : ℕ)
      → (region_getitem cfg b r w).0 ≡ ok o
      → Dict.lookup r ((region_getitem cfg b r w).1.bundles b).regions ≡ some o
  unfolding region_getitem add_store
  region_getitem-lookup cfg b r w o e =
      ground (arith, lookup-insert r r w.next (w.bundles b).regions, eq_iff r r)

  get_region-Holds :
      (cfg : Config) (a r : String) (found : Result Error ℕ) (w : World V) (o : ℕ)
      → ((b : ℕ) → found ≡ ok b → Dict.lookup a w.root.accounts ≡ some b)
      → (get_region cfg r found w).0 ≡ ok o
      → Holds (get_region cfg r found w).1 a r o
  get_region-Holds cfg a r (ok b) w o h e = record {
    bundle = b;
    at_account = (region_getitem-Extends cfg b r w).accounts a b (h b refl);
    at_region = region_getitem-lookup cfg b r w o e;
  }
  get_region-Holds cfg a r (err x) w o h e = absurd (cc)

  get_region-Extends :
      (cfg : Config) (r : String) (found : Result Error ℕ) (w : World V)
      → Extends w (get_region cfg r found w).1
  get_region-Extends cfg r (ok b) w = region_getitem-Extends cfg b r w
  get_region-Extends cfg r (err x) w = Extends-refl w

  module _ {w : World V} (v : IsWellFormed w) (cfg : Config) (a r : String) where
    -- The store that is returned is the one registered for the account and region.
    pub get_store-Holds :
        (o : ℕ) → (get_store cfg a r w).0 ≡ ok o → Holds (get_store cfg a r w).1 a r o
    unfolding get_store
    get_store-Holds o e = get_region-Holds cfg a r _ _ o (account_getitem-lookup v cfg a) e

    pub get_store-Extends : Extends w (get_store cfg a r w).1
    unfolding get_store
    get_store-Extends =
        Extends-trans (account_getitem-Extends cfg a w) (get_region-Extends cfg r _ _)
