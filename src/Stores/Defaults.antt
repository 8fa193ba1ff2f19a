-- ===== src/Stores/Defaults.antt =====
-- What a client reads after a reset.
use localstack_bb.Base.{ℕ, String, ◌≡◌, Bool, some, [], arith, ◌∙◌}
use localstack_bb.Base.Dict
use localstack_bb.Base.Result.{ok}
use localstack_bb.Stores.{Default, default_value, World}
use localstack_bb.Stores.Attributes.{local_get, cross_region_get, cross_account_get}
use localstack_bb.Stores.Clear.{clear_dict, region_reset, account_reset}
use localstack_bb.Stores.Shape.{IsWellFormed}
use localstack_bb.Stores.Access.{Holds}
use localstack_bb.Stores.Reset.{
  NoLocals, region_reset-links, region_reset-NoLocals, region_reset-empty, region_resets-clears,
  region_resets-links,
}

module _ {V : Type 0} (name : String) (d : Default V) where
  -- An attribute with no entry reads its default.
  local_get_missing :
      (o : ℕ) (w : World V) → NoLocals o w → (local_get name d o w).0 ≡ default_value d
  unfolding local_get
  local_get_missing o w h = ground (arith, h.missing name)

  cross_region_get_missing :
      (o g : ℕ) (w : World V)
      → (w.stores o).global ≡ some g
      → w.dicts g ≡ []
      → (cross_region_get name d o w).0 ≡ ok (default_value d)
  unfolding cross_region_get Dict.lookup
  cross_region_get_missing o g w h e = ground arith

  cross_account_get_missing :
      (o g : ℕ) (w : World V)
      → (w.stores o).universal ≡ some g
      → w.dicts g ≡ []
      → (cross_account_get name d o w).0 ≡ ok (default_value d)
  unfolding cross_account_get Dict.lookup
  cross_account_get_missing o g w h e = ground arith

  module _ {w : World V} (v : IsWellFormed w) {account region : String} {o : ℕ}
      (h : Holds w account region o) where
    account_reset-NoLocals : NoLocals o (account_reset w)
    unfolding account_reset clear_dict
    account_reset-NoLocals =
        let c =
          region_resets-clears account region h.bundle o w.root.accounts w h.at_account
            h.at_region in
        record { missing = c.0.missing }

    account_reset-global : ((account_reset w).stores o).global ≡ some (w.bundles h.bundle).global
    unfolding account_reset clear_dict
    account_reset-global =
        (region_resets-links w.root.accounts o w).1
        ∙ (v.store_at account h.bundle region o h.at_account h.at_region).to_global

    account_reset-universal : ((account_reset w).stores o).universal ≡ some w.root.universal
    unfolding account_reset clear_dict
    account_reset-universal =
        (region_resets-links w.root.accounts o w).2
        ∙ (v.store_at account h.bundle region o h.at_account h.at_region).to_universal

    account_reset-empty : (account_reset w).dicts (w.bundles h.bundle).global ≡ []
    unfolding account_reset clear_dict
    account_reset-empty =
        let c =
          region_resets-clears account region h.bundle o w.root.accounts w h.at_account
            h.at_region in
        ground (arith, c.1)

    account_reset-universal_empty : (account_reset w).dicts w.root.universal ≡ []
    unfolding account_reset clear_dict
    account_reset-universal_empty = ground (arith, (region_resets-links w.root.accounts o w).0)

    -- After the account bundle's reset of a well-formed world, a store that was registered reads
    -- the default of every kind of attribute, also through a reference that a client has kept.
    pub account_reset_defaults :
        ((local_get name d o (account_reset w)).0 ≡ default_value d)
        × ((cross_region_get name d o (account_reset w)).0 ≡ ok (default_value d))
        × ((cross_account_get name d o (account_reset w)).0 ≡ ok (default_value d))
    account_reset_defaults = (
      local_get_missing o (account_reset w) account_reset-NoLocals,
      cross_region_get_missing o _ (account_reset w) account_reset-global account_reset-empty,
      cross_account_get_missing o _ (account_reset w) account_reset-universal
          account_reset-universal_empty,
    )

    -- After the reset of one region bundle its stores read the defaults of their local and their
    -- cross-region attributes, whether or not the reset is one of all accounts, and the account keeps
    -- its bundle.
    pub region_reset_defaults :
        (flag : Bool)
        → ((local_get name d o (region_reset flag h.bundle w)).0 ≡ default_value d)
          × ((cross_region_get name d o (region_reset flag h.bundle w)).0 ≡ ok (default_value d))
          × ((region_reset flag h.bundle w).root ≡ w.root)
    region_reset_defaults flag =
        let links = region_reset-links flag h.bundle w o in
        (
          local_get_missing o _ (region_reset-NoLocals flag h.bundle w region o h.at_region),
          cross_region_get_missing o _ _
              (links.1 ∙ (v.store_at account h.bundle region o h.at_account h.at_region).to_global)
              (region_reset-empty flag h.bundle w),
          links.0,
        )
