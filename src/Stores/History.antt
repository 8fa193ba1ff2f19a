-- ===== src/Stores/History.antt =====
-- Every history of the stores of a service, from the empty account bundle on.
use localstack_bb.Base.{ℕ, String, ◌≡◌, Bool, some, arith}
use localstack_bb.Base.Dict
use localstack_bb.Stores.{
  Config, Default, World, new_bundle, region_getitem, account_getitem, get_store,
}
use localstack_bb.Stores.Attributes.{
  local_get, local_set, cross_region_get, cross_region_set, cross_account_get, cross_account_set,
}
use localstack_bb.Stores.Clear.{clear_dict, clear_regions, region_reset, account_reset}
use localstack_bb.Stores.Shape.{
  IsWellFormed, new_bundle-IsWellFormed, get_store-IsWellFormed, account_getitem-IsWellFormed,
  region_getitem-IsWellFormed,
}
use localstack_bb.Stores.Frame.{
  SameShape, IsWellFormed-SameShape, local_get-SameShape, local_set-SameShape,
  cross_region_get-SameShape, cross_region_set-SameShape, cross_account_get-SameShape,
  cross_account_set-SameShape, reset_stores-SameShape,
}
use localstack_bb.Stores.Reset.{region_resets-links}

module _ {V : Type 0} where
  clear_dict-SameShape : (g : ℕ) (w : World V) → SameShape w (clear_dict (some g) w)
  unfolding clear_dict
  clear_dict-SameShape g w = ground arith

  clear_regions-IsWellFormed :
      (b : ℕ) {w : World V} → IsWellFormed w → IsWellFormed (clear_regions b w)
  unfolding clear_regions Dict.lookup
  clear_regions-IsWellFormed b {w} v = record {
    universal_allocated = v.universal_allocated;
    bundle_at = λ account c h. ground (arith, v.bundle_at account c);
    store_at = λ account c region o h k. ground (arith, v.store_at account c region o);
    globals_apart =
        λ account account' c c' h h' e. ground (arith, v.globals_apart account account' c c');
  }

  pub region_reset-IsWellFormed :
      (flag : Bool) (b : ℕ) {w : World V} → IsWellFormed w → IsWellFormed (region_reset flag b w)
  unfolding region_reset
  region_reset-IsWellFormed flag b {w} v = clear_regions-IsWellFormed b (
      IsWellFormed-SameShape (clear_dict-SameShape _ _) (
        IsWellFormed-SameShape (reset_stores-SameShape flag (Dict.values (w.bundles b).regions) w)
          v))

  pub account_reset-IsWellFormed : {w : World V} → IsWellFormed w → IsWellFormed (account_reset w)
  unfolding account_reset clear_dict Dict.lookup
  account_reset-IsWellFormed {w} v =
      let links = region_resets-links w.root.accounts 0 w in
      record {
        universal_allocated = ground (arith, links.0, links.3, v.universal_allocated);
        bundle_at = λ account b h. ground arith;
        store_at = λ account b region o h k. ground arith;
        globals_apart = λ account account' b b' h h' e. ground arith;
      }

  -- One call of a client: a key, an attribute or a reset. A region's key is looked up in a bundle
  -- that is registered for an account.
  pub data Step (cfg : Config) : World V → World V → Type 0 where
    open_account : (a : String) (w : World V) → Step cfg w (account_getitem cfg a w).1
    open_region :
        (a : String) (b : ℕ) (r : String) (w : World V)
        → Dict.lookup a w.root.accounts ≡ some b
        → Step cfg w (region_getitem cfg b r w).1
    open_store : (a r : String) (w : World V) → Step cfg w (get_store cfg a r w).1
    read_local :
        (n : String) (d : Default V) (o : ℕ) (w : World V) → Step cfg w (local_get n d o w).1
    write_local : (n : String) (u : V) (o : ℕ) (w : World V) → Step cfg w (local_set n u o w)
    read_cross_region :
        (n : String) (d : Default V) (o : ℕ) (w : World V) → Step cfg w (cross_region_get n d o w).1
    write_cross_region :
        (n : String) (u : V) (o : ℕ) (w : World V) → Step cfg w (cross_region_set n u o w).1
    read_cross_account :
        (n : String) (d : Default V) (o : ℕ) (w : World V)
        → Step cfg w (cross_account_get n d o w).1
    write_cross_account :
        (n : String) (u : V) (o : ℕ) (w : World V) → Step cfg w (cross_account_set n u o w).1
    reset_region : (flag : Bool) (b : ℕ) (w : World V) → Step cfg w (region_reset flag b w)
    reset_all : (w : World V) → Step cfg w (account_reset w)

  pub data Reach (cfg : Config) (w : World V) : World V → Type 0 where
    here : Reach cfg w w
    next : {x y : World V} → Reach cfg w x → Step cfg x y → Reach cfg w y

  pub Step-IsWellFormed :
      {cfg : Config} {w x : World V} → Step cfg w x → IsWellFormed w → IsWellFormed x
  Step-IsWellFormed {cfg} (open_account a w) v = account_getitem-IsWellFormed v cfg a
  Step-IsWellFormed {cfg} (open_region a b r w h) v = region_getitem-IsWellFormed v a b h r cfg
  Step-IsWellFormed {cfg} (open_store a r w) v = get_store-IsWellFormed v cfg a r
  Step-IsWellFormed (read_local n d o w) v = IsWellFormed-SameShape (local_get-SameShape n d o w) v
  Step-IsWellFormed (write_local n u o w) v = IsWellFormed-SameShape (local_set-SameShape n u o w) v
  Step-IsWellFormed (read_cross_region n d o w) v =
      IsWellFormed-SameShape (cross_region_get-SameShape n d o w) v
  Step-IsWellFormed (write_cross_region n u o w) v =
      IsWellFormed-SameShape (cross_region_set-SameShape n u o w) v
  Step-IsWellFormed (read_cross_account n d o w) v =
      IsWellFormed-SameShape (cross_account_get-SameShape n d o w) v
  Step-IsWellFormed (write_cross_account n u o w) v =
      IsWellFormed-SameShape (cross_account_set-SameShape n u o w) v
  Step-IsWellFormed (reset_region flag b w) v = region_reset-IsWellFormed flag b v
  Step-IsWellFormed (reset_all w) v = account_reset-IsWellFormed v

  Reach-keeps : {cfg : Config} {w x : World V} → IsWellFormed w → Reach cfg w x → IsWellFormed x
  Reach-keeps v here = v
  Reach-keeps v (next r st) = Step-IsWellFormed st (Reach-keeps v r)

  -- Whatever the calls, from the empty account bundle on: every registered store refers to the shared
  -- dicts of its account and of the service and knows its account and region, and no two accounts
  -- share a dict.
  pub Reach-IsWellFormed :
      (cfg : Config) (service : String) (validate : Bool) (w : World V)
      → Reach cfg (new_bundle service validate) w
      → IsWellFormed w
  Reach-IsWellFormed cfg service validate w r =
      Reach-keeps (new_bundle-IsWellFormed service validate) r
