-- ===== src/Stores/Clear.antt =====
-- localstack-core/localstack/services/stores.py: `reset` of the region bundles and of the account
-- bundle.
use text.Mathlib.Text.{starts_with}
use localstack_bb.Base.{ℕ, Bool, true, Option, none, some, List, [], ◌∷◌, if◌then◌else◌}
use localstack_bb.Base.Dict
use localstack_bb.Base.Dict.{Dict}
use localstack_bb.Base.Heap.{update}
use localstack_bb.Stores.{World, local_attr_prefix}

module _ {V : Type 0} where
  -- The attributes that stay: those without the prefix of local attributes.
  unfoldable pub drop_local : Dict V → Dict V
  drop_local [] = []
  drop_local ((name, v) ∷ fields) =
      let rest = drop_local fields in
      if starts_with name local_attr_prefix then rest else (name, v) ∷ rest

  unfoldable pub clear_dict : Option ℕ → World V → World V
  clear_dict none w = w
  clear_dict (some g) w = record w { dicts = update w.dicts g [] }

  unfoldable pub clear_locals : ℕ → World V → World V
  unfolding drop_local
  clear_locals o w = record w {
    stores = update w.stores o (record (w.stores o) { fields = drop_local (w.stores o).fields });
  }

  -- One store of `RegionBundle.reset`.
  unfoldable pub reset_store : Bool → ℕ → World V → World V
  unfolding clear_dict clear_locals
  reset_store reset_universal o w =
      let w₁ = clear_dict (w.stores o).global w in
      let w₂ = if reset_universal then clear_dict (w.stores o).universal w₁ else w₁ in
      clear_locals o w₂

  unfoldable pub reset_stores : Bool → List ℕ → World V → World V
  unfolding reset_store
  reset_stores flag [] w = w
  reset_stores flag (o ∷ os) w = reset_stores flag os (reset_store flag o w)

  -- `RegionBundle.clear`
  unfoldable pub clear_regions : ℕ → World V → World V
  clear_regions b w = record w {
    bundles = update w.bundles b (record (w.bundles b) { regions = [] });
  }

  -- `RegionBundle.reset`
  unfoldable pub region_reset : Bool → ℕ → World V → World V
  unfolding reset_stores clear_regions
  region_reset flag b w =
      let w₁ = reset_stores flag (Dict.values (w.bundles b).regions) w in
      let w₂ = clear_dict (some (w₁.bundles b).global) w₁ in clear_regions b w₂

  unfoldable pub region_resets : Dict ℕ → World V → World V
  unfolding region_reset
  region_resets [] w = w
  region_resets ((account, b) ∷ rest) w = region_resets rest (region_reset true b w)

  -- `AccountRegionBundle.reset`
  unfoldable pub account_reset : World V → World V
  unfolding region_resets
  account_reset w =
      let w₁ = region_resets w.root.accounts w in
      let w₂ = clear_dict (some w₁.root.universal) w₁ in
      record w₂ { root = record (w₂.root) { accounts = [] } }
