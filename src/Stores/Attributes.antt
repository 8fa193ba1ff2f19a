-- ===== src/Stores/Attributes.antt =====
-- localstack-core/localstack/services/stores.py: the descriptors that mark an attribute as local to
-- a region, shared by the regions of an account, or shared by all accounts.
use localstack_bb.Base.{ℕ, String, Option, none, some}
use localstack_bb.Base.Dict
use localstack_bb.Base.Dict.{Dict}
use localstack_bb.Base.Heap.{update}
use localstack_bb.Base.Result.{Result, ok, err}
use localstack_bb.Stores.{Default, default_value, Error, no_association, World, local_name}

-- What an attribute reads in a dict: its entry, else the default.
abbrev pub entry_or : {V : Type 0} → Default V → Option V → V
entry_or d none = default_value d
entry_or d (some v) = v

module _ {V : Type 0} where
  abbrev pub set_field : ℕ → String → V → World V → World V
  set_field o name v w = record w {
    stores =
        update w.stores o (record (w.stores o) { fields = Dict.insert name v (w.stores o).fields });
  }

  abbrev pub set_entry : ℕ → String → V → World V → World V
  set_entry g name v w = record w { dicts = update w.dicts g (Dict.insert name v (w.dicts g)) }

  -- `LocalAttribute.__get__`: a missing attribute is set to its default first.
  unfoldable pub local_get : String → Default V → ℕ → World V → V × World V
  local_get name d o w = elim (Dict.lookup (local_name name) (w.stores o).fields) [
    | some v ↦ (v, w)
    | none ↦ (default_value d, set_field o (local_name name) (default_value d) w)
  ]

  unfoldable pub local_set : String → V → ℕ → World V → World V
  local_set name v o w = set_field o (local_name name) v w

  -- A shared attribute of a store, in the dict that the store refers to.
  shared_get : Option ℕ → String → Default V → World V → Result Error V × World V
  shared_get none name d w = (err no_association, w)
  shared_get (some g) name d w = elim (Dict.lookup name (w.dicts g)) [
    | some v ↦ (ok v, w)
    | none ↦ (ok (default_value d), set_entry g name (default_value d) w)
  ]

  shared_set : Option ℕ → String → V → World V → Result Error (Unit {0}) × World V
  shared_set none name v w = (err no_association, w)
  shared_set (some g) name v w = (ok tt, set_entry g name v w)

  -- `CrossRegionAttribute`
  unfoldable pub cross_region_get : String → Default V → ℕ → World V → Result Error V × World V
  unfolding shared_get
  cross_region_get name d o w = shared_get (w.stores o).global name d w

  unfoldable pub cross_region_set : String → V → ℕ → World V → Result Error (Unit {0}) × World V
  unfolding shared_set
  cross_region_set name v o w = shared_set (w.stores o).global name v w

  -- `CrossAccountAttribute`
  unfoldable pub cross_account_get : String → Default V → ℕ → World V → Result Error V × World V
  unfolding shared_get
  cross_account_get name d o w = shared_get (w.stores o).universal name d w

  unfoldable pub cross_account_set : String → V → ℕ → World V → Result Error (Unit {0}) × World V
  unfolding shared_set
  cross_account_set name v o w = shared_set (w.stores o).universal name v w
