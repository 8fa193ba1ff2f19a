-- ===== src/Collections/Dicts.antt =====
-- localstack-core/localstack/utils/collections.py: dicts merged, and attributes selected, removed and
-- renamed.
use localstack_bb.Base.{
  String, Bool, true, false, ◌&&◌, Option, none, some, List, [], ◌∷◌, if◌then◌else◌,
}
use localstack_bb.Base.Dict
use localstack_bb.Base.Dict.{Dict}
use localstack_bb.Base.Text.{contains}

module _ {V : Type 0} where
  -- `result.update(d)`
  unfoldable pub update : Dict V → Dict V → Dict V
  update result [] = result
  update result ((k, v) ∷ d) = update (Dict.insert k v result) d

  -- `merge_dicts(*dicts, default=…)`, where `default` is left out or given.
  unfoldable pub merge_onto :
      Option (Option (Dict V)) → Dict V → List (Option (Dict V)) → Option (Dict V)
  merge_onto default result [] = some result
  merge_onto none result (none ∷ dicts) = merge_onto none result dicts
  merge_onto (some value) result (none ∷ dicts) = value
  merge_onto default result (some d ∷ dicts) = merge_onto default (update result d) dicts

  unfoldable pub merge_dicts : Option (Option (Dict V)) → List (Option (Dict V)) → Option (Dict V)
  merge_dicts default dicts = merge_onto default [] dicts

  -- `{k: v for k, v in d.items() if p(k, v)}`
  unfoldable pub filter_items : (String → V → Bool) → Dict V → Dict V
  filter_items p [] = []
  filter_items p ((k, v) ∷ d) = let rest = filter_items p d in if p k v then (k, v) ∷ rest else rest

  -- `select_attributes`
  unfoldable pub select_attributes : Dict V → List String → Dict V
  select_attributes obj attributes = filter_items (λ k _. contains k attributes) obj

  -- `remove_attributes`, not recursive.
  unfoldable pub remove_attributes : Dict V → List String → Dict V
  remove_attributes obj [] = obj
  remove_attributes obj (attr ∷ attributes) = remove_attributes (Dict.remove attr obj) attributes

  abbrev rename_one : String → String → Option V → Dict V → Dict V
  rename_one old new none obj = obj
  rename_one old new (some v) obj = Dict.insert new v (Dict.remove old obj)

  -- `rename_attributes`, on a copy or in place: the entries that result.
  unfoldable pub rename_attributes : Dict V → Dict String → Dict V
  rename_attributes obj [] = obj
  rename_attributes obj ((old, new) ∷ names) =
      rename_attributes (rename_one old new (Dict.lookup old obj) obj) names

  abbrev some_equal : (V → V → Bool) → V → Option V → Bool
  some_equal eq v none = false
  some_equal eq v (some u) = eq u v

  -- `is_sub_dict`, for values other than `None`.
  unfoldable pub is_sub_dict : (V → V → Bool) → Dict V → Dict V → Bool
  is_sub_dict eq [] parent = true
  is_sub_dict eq ((k, v) ∷ child) parent =
      some_equal eq v (Dict.lookup k parent) && is_sub_dict eq child parent

abbrev is_some : {V : Type 0} → Option V → Bool
is_some none = false
is_some (some _) = true

-- `remove_none_values_from_dict`
unfoldable pub remove_none_values_from_dict : {V : Type 0} → Dict (Option V) → Dict (Option V)
remove_none_values_from_dict d = filter_items (λ _ v. is_some v) d
