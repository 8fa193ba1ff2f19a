-- ===== src/Collections/Merged.antt =====
-- What the operations on dicts do to a look-up.
use localstack_bb.Base.{
  String, ◌≡◌, refl, Bool, Option, none, some, List, [], ◌∷◌, arith, if◌then◌else◌, str_eq, eq_iff,
}
use localstack_bb.Base.Dict
use localstack_bb.Base.Dict.{Dict, lookup-insert, lookup-remove}
use localstack_bb.Base.Text.{contains}
use localstack_bb.Collections.Dicts.{
  update, merge_onto, merge_dicts, filter_items, select_attributes, remove_attributes,
  rename_attributes,
}

module _ {V : Type 0} where
  abbrev or_else : Option V → Option V → Option V
  or_else none o = o
  or_else (some v) o = some v

  -- The value of the key in the last entry that has it.
  unfoldable pub last_value : String → Dict V → Option V
  last_value k [] = none
  last_value k ((j, v) ∷ d) = or_else (last_value k d) (if str_eq j k then some v else none)

  update-lookup :
      (k : String) (r d : Dict V)
      → Dict.lookup k (update r d) ≡ or_else (last_value k d) (Dict.lookup k r)
  unfolding update last_value
  update-lookup k r [] = refl
  update-lookup k r ((j, v) ∷ d) =
      ground (arith, update-lookup k (Dict.insert j v r) d, lookup-insert j k v r)

  -- The value of the key in the last of the given dicts that has it.
  unfoldable pub last_of : String → List (Dict V) → Option V
  last_of k [] = none
  last_of k (d ∷ ds) = or_else (last_of k ds) (last_value k d)

  unfoldable pub given : List (Dict V) → List (Option (Dict V))
  given [] = []
  given (d ∷ ds) = some d ∷ given ds

  merge_onto-lookup :
      (default : Option (Option (Dict V))) (r : Dict V) (ds : List (Dict V)) (k : String)
      → (m : Dict V) × ((merge_onto default r (given ds) ≡ some m)
          × (Dict.lookup k m ≡ or_else (last_of k ds) (Dict.lookup k r)))
  unfolding merge_onto last_of given
  merge_onto-lookup default r [] k = (r, (refl, refl))
  merge_onto-lookup default r (d ∷ ds) k =
      let (m, (e, f)) = merge_onto-lookup default (update r d) ds k in
      (m, (ground arith, ground (arith, f, update-lookup k r d)))

  -- A merge of dicts has each key's value from the last dict that has the key.
  pub merge_dicts_last :
      (default : Option (Option (Dict V))) (ds : List (Dict V)) (k : String)
      → (m : Dict V) × ((merge_dicts default (given ds) ≡ some m)
          × (Dict.lookup k m ≡ last_of k ds))
  unfolding merge_dicts Dict.lookup
  merge_dicts_last default ds k =
      let (m, (e, f)) = merge_onto-lookup default [] ds k in (m, (e, ground (arith, f)))

  filter_items-lookup :
      (p : String → Bool) (k : String) (d : Dict V)
      → Dict.lookup k (filter_items (λ j _. p j) d) ≡ (if p k then Dict.lookup k d else none)
  unfolding filter_items Dict.lookup
  filter_items-lookup p k [] = ground arith
  filter_items-lookup p k ((j, v) ∷ d) = ground (arith, filter_items-lookup p k d, eq_iff j k)

  remove_attributes-lookup :
      (k : String) (d : Dict V) (names : List String)
      → Dict.lookup k (remove_attributes d names)
        ≡ (if contains k names then none else Dict.lookup k d)
  unfolding remove_attributes contains
  remove_attributes-lookup k d [] = refl
  remove_attributes-lookup k d (n ∷ names) = ground (
    arith,
    remove_attributes-lookup k (Dict.remove n d) names,
    lookup-remove n k d,
    eq_iff k n,
    eq_iff n k,
  )

  -- A selection has the dict's value at each of the names and nothing else; a removal has nothing at
  -- the names and the dict's value elsewhere.
  pub attributes_lookup :
      (k : String) (d : Dict V) (names : List String)
      → (Dict.lookup k (select_attributes d names)
          ≡ (if contains k names then Dict.lookup k d else none))
        × (Dict.lookup k (remove_attributes d names)
            ≡ (if contains k names then none else Dict.lookup k d))
  unfolding select_attributes
  attributes_lookup k d names =
      (filter_items-lookup (λ j. contains j names) k d, remove_attributes-lookup k d names)

  -- A renaming of one attribute that is there moves its value to the new name, which loses its own,
  -- and takes the old name out; every other key keeps its value.
  pub rename_attributes_one :
      (old new k : String) (v : V) (d : Dict V)
      → Dict.lookup old d ≡ some v
      → Dict.lookup k (rename_attributes d ((old, new) ∷ []))
        ≡ (if str_eq new k then some v else (if str_eq old k then none else Dict.lookup k d))
  unfolding rename_attributes
  rename_attributes_one old new k v d h =
      ground (arith, lookup-insert new k v (Dict.remove old d), lookup-remove old k d)
