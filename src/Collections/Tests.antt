-- ===== src/Collections/Tests.antt =====
-- Small lists and dicts, run.
use localstack_bb.Base.{
  ℕ, zero, suc, ◌+◌, ◌≡◌, refl, String, Bool, true, false, not, none, some, List, [], ◌∷◌, eq_iff,
  length, arith, All, ◌==◌, if◌then◌else◌, str_eq, ltb,
}
use localstack_bb.Base.Dict
use localstack_bb.Base.Dict.{Dict}
use localstack_bb.Base.Text.{contains}
use localstack_bb.Collections.{
  filtered, filter, get_page, iter_chunks, page_size_or_default, to_unique_items_list, contained_in,
  items_equivalent, split_list_by, last_index_of,
}
use localstack_bb.Collections.Pages.{all_pages, DistinctTokens, all_pages_whole}
use localstack_bb.Collections.Unique.{
  no_matches, to_unique_items_list_unique, split_list_by_halves, LastAt, last_index_of_last,
}
use localstack_bb.Base.Text.{is_decimal}
use localstack_bb.Base.Result.{ok, err}
use localstack_bb.Collections.Json.{
  Value, null, number, list, dict, item, no_items, entry, no_entries, type_error, set_safe_mutable,
  set_path, entry_of, put_entry, get_safe, get_path, read_digits, item_at, digit_value,
}
use localstack_bb.Collections.Paths.{IsKey, set_safe_mutable-get_safe}
use localstack_bb.Collections.Dicts.{
  merge_dicts, select_attributes, remove_attributes, rename_attributes,
}
use localstack_bb.Collections.Merged.{
  given, last_of, merge_dicts_last, attributes_lookup, rename_attributes_one,
}

abbrev items : List ℕ
items = 3 ∷ 1 ∷ 2 ∷ []

-- A token for each of the three items.
abbrev token : ℕ → String
token n = if n == 3 then "c" else (if n == 1 then "a" else "b")

abbrev eq : ℕ → ℕ → Bool
eq a b = a == b

second_page : get_page eq token (some "b") (some 2) none items ≡ (2 ∷ [], none)
unfolding get_page filter localstack_bb.Collections.find localstack_bb.Collections.index_of
second_page = refl

abbrev pair : List ℕ
pair = 3 ∷ 1 ∷ []

pair-distinct : DistinctTokens token pair
unfolding DistinctTokens
pair-distinct zero zero x y e f h = refl
pair-distinct (suc zero) (suc zero) x y e f h = refl
pair-distinct zero (suc zero) x y e f h = ground (arith, eq_iff "c" "a")
pair-distinct (suc zero) zero x y e f h = ground (arith, eq_iff "a" "c")
pair-distinct (suc (suc i)) j x y e f h = cc
pair-distinct i (suc (suc j)) x y e f h = cc

all_pages_whole_example : all_pages eq token (some 1) none pair 3 none ≡ pair
all_pages_whole_example =
    all_pages_whole eq token (some 1) 0 none pair refl (λ x y h. ground arith) (λ x. ground arith)
      pair-distinct

to_unique_items_list_unique_example :
    (no_matches eq [] (to_unique_items_list eq (1 ∷ 1 ∷ 2 ∷ [])) ≡ true)
    × All
        (λ x. contained_in eq x (to_unique_items_list eq (1 ∷ 1 ∷ 2 ∷ [])) ≡ true)
        (1 ∷ 1 ∷ 2 ∷ [])
to_unique_items_list_unique_example =
    to_unique_items_list_unique eq (1 ∷ 1 ∷ 2 ∷ []) (λ x. ground arith)

split_list_by_halves_example :
    ((split_list_by items (ltb 1)).0 ≡ filter (ltb 1) items)
    × ((split_list_by items (ltb 1)).1 ≡ filter (λ x. not (ltb 1 x)) items)
    × (length (split_list_by items (ltb 1)).0 + length (split_list_by items (ltb 1)).1 ≡ 3)
split_list_by_halves_example = split_list_by_halves items (ltb 1)

last_index_of_last_example : LastAt items (ltb 1) (last_index_of items (ltb 1))
last_index_of_last_example = last_index_of_last items (ltb 1)

abbrev first : Dict ℕ
first = ("a", 1) ∷ ("b", 2) ∷ []

abbrev second : Dict ℕ
second = ("b", 3) ∷ []

merge_dicts_last_example :
    (m : Dict ℕ) × ((merge_dicts none (given (first ∷ second ∷ [])) ≡ some m)
      × (Dict.lookup "b" m ≡ last_of "b" (first ∷ second ∷ [])))
merge_dicts_last_example = merge_dicts_last none (first ∷ second ∷ []) "b"

attributes_lookup_example :
    (Dict.lookup "b" (select_attributes first ("b" ∷ []))
      ≡ (if contains "b" ("b" ∷ []) then Dict.lookup "b" first else none))
    × (Dict.lookup "b" (remove_attributes first ("b" ∷ []))
        ≡ (if contains "b" ("b" ∷ []) then none else Dict.lookup "b" first))
attributes_lookup_example = attributes_lookup "b" first ("b" ∷ [])

first_has : Dict.lookup "a" first ≡ some 1
unfolding Dict.lookup
first_has = refl

rename_attributes_one_example :
    Dict.lookup "c" (rename_attributes first (("a", "c") ∷ []))
    ≡ (if str_eq "c" "c" then some 1 else (if str_eq "a" "c" then none else Dict.lookup "c" first))
rename_attributes_one_example = rename_attributes_one "a" "c" "c" 1 first first_has

-- Two lists count as equivalent where the second has an item that the first has not.
not_symmetric :
    (items_equivalent (1 ∷ 1 ∷ []) (1 ∷ 2 ∷ []) eq ≡ true)
    × (items_equivalent (1 ∷ 2 ∷ []) (1 ∷ 1 ∷ []) eq ≡ false)
unfolding items_equivalent
not_symmetric = (refl, refl)

abbrev tree : Value
tree = dict (entry "a" (number 1) (entry "l" (list (item (number 0) no_items)) no_entries))

b-IsKey : IsKey "b"
unfolding read_digits is_decimal
b-IsKey = record { not_root = refl; not_index = refl }

c-IsKey : IsKey "c"
unfolding read_digits is_decimal
c-IsKey = record { not_root = refl; not_index = refl }

abbrev tree_set : Value
tree_set = dict (
    entry "a" (number 1) (
      entry "l" (list (item (number 0) no_items))
        (entry "b" (dict (entry "c" (number 5) no_entries)) no_entries)))

set_at_path : set_safe_mutable tree ("$" ∷ "b" ∷ "c" ∷ []) (number 5) ≡ ok tree_set
unfolding set_safe_mutable set_path entry_of put_entry
set_at_path = refl

set_safe_mutable-get_safe_example : get_safe tree_set ("$" ∷ "b" ∷ "c" ∷ []) null ≡ ok (number 5)
set_safe_mutable-get_safe_example =
    set_safe_mutable-get_safe (number 5) null "b" ("c" ∷ []) tree tree_set (b-IsKey, (c-IsKey, tt))
      refl set_at_path

-- A false value is replaced by the default, and a key of a list raises.
unsafe_reads :
    (get_safe tree ("$" ∷ "l" ∷ "0" ∷ []) (number 7) ≡ ok (number 7))
    × (get_safe tree ("$" ∷ "l" ∷ "b" ∷ []) (number 7) ≡ err type_error)
unfolding get_safe get_path entry_of read_digits item_at digit_value is_decimal
unsafe_reads = (refl, refl)
