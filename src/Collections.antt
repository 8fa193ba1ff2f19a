-- ===== src/Collections.antt =====
-- localstack-core/localstack/utils/collections.py: lists in pages and chunks, without duplicates and
-- split by a predicate. An equality of items and the functions that a caller passes are parameters.
pub mod Dicts
pub mod Json
pub mod Paths
pub mod Pages
pub mod Chunks
pub mod Unique
pub mod Merged
mod Tests
use localstack_bb.Base.{
  ℕ, zero, suc, ◌+◌, String, Bool, true, false, ◌&&◌, ◌||◌, not, Option, none, some, List, [], ◌∷◌,
  ◌++◌, if◌then◌else◌, leb, ltb, ◌==◌, str_eq, length, take, drop, get_elem?, any, all,
}
use localstack_bb.Base.Int.{ℤ, pos, negsuc}

abbrev pub default_page_size : ℕ
default_page_size = 50

abbrev pub page_size_or_default : Option ℕ → ℕ
page_size_or_default none = default_page_size
page_size_or_default (some n) = n

-- An index in the tail, or -1, as one in a list whose head passes the test or not.
abbrev pub later : Bool → ℤ → ℤ
later here (pos n) = pos (suc n)
later true (negsuc n) = pos 0
later false (negsuc n) = negsuc n

module _ {A : Type 0} where
  unfoldable pub filter : (A → Bool) → List A → List A
  filter p [] = []
  filter p (x ∷ xs) = let rest = filter p xs in if p x then x ∷ rest else rest

  -- `next(item for item in xs if p(item))`
  unfoldable pub find : (A → Bool) → List A → Option A
  find p [] = none
  find p (x ∷ xs) = let rest = find p xs in if p x then some x else rest

  -- `xs.index(item)`, where the item is there.
  unfoldable pub index_of : (A → Bool) → List A → ℕ
  index_of p [] = 0
  index_of p (x ∷ xs) = let rest = suc (index_of p xs) in if p x then 0 else rest

  abbrev pub filtered : Option (A → Bool) → List A → List A
  filtered none xs = xs
  filtered (some p) xs = filter p xs

  abbrev index_of_found : (A → A → Bool) → List A → Option A → ℕ
  index_of_found eq xs none = 0
  index_of_found eq xs (some y) = index_of (λ x. eq x y) xs

  -- The index at which a page starts, 0 where no item has the token.
  abbrev pub start_index : (A → A → Bool) → (A → String) → Option String → List A → ℕ
  start_index eq token none xs = 0
  start_index eq token (some t) xs = index_of_found eq xs (find (λ x. str_eq (token x) t) xs)

  abbrev token_at : (A → String) → Option A → Option String
  token_at token none = none
  token_at token (some x) = some (token x)

  -- The page of `n` items from index `i`, and the token of the item that follows it.
  abbrev pub page_from : (A → String) → ℕ → ℕ → List A → List A × Option String
  page_from token i n xs = (
    take n (drop i xs),
    if ltb (i + n) (length xs) then token_at token (get_elem? xs (i + n)) else none,
  )

  -- `PaginatedList.get_page` on the filtered list.
  abbrev pub page_of :
      (A → A → Bool) → (A → String) → Option String → ℕ → List A → List A × Option String
  page_of eq token none n xs = if leb (length xs) n then (xs, none) else page_from token 0 n xs
  page_of eq token (some t) n xs = page_from token (start_index eq token (some t) xs) n xs

  -- `PaginatedList.get_page`
  unfoldable pub get_page :
      (A → A → Bool)
      → (A → String)
      → Option String
      → Option ℕ
      → Option (A → Bool)
      → List A
      → List A × Option String
  get_page eq token next_token page_size filter_function xs =
      page_of eq token next_token (page_size_or_default page_size) (filtered filter_function xs)

  -- `iter_chunks`, on fuel: the chunks from the start of `xs` on.
  unfoldable pub chunks_from : ℕ → ℕ → List A → List (List A)
  chunks_from zero n xs = []
  chunks_from (suc fuel) n [] = []
  chunks_from (suc fuel) n (x ∷ xs) = take n (x ∷ xs) ∷ chunks_from fuel n (drop n (x ∷ xs))

  -- A chunk takes at least one item, so there are no more chunks than items. A step of zero is a
  -- `ValueError` of `range`.
  unfoldable pub iter_chunks : List A → ℕ → Option (List (List A))
  iter_chunks xs zero = none
  iter_chunks xs (suc n) = some (chunks_from (length xs) (suc n) xs)

  -- `contained` of `to_unique_items_list`, where the comparator's outcome is read as a Boolean.
  abbrev pub contained_in : (A → A → Bool) → A → List A → Bool
  contained_in eq x ys = any (eq x) ys

  unfoldable pub unique_onto : (A → A → Bool) → List A → List A → List A
  unique_onto eq result [] = result
  unique_onto eq result (x ∷ xs) =
      unique_onto eq (if contained_in eq x result then result else result ++ x ∷ []) xs

  -- `to_unique_items_list`
  unfoldable pub to_unique_items_list : (A → A → Bool) → List A → List A
  to_unique_items_list eq xs = unique_onto eq [] xs

  -- `items_equivalent`
  unfoldable pub items_equivalent : List A → List A → (A → A → Bool) → Bool
  items_equivalent xs ys comparator =
      length xs == length ys && all (λ x. contained_in comparator x ys) xs

  -- `split_list_by`
  unfoldable pub split_list_by : List A → (A → Bool) → List A × List A
  split_list_by [] p = ([], [])
  split_list_by (x ∷ xs) p =
      let (truthy, falsy) = split_list_by xs p in
      if p x then (x ∷ truthy, falsy) else (truthy, x ∷ falsy)

  -- `last_index_of`, where the test is equality with the value or the callable.
  unfoldable pub last_index_of : List A → (A → Bool) → ℤ
  last_index_of [] p = negsuc 0
  last_index_of (x ∷ xs) p = later (p x) (last_index_of xs p)

  -- `optional_list`
  unfoldable pub optional_list : Bool → List A → List A
  optional_list condition xs = filter (λ _. condition) xs
