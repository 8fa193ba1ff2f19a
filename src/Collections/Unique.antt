-- ===== src/Collections/Unique.antt =====
-- Lists without duplicates, split by a predicate, and the last index of an item.
use localstack_bb.Base.{
  ℕ, zero, suc, ◌+◌, ◌≡◌, ◌<◌, if◌then◌else◌, refl, ap, ◌∙◌, Bool, true, false, ◌||◌, ◌&&◌, not,
  some, List, [], ◌∷◌, ◌++◌, arith, length, get_elem?, any, All, append-nil, append_assoc, inl, inr,
  Bool-cases,
}
use localstack_bb.Base.Int.{ℤ, pos, negsuc}
use localstack_bb.Collections.{
  contained_in, unique_onto, to_unique_items_list, split_list_by, filter, last_index_of, later,
}

module _ {A : Type 0} where
  -- No item of the list is matched by the comparator with an earlier one.
  unfoldable pub no_matches : (A → A → Bool) → List A → List A → Bool
  no_matches eq seen [] = true
  no_matches eq seen (x ∷ xs) = not (contained_in eq x seen) && no_matches eq (seen ++ x ∷ []) xs

  any-append : (p : A → Bool) (xs ys : List A) → any p (xs ++ ys) ≡ (any p xs || any p ys)
  any-append p [] ys = refl
  any-append p (x ∷ xs) ys = ground (arith, any-append p xs ys)

  no_matches-snoc :
      (eq : A → A → Bool) (seen xs : List A) (y : A)
      → no_matches eq seen (xs ++ y ∷ [])
        ≡ (no_matches eq seen xs && not (contained_in eq y (seen ++ xs)))
  unfolding no_matches
  no_matches-snoc eq seen [] y = rw (append-nil seen) (ground arith)
  no_matches-snoc eq seen (x ∷ xs) y =
      let ih = no_matches-snoc eq (seen ++ x ∷ []) xs y in
      let e = append_assoc seen (x ∷ []) xs in rw (← e) (ground arith)

  unique_onto-no_matches :
      (eq : A → A → Bool) (result xs : List A)
      → no_matches eq [] result ≡ true
      → no_matches eq [] (unique_onto eq result xs) ≡ true
  unfolding unique_onto
  unique_onto-no_matches eq result [] h = h
  unique_onto-no_matches eq result (x ∷ xs) h = elim (Bool-cases (contained_in eq x result)) [
    | inl e ↦ rw e (unique_onto-no_matches eq result xs h)
    | inr e ↦ rw e (
        unique_onto-no_matches eq (result ++ x ∷ []) xs
          (no_matches-snoc eq [] result x ∙ ground arith))
  ]

  -- What a result has, it keeps.
  unique_onto-keeps :
      (eq : A → A → Bool) (q : A → Bool) (result xs : List A)
      → any q result ≡ true
      → any q (unique_onto eq result xs) ≡ true
  unfolding unique_onto
  unique_onto-keeps eq q result [] h = h
  unique_onto-keeps eq q result (x ∷ xs) h = elim (Bool-cases (contained_in eq x result)) [
    | inl e ↦ rw e (unique_onto-keeps eq q result xs h)
    | inr e ↦
        rw e (
          unique_onto-keeps eq q (result ++ x ∷ []) xs
            (any-append q result (x ∷ []) ∙ ground arith))
  ]

  next-has :
      (eq : A → A → Bool) (x : A) (result : List A)
      → eq x x ≡ true
      → any (eq x) (if contained_in eq x result then result else result ++ x ∷ []) ≡ true
  next-has eq x result r = elim (Bool-cases (contained_in eq x result)) [
    | inl e ↦ rw e e
    | inr e ↦ rw e (any-append (eq x) result (x ∷ []) ∙ ground arith)
  ]

  unique_onto-covers :
      (eq : A → A → Bool) (result xs : List A)
      → ((x : A) → eq x x ≡ true)
      → All (λ x. contained_in eq x (unique_onto eq result xs) ≡ true) xs
  unfolding unique_onto
  unique_onto-covers eq result [] r = tt
  unique_onto-covers eq result (x ∷ xs) r =
      let next = if contained_in eq x result then result else result ++ x ∷ [] in
      (
        unique_onto-keeps eq (eq x) next xs (next-has eq x result (r x)),
        unique_onto-covers eq next xs r,
      )

  -- For a reflexive comparator, every item of a list is matched by one of the unique list, and no
  -- item of the unique list by an earlier one.
  pub to_unique_items_list_unique :
      (eq : A → A → Bool) (xs : List A)
      → ((x : A) → eq x x ≡ true)
      → (no_matches eq [] (to_unique_items_list eq xs) ≡ true)
        × All (λ x. contained_in eq x (to_unique_items_list eq xs) ≡ true) xs
  unfolding to_unique_items_list no_matches
  to_unique_items_list_unique eq xs r =
      (unique_onto-no_matches eq [] xs refl, unique_onto-covers eq [] xs r)

  -- The halves of a split are the items that pass and those that fail, in their order, and together
  -- as many as the list.
  pub split_list_by_halves :
      (xs : List A) (p : A → Bool)
      → ((split_list_by xs p).0 ≡ filter p xs)
        × ((split_list_by xs p).1 ≡ filter (λ x. not (p x)) xs)
        × (length (split_list_by xs p).0 + length (split_list_by xs p).1 ≡ length xs)
  unfolding split_list_by filter
  split_list_by_halves [] p = (refl, refl, omega arith)
  split_list_by_halves (x ∷ xs) p =
      let (e, f, g) = split_list_by_halves xs p in
      elim (Bool-cases (p x)) [
        | inl h ↦ rw h (ap (λ ys. x ∷ ys) e, f, omega (arith, g))
        | inr h ↦ rw h (e, ap (λ ys. x ∷ ys) f, omega (arith, g))
      ]

  -- What a last index says of a list: its item passes the test and no later one does, or none does.
  abbrev pub LastAt : List A → (A → Bool) → ℤ → Type 0
  LastAt xs p (pos i) =
      ((x : A) × ((get_elem? xs i ≡ some x) × (p x ≡ true)))
      × ((j : ℕ) (y : A) → i < j → get_elem? xs j ≡ some y → p y ≡ false)
  LastAt xs p (negsuc n) = (n ≡ 0) × All (λ x. p x ≡ false) xs

  All-get :
      (p : A → Bool) (xs : List A) (j : ℕ) (y : A)
      → All (λ x. p x ≡ false) xs
      → get_elem? xs j ≡ some y
      → p y ≡ false
  All-get p [] j y a e = cc
  All-get p (x ∷ xs) zero y a e = ground (arith, a.0)
  All-get p (x ∷ xs) (suc j) y a e = All-get p xs j y a.1 e

  after_head :
      (p : A → Bool) (x : A) (xs : List A) (i j : ℕ) (y : A)
      → ((k : ℕ) (z : A) → i < k → get_elem? xs k ≡ some z → p z ≡ false)
      → suc i < j
      → get_elem? (x ∷ xs) j ≡ some y
      → p y ≡ false
  after_head p x xs i zero y l h e = absurd (omega arith)
  after_head p x xs i (suc j) y l h e = l j y (omega arith) e

  after_first :
      (p : A → Bool) (x : A) (xs : List A) (j : ℕ) (y : A)
      → All (λ z. p z ≡ false) xs
      → 0 < j
      → get_elem? (x ∷ xs) j ≡ some y
      → p y ≡ false
  after_first p x xs zero y a h e = absurd (omega arith)
  after_first p x xs (suc j) y a h e = All-get p xs j y a e

  later-LastAt :
      (p : A → Bool) (x : A) (xs : List A) (b : Bool) (i : ℤ)
      → p x ≡ b
      → LastAt xs p i
      → LastAt (x ∷ xs) p (later b i)
  later-LastAt p x xs b (pos i) h (at, l) = (at, λ j y g e. after_head p x xs i j y l g e)
  later-LastAt p x xs true (negsuc n) h (z, a) =
      ((x, (refl, h)), λ j y g e. after_first p x xs j y a g e)
  later-LastAt p x xs false (negsuc n) h (z, a) = (z, (h, a))

  -- The last index of an item is that of the last item that passes the test, or -1 where none does.
  pub last_index_of_last : (xs : List A) (p : A → Bool) → LastAt xs p (last_index_of xs p)
  unfolding last_index_of
  last_index_of_last [] p = (refl, tt)
  last_index_of_last (x ∷ xs) p =
      later-LastAt p x xs (p x) (last_index_of xs p) refl (last_index_of_last xs p)
