-- ===== src/Collections/Pages.antt =====
-- The pages of a list, followed from token to token.
use localstack_bb.Base.{
  ℕ, zero, suc, ◌+◌, ◌≤◌, ◌<◌, ◌≡◌, refl, ap, sym, ltb→lt, ◌∙◌, String, Bool, true, Option, none,
  some, List, [], ◌∷◌, ◌++◌, arith, length, take, drop, get_elem?, take-append-drop, length-drop,
  eq_iff, leb, ltb, append-nil, Option-cases, Bool-cases, inl, inr, str_eq, str_eq_self,
}
use localstack_bb.Collections.{
  find, index_of, filtered, page_of, page_from, start_index, get_page, page_size_or_default,
}

module _ {A : Type 0} where
  -- The index `k` is the only one whose item passes the test.
  unfoldable Only : (A → Bool) → List A → ℕ → Type 0
  Only p xs k = (i : ℕ) (y : A) → get_elem? xs i ≡ some y → p y ≡ true → i ≡ k

  find-Only :
      (p : A → Bool) (xs : List A) (k : ℕ) (x : A)
      → get_elem? xs k ≡ some x
      → p x ≡ true
      → Only p xs k
      → (find p xs ≡ some x) × (index_of p xs ≡ k)
  unfolding find index_of Only
  find-Only p [] k x e h only = cc
  find-Only p (y ∷ ys) zero x e h only = ground arith
  find-Only p (y ∷ ys) (suc k) x e h only = elim (Bool-cases (p y)) [
    | inl q ↦ absurd (omega (arith, only 0 y refl q))
    | inr q ↦
        let ih = find-Only p ys k x e h (λ i z f g. omega (arith, only (suc i) z f g)) in
        ground arith
  ]

  drop-nil : (n : ℕ) → drop {A = A} n [] ≡ []
  drop-nil zero = refl
  drop-nil (suc n) = refl

  drop-drop : (k n : ℕ) (xs : List A) → drop n (drop k xs) ≡ drop (k + n) xs
  drop-drop zero n xs = let e : n ≡ zero + n = omega arith in ap (λ m. drop m xs) e
  drop-drop (suc k) n [] = drop-nil n ∙ sym (drop-nil (suc k + n))
  drop-drop (suc k) n (x ∷ xs) =
      let e : suc (k + n) ≡ suc k + n = omega arith in
      drop-drop k n xs ∙ ap (λ m. drop m (x ∷ xs)) e

  take_all : (n : ℕ) (xs : List A) → length xs ≤ n → take n xs ≡ xs
  take_all zero [] h = refl
  take_all zero (x ∷ xs) h = absurd (omega arith)
  take_all (suc n) [] h = refl
  take_all (suc n) (x ∷ xs) h = ap (λ ys. x ∷ ys) (take_all n xs (omega arith))

  get_elem?_lt : (xs : List A) (k : ℕ) (x : A) → get_elem? xs k ≡ some x → k < length xs
  get_elem?_lt [] k x e = cc
  get_elem?_lt (y ∷ ys) zero x e = omega arith
  get_elem?_lt (y ∷ ys) (suc k) x e = omega (arith, get_elem?_lt ys k x e)

  lt_get_elem? : (xs : List A) (k : ℕ) → k < length xs → (x : A) × (get_elem? xs k ≡ some x)
  lt_get_elem? [] k h = absurd (omega arith)
  lt_get_elem? (y ∷ ys) zero h = (y, refl)
  lt_get_elem? (y ∷ ys) (suc k) h = lt_get_elem? ys k (omega arith)

  -- No two items of the list have the same token.
  unfoldable pub DistinctTokens : (A → String) → List A → Type 0
  DistinctTokens token xs =
      (i j : ℕ) (x y : A)
      → get_elem? xs i ≡ some x
      → get_elem? xs j ≡ some y
      → token x ≡ token y
      → i ≡ j

  module _ (eq : A → A → Bool) (token : A → String) (size : ℕ) (xs : List A) where
    -- A client that asks for pages of the given size until no token is returned, on fuel.
    unfoldable pub follow : ℕ → Option String → List A
    follow zero next = []
    follow (suc fuel) next =
        (page_of eq token next size xs).0
        ++ elim (page_of eq token next size xs).1 [ none ↦ [] | some t ↦ follow fuel (some t) ]

  module _ (eq : A → A → Bool) (token : A → String) (m : ℕ) (xs : List A)
      (sound : (x y : A) → eq x y ≡ true → x ≡ y) (reflexive : (x : A) → eq x x ≡ true)
      (distinct : DistinctTokens token xs) where
    start_index_at :
        (k : ℕ) (x : A) → get_elem? xs k ≡ some x → start_index eq token (some (token x)) xs ≡ k
    unfolding DistinctTokens Only
    start_index_at k x e =
        let (found, _) =
          find-Only (λ y. str_eq (token y) (token x)) xs k x e (str_eq_self (token x))
            (λ i y f h. distinct i k y x f e ((eq_iff (token y) (token x)).0 h)) in
        let (_, at) =
          find-Only (λ y. eq y x) xs k x e (reflexive x)
            (λ i y f h. distinct i k y x f e (ap token (sound y x h))) in
        rw found at

    -- The pages from index `k` on, where the fuel covers the items from there.
    follow-page :
        (fuel k : ℕ)
        → length xs ≤ k + suc fuel
        → (((y : A)
            → get_elem? xs (k + suc m) ≡ some y
            → follow eq token (suc m) xs fuel (some (token y)) ≡ drop (k + suc m) xs))
        → (page_from token k (suc m) xs).0 ++ elim (page_from token k (suc m) xs).1 [
          | none ↦ []
          | some t ↦ follow eq token (suc m) xs fuel (some t)
        ]
          ≡ drop k xs
    follow-page fuel k h rest = elim (Bool-cases (ltb (k + suc m) (length xs))) [
      | inl e ↦
          let (y, found) =
            lt_get_elem? xs (k + suc m) (omega (arith, ltb→lt (k + suc m) (length xs) e)) in
          rw (e, found, rest y found)
            (ap (λ ys. take (suc m) (drop k xs) ++ ys) (sym (drop-drop k (suc m) xs))
              ∙ take-append-drop (suc m) (drop k xs))
      | inr e ↦ rw e (
          append-nil (take (suc m) (drop k xs))
          ∙ take_all (suc m) (drop k xs) (ground (arith, length-drop k xs)))
    ]

    follow-from :
        (fuel k : ℕ) (x : A)
        → length xs ≤ k + fuel
        → get_elem? xs k ≡ some x
        → follow eq token (suc m) xs fuel (some (token x)) ≡ drop k xs
    unfolding follow
    follow-from zero k x h e = absurd (omega (arith, get_elem?_lt xs k x e))
    follow-from (suc fuel) k x h e =
        rw (start_index_at k x e)
          (follow-page fuel k h (λ y f. follow-from fuel (k + suc m) y (omega arith) f))

    follow-start : follow eq token (suc m) xs (suc (length xs)) none ≡ xs
    unfolding follow
    follow-start = elim (Bool-cases (leb (length xs) (suc m))) [
      | inl e ↦ rw e (append-nil xs)
      | inr e ↦ rw e (
          follow-page (length xs) 0 (omega arith)
            (λ y f. follow-from (length xs) (0 + suc m) y (omega arith) f))
    ]

  module _ (eq : A → A → Bool) (token : A → String) (size : Option ℕ) (p : Option (A → Bool))
      (xs : List A) where
    -- A client that asks for pages until no token is returned, on fuel.
    unfoldable pub all_pages : ℕ → Option String → List A
    all_pages zero next = []
    all_pages (suc fuel) next =
        (get_page eq token next size p xs).0 ++ elim (get_page eq token next size p xs).1 [
          | none ↦ []
          | some t ↦ all_pages fuel (some t)
        ]

    all_pages-follow :
        (fuel : ℕ) (next : Option String)
        → all_pages fuel next
          ≡ follow eq token (page_size_or_default size) (filtered p xs) fuel next
    unfolding all_pages follow get_page
    all_pages-follow zero next = refl
    all_pages-follow (suc fuel) next =
        elim (Option-cases (page_of eq token next (page_size_or_default size) (filtered p xs)).1) [
          | inl e ↦ rw e refl
          | inr (t, e) ↦ rw (e, all_pages-follow fuel (some t)) refl
        ]

  -- A client that follows the tokens from page to page gets the filtered list, each item once and
  -- in its order, after at most one page more than it has items: if the page size is positive, no
  -- two items of the filtered list have the same token, and equality of items is the identity.
  pub all_pages_whole :
      (eq : A → A → Bool) (token : A → String) (size : Option ℕ) (m : ℕ) (p : Option (A → Bool))
      (xs : List A)
      → page_size_or_default size ≡ suc m
      → ((x y : A) → eq x y ≡ true → x ≡ y)
      → ((x : A) → eq x x ≡ true)
      → DistinctTokens token (filtered p xs)
      → all_pages eq token size p xs (suc (length (filtered p xs))) none ≡ filtered p xs
  all_pages_whole eq token size m p xs positive sound reflexive distinct =
      all_pages-follow eq token size p xs (suc (length (filtered p xs))) none
      ∙ ap (λ n. follow eq token n (filtered p xs) (suc (length (filtered p xs))) none) positive
      ∙ follow-start eq token m (filtered p xs) sound reflexive distinct
