-- ===== src/Collections/Chunks.antt =====
-- The chunks of a list.
use localstack_bb.Base.{
  ℕ, zero, suc, ◌≤◌, ◌<◌, ◌≡◌, refl, ap, ◌∙◌, some, List, [], ◌∷◌, ◌++◌, arith, length, take, drop,
  take-append-drop, length-take, length-drop, All,
}
use localstack_bb.Collections.{chunks_from, iter_chunks}
use localstack_bb.Batching.Async.{concat}

module _ {A : Type 0} where
  chunks_from-concat :
      (fuel n : ℕ) (xs : List A) → length xs ≤ fuel → concat (chunks_from fuel (suc n) xs) ≡ xs
  unfolding chunks_from concat
  chunks_from-concat zero n [] h = refl
  chunks_from-concat zero n (x ∷ xs) h = absurd (omega arith)
  chunks_from-concat (suc fuel) n [] h = refl
  chunks_from-concat (suc fuel) n (x ∷ xs) h =
      ap (λ ys. take (suc n) (x ∷ xs) ++ ys)
        (chunks_from-concat fuel n (drop (suc n) (x ∷ xs))
          (omega (arith, length-drop (suc n) (x ∷ xs))))
      ∙ take-append-drop (suc n) (x ∷ xs)

  -- No chunk is empty or longer than the chunk size.
  abbrev pub FitsChunk : ℕ → List A → Type 0
  FitsChunk n ys = (0 < length ys) × (length ys ≤ n)

  chunks_from-fit :
      (fuel n : ℕ) (xs : List A) → All (FitsChunk (suc n)) (chunks_from fuel (suc n) xs)
  unfolding chunks_from
  chunks_from-fit zero n xs = tt
  chunks_from-fit (suc fuel) n [] = tt
  chunks_from-fit (suc fuel) n (x ∷ xs) = (
    (omega (arith, length-take (suc n) (x ∷ xs)), omega (arith, length-take (suc n) (x ∷ xs))),
    chunks_from-fit fuel n (drop (suc n) (x ∷ xs)),
  )

  -- For a positive chunk size the chunks are, end to end, the whole list, and each has at least one
  -- item and at most the chunk size.
  pub iter_chunks_whole :
      (xs : List A) (n : ℕ)
      → (chunks : List (List A)) × ((iter_chunks xs (suc n) ≡ some chunks)
          × ((concat chunks ≡ xs) × All (FitsChunk (suc n)) chunks))
  unfolding iter_chunks
  iter_chunks_whole xs n = (
    chunks_from (length xs) (suc n) xs,
    (refl, (chunks_from-concat (length xs) n xs (omega arith), chunks_from-fit (length xs) n xs)),
  )
