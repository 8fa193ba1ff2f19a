-- ===== src/Batching/Policy.antt =====
-- When a batcher says that it is triggered.
use localstack_bb.Base.{ℕ, ◌-◌, ◌≡◌, Bool, ◌&&◌, ◌||◌, List, ◌++◌, arith, length}
use localstack_bb.Batching.{
  Batcher, falsy, reaches, period, check_batch_policy, is_triggered, add, flush,
}

module _ {T : Type 0} where
  -- The policy on a batch of `n` items in the `p`-th tick since the last flush.
  abbrev pub due : Batcher T → ℕ → ℕ → Bool
  due b n p =
      reaches b.max_count n || reaches b.max_window p || (falsy b.max_count && falsy b.max_window)

  -- An addition reports a trigger just if one is pending from before, the batch with the new items
  -- is large enough, the window has passed since the last flush, or there is no limit; the trigger
  -- that it reports stays pending.
  pub add-triggers :
      (items : List T) (now : ℕ) (b : Batcher T)
      → ((add items now b).0
          ≡ (b.triggered || due b (length (b.batch ++ items)) (now - b.last_batch_time)))
        × ((add items now b).1.triggered ≡ (add items now b).0)
        × ((add items now b).1.batch ≡ b.batch ++ items)
  unfolding add is_triggered check_batch_policy period
  add-triggers items now b = (ground arith, ground arith, ground arith)

  -- A flush leaves a trigger pending just if what it leaves over is due at once.
  pub flush-triggers :
      (partial : Bool) (now : ℕ) (b : Batcher T)
      → (flush partial now b).1.triggered ≡ due b (length (flush partial now b).1.batch) 0
  unfolding flush check_batch_policy period
  flush-triggers partial now b = ground arith
