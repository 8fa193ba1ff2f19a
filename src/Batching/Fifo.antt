-- ===== src/Batching/Fifo.antt =====
-- What a batcher returns of the items that were added, over sequences of calls.
use localstack_bb.Base.{
  ℕ, zero, suc, ◌≡◌, refl, ap, ◌∙◌, sym, min, Bool, true, false, Option, none, some, List, [], ◌∷◌,
  ◌++◌, arith, length, take-append-drop, length-take, append_assoc, append-nil,
}
use localstack_bb.Batching.{
  Batcher, add, flush, split_batch, is_triggered, check_batch_policy, period,
}

-- The calls of a client, each at its time, and the batches that its flushes return.
pub data Op (T : Type 0) : Type 0 where
  add_op : List T → ℕ → Op T
  flush_op : Bool → ℕ → Op T

module _ {T : Type 0} where
  abbrev pub run_op : Op T → Batcher T → List T × Batcher T
  run_op (add_op items now) b = ([], (add items now b).1)
  run_op (flush_op partial now) b = flush partial now b

  unfoldable pub run : List (Op T) → Batcher T → List T × Batcher T
  run [] b = ([], b)
  run (op ∷ ops) b =
      let (out, b') = run_op op b in let (rest, b'') = run ops b' in (out ++ rest, b'')

  unfoldable pub added : List (Op T) → List T
  added [] = []
  added (add_op items now ∷ ops) = items ++ added ops
  added (flush_op partial now ∷ ops) = added ops

  split_batch_whole :
      (partial : Bool) (count : Option ℕ) (xs : List T)
      → (split_batch partial count xs).0 ++ (split_batch partial count xs).1 ≡ xs
  split_batch_whole true (some (suc n)) xs = take-append-drop (min (suc n) (length xs)) xs
  split_batch_whole true (some zero) xs = append-nil xs
  split_batch_whole true none xs = append-nil xs
  split_batch_whole false _ xs = append-nil xs

  add-batch :
      (items : List T) (now : ℕ) (b : Batcher T) → (add items now b).1.batch ≡ b.batch ++ items
  unfolding add is_triggered check_batch_policy period
  add-batch items now b = ground arith

  flush-batch :
      (partial : Bool) (now : ℕ) (b : Batcher T)
      → ((flush partial now b).0 ≡ (split_batch partial b.max_count b.batch).0)
        × ((flush partial now b).1.batch ≡ (split_batch partial b.max_count b.batch).1)
  unfolding flush check_batch_policy period
  flush-batch partial now b = (refl, ground arith)

  -- What a flush returns, followed by what it leaves, is the batch from before.
  pub flush_whole :
      (partial : Bool) (now : ℕ) (b : Batcher T)
      → (flush partial now b).0 ++ (flush partial now b).1.batch ≡ b.batch
  flush_whole partial now b =
      let (e, e') = flush-batch partial now b in
      rw (e, e') (split_batch_whole partial b.max_count b.batch)

  -- A partial flush under a positive limit returns as many items as the limit allows, and any other
  -- flush returns them all.
  pub flush_size :
      (n now : ℕ) (b : Batcher T)
      → b.max_count ≡ some (suc n)
      → (length (flush true now b).0 ≡ min (suc n) (length b.batch))
        × ((flush false now b).0 ≡ b.batch)
  unfolding flush
  flush_size n now b h =
      (rw h (length-take (min (suc n) (length b.batch)) b.batch ∙ omega arith), refl)

  -- Over any calls, the flushed batches in their order, followed by what is left, are the items from
  -- before and then those added, each once and in the order of their addition.
  pub run_fifo :
      (ops : List (Op T)) (b : Batcher T)
      → (run ops b).0 ++ (run ops b).1.batch ≡ b.batch ++ added ops
  unfolding run added
  run_fifo [] b = sym (append-nil b.batch)
  run_fifo (add_op items now ∷ ops) b =
      run_fifo ops (add items now b).1
      ∙ ap (λ xs. xs ++ added ops) (add-batch items now b)
      ∙ append_assoc b.batch items (added ops)
  run_fifo (flush_op partial now ∷ ops) b =
      append_assoc (flush partial now b).0 (run ops (flush partial now b).1).0
        (run ops (flush partial now b).1).1.batch
      ∙ ap (λ xs. (flush partial now b).0 ++ xs) (run_fifo ops (flush partial now b).1)
      ∙ sym (append_assoc (flush partial now b).0 (flush partial now b).1.batch (added ops))
      ∙ ap (λ xs. xs ++ added ops) (flush_whole partial now b)
