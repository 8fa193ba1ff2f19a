-- ===== src/Batching/Tests.antt =====
-- Small batchers, run.
use localstack_bb.Base.{
  ℕ, ◌≡◌, refl, Bool, true, false, none, some, List, [], ◌∷◌, ◌++◌, length, min,
}
use localstack_bb.Base.Int.{pos}
use localstack_bb.Batching.{
  Batcher, add, flush, is_triggered, check_batch_policy, period, duration_until_next_batch,
}
use localstack_bb.Batching.Policy.{due, flush-triggers}
use localstack_bb.Batching.Fifo.{Op, add_op, flush_op, run, added, flush_size, run_fifo}
use localstack_bb.Batching.Async.{
  AsyncBatcher, new_async, testing, waiting, handling, done, add_item, close_it, test, wake, handle,
  Run, stop, then_step, all_items, Run-conserves,
}
use localstack_bb.Batching.Closing.{close-drains}

abbrev two_at_most : Batcher ℕ
two_at_most = record {
  max_count = some 2;
  max_window = none;
  triggered = false;
  last_batch_time = 0;
  batch = 1 ∷ 2 ∷ 3 ∷ [];
}

abbrev windowed : Batcher ℕ
windowed = record {
  max_count = none;
  max_window = some 20;
  triggered = false;
  last_batch_time = 0;
  batch = 1 ∷ 2 ∷ 3 ∷ [];
}

run_it : Bool → ℕ → Batcher ℕ → List ℕ
unfolding flush add is_triggered check_batch_policy period
run_it partial now b = (flush partial now b).0

partial_flush : run_it true 5 two_at_most ≡ 1 ∷ 2 ∷ []
unfolding run_it
partial_flush = refl

-- The window has passed: the addition reports the trigger.
late_addition : (add (4 ∷ []) 21 windowed).0 ≡ true
unfolding run_it
late_addition = refl

remaining_window : duration_until_next_batch 15 windowed ≡ pos 5
unfolding duration_until_next_batch period
remaining_window = refl

flush-triggers_example :
    (flush true 5 two_at_most).1.triggered
    ≡ due two_at_most (length (flush true 5 two_at_most).1.batch) 0
flush-triggers_example = flush-triggers true 5 two_at_most

flush_size_example :
    (length (flush true 5 two_at_most).0 ≡ min 2 3)
    × ((flush false 5 two_at_most).0 ≡ 1 ∷ 2 ∷ 3 ∷ [])
flush_size_example = flush_size 1 5 two_at_most refl

abbrev calls : List (Op ℕ)
calls = flush_op true 5 ∷ add_op (4 ∷ 5 ∷ []) 6 ∷ flush_op false 7 ∷ []

run_fifo_example :
    (run calls two_at_most).0 ++ (run calls two_at_most).1.batch ≡ two_at_most.batch ++ added calls
run_fifo_example = run_fifo calls two_at_most

abbrev opened : AsyncBatcher ℕ
opened = record new_async { phase = waiting }

abbrev one_added : AsyncBatcher ℕ
one_added = record opened { buffer = 7 ∷ [] }

abbrev in_handler : AsyncBatcher ℕ
in_handler = record opened { phase = handling 7 [] }

to_handler : Run new_async (7 ∷ []) in_handler
to_handler =
    then_step {t = one_added}
      (then_step {t = opened} (then_step (stop new_async) (test new_async refl))
        (add_item opened 7 refl))
      (wake one_added refl)

Run-conserves_example : all_items in_handler ≡ all_items {T = ℕ} new_async ++ 7 ∷ []
Run-conserves_example = Run-conserves to_handler

abbrev closed : AsyncBatcher ℕ
closed = record one_added { closed = true }

abbrev drained : AsyncBatcher ℕ
drained = record { buffer = []; closed = true; phase = done; handled = (7 ∷ []) ∷ [] }

to_end : Run closed [] drained
to_end =
    then_step
      (then_step (then_step (stop closed) (wake closed refl))
        (handle (record closed { buffer = []; phase = handling 7 [] }) 7 [] refl))
      (test (record drained { phase = testing }) refl)

close-drains_example : drained.buffer ≡ []
close-drains_example = close-drains one_added drained [] refl to_end refl

-- An item that is added while the handler runs is never handed over, if the batcher is closed then.
abbrev with_second : AsyncBatcher ℕ
with_second = record in_handler { buffer = 8 ∷ [] }

abbrev undrained : AsyncBatcher ℕ
undrained = record { buffer = 8 ∷ []; closed = true; phase = done; handled = (7 ∷ []) ∷ [] }

lost_item : Run in_handler (8 ∷ []) undrained
lost_item =
    then_step
      (then_step
        (then_step (then_step (stop in_handler) (add_item in_handler 8 refl))
          (close_it with_second))
        (handle (record with_second { closed = true }) 7 [] refl))
      (test (record undrained { phase = testing }) refl)
