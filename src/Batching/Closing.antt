-- ===== src/Batching/Closing.antt =====
-- The end of the loop of `AsyncBatcher.run` after `close`.
use localstack_bb.Base.{◌≡◌, refl, true, List, [], ◌∷◌}
use localstack_bb.Batching.Async.{
  AsyncBatcher, waiting, done, Step, add_item, close_it, test, wake, handle, Run, stop, then_step,
  woken,
}

module _ {T : Type 0} where
  -- A closed batcher whose loop still reads the buffer before it ends, or has emptied it.
  pub data Drains (s : AsyncBatcher T) : Type 0 where
    will_wake : s.closed ≡ true → s.phase ≡ waiting → Drains s
    emptied : s.closed ≡ true → s.buffer ≡ [] → Drains s

  woken-Drains :
      (xs : List T) (s : AsyncBatcher T) → s.buffer ≡ xs → s.closed ≡ true → Drains (woken xs s)
  woken-Drains [] s e c = emptied c e
  woken-Drains (x ∷ xs) s e c = emptied c refl

  step-Drains : {s t : AsyncBatcher T} {ys : List T} → Step s ys t → Drains s → Drains t
  step-Drains (add_item s x h) (will_wake c p) = cc
  step-Drains (add_item s x h) (emptied c b) = cc
  step-Drains (close_it s) (will_wake c p) = will_wake refl p
  step-Drains (close_it s) (emptied c b) = emptied refl b
  step-Drains (test s q) (will_wake c p) = cc
  step-Drains (test s q) (emptied c b) = emptied c b
  step-Drains (wake s q) (will_wake c p) = woken-Drains s.buffer s refl c
  step-Drains (wake s q) (emptied c b) = woken-Drains s.buffer s refl c
  step-Drains (handle s x xs q) (will_wake c p) = cc
  step-Drains (handle s x xs q) (emptied c b) = emptied c b

  Run-Drains : {s t : AsyncBatcher T} {xs : List T} → Run s xs t → Drains s → Drains t
  Run-Drains (stop s) d = d
  Run-Drains (then_step r st) d = step-Drains st (Run-Drains r d)

  Drains-done : {s : AsyncBatcher T} → Drains s → s.phase ≡ done → s.buffer ≡ []
  Drains-done (will_wake c p) e = cc
  Drains-done (emptied c b) e = b

  -- If the loop waits when the batcher is closed, then every interleaving in which the loop ends
  -- leaves no item in the buffer.
  pub close-drains :
      (s t : AsyncBatcher T) (xs : List T)
      → s.phase ≡ waiting
      → Run (record s { closed = true }) xs t
      → t.phase ≡ done
      → t.buffer ≡ []
  close-drains s t xs p r e = Drains-done (Run-Drains r (will_wake refl p)) e
