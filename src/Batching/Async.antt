-- ===== src/Batching/Async.antt =====
-- localstack-core/localstack/utils/batching.py `AsyncBatcher`: a client's calls, each under the lock,
-- interleaved with the steps of the loop of `run`.
use localstack_bb.Base.{
  ℕ, ◌≡◌, refl, ap, sym, ◌∙◌, Bool, true, false, List, [], ◌∷◌, ◌++◌, leb, length, append_assoc,
  append-nil,
}

-- Where the loop is: at the test of `_closed`, in the wait, in the handler with a batch, or done.
pub data Phase (T : Type 0) : Type 0 where
  testing : Phase T
  waiting : Phase T
  handling : T → List T → Phase T
  done : Phase T

pub record AsyncBatcher (T : Type 0) : Type 0 where
  pub buffer : List T
  pub closed : Bool
  pub phase : Phase T
  pub handled : List (List T)

abbrev pub new_async : {T : Type 0} → AsyncBatcher T
new_async = record { buffer = []; closed = false; phase = testing; handled = [] }

-- The loop after a wait: an empty buffer takes it back to the test, another is handed over whole.
abbrev pub woken : {T : Type 0} → List T → AsyncBatcher T → AsyncBatcher T
woken [] s = record s { phase = testing }
woken (x ∷ xs) s = record s { phase = handling x xs; buffer = [] }

abbrev pub tested : {T : Type 0} → Bool → Phase T
tested true = done
tested false = waiting

-- Whether an addition wakes the loop, in a buffer with the new item.
abbrev pub notifies : {T : Type 0} → ℕ → List T → Bool
notifies max_batch_size buffer = leb max_batch_size (length buffer)

-- The steps, and the item that a step adds, if any. A wait ends by a notification or by its timeout,
-- so it may end at any time; the handler's exceptions are dropped.
pub data Step {T : Type 0} : AsyncBatcher T → List T → AsyncBatcher T → Type 0 where
  add_item :
      (s : AsyncBatcher T) (x : T)
      → s.closed ≡ false
      → Step s (x ∷ []) (record s { buffer = s.buffer ++ x ∷ [] })
  close_it : (s : AsyncBatcher T) → Step s [] (record s { closed = true })
  test : (s : AsyncBatcher T) → s.phase ≡ testing → Step s [] (record s { phase = tested s.closed })
  wake : (s : AsyncBatcher T) → s.phase ≡ waiting → Step s [] (woken s.buffer s)
  handle :
      (s : AsyncBatcher T) (x : T) (xs : List T)
      → s.phase ≡ handling x xs
      → Step s [] (record s { phase = testing; handled = s.handled ++ (x ∷ xs) ∷ [] })

-- A run from one state to another, with the items that it adds.
pub data Run {T : Type 0} : AsyncBatcher T → List T → AsyncBatcher T → Type 0 where
  stop : (s : AsyncBatcher T) → Run s [] s
  then_step :
      {s t u : AsyncBatcher T} {xs ys : List T} → Run s xs t → Step t ys u → Run s (xs ++ ys) u

module _ {T : Type 0} where
  -- The handler's batches, end to end.
  unfoldable pub concat : List (List T) → List T
  concat [] = []
  concat (xs ∷ xss) = xs ++ concat xss

  abbrev pub in_flight : Phase T → List T
  in_flight (handling x xs) = x ∷ xs
  in_flight _ = []

  -- What was handed to the handler, what it holds now, and what waits in the buffer.
  unfoldable pub all_items : AsyncBatcher T → List T
  all_items s = concat s.handled ++ (in_flight s.phase ++ s.buffer)

  concat-snoc : (xss : List (List T)) (xs : List T) → concat (xss ++ xs ∷ []) ≡ concat xss ++ xs
  unfolding concat
  concat-snoc [] xs = append-nil xs
  concat-snoc (ys ∷ xss) xs =
      ap (λ zs. ys ++ zs) (concat-snoc xss xs) ∙ sym (append_assoc ys (concat xss) xs)

  woken-items :
      (xs : List T) (s : AsyncBatcher T)
      → s.buffer ≡ xs
      → s.phase ≡ waiting
      → all_items (woken xs s) ≡ all_items s
  unfolding all_items
  woken-items [] s e p = rw (e, p) refl
  woken-items (x ∷ xs) s e p = rw (e, p) (ap (λ zs. concat s.handled ++ zs) (append-nil (x ∷ xs)))

  tested-in_flight : (b : Bool) → in_flight (tested b) ≡ []
  tested-in_flight true = refl
  tested-in_flight false = refl

  step-items : {s t : AsyncBatcher T} {ys : List T} → Step s ys t → all_items t ≡ all_items s ++ ys
  unfolding all_items
  step-items (add_item s x h) =
      ap (λ zs. concat s.handled ++ zs) (sym (append_assoc (in_flight s.phase) s.buffer (x ∷ [])))
      ∙ sym (append_assoc (concat s.handled) (in_flight s.phase ++ s.buffer) (x ∷ []))
  step-items (close_it s) = sym (append-nil _)
  step-items (test s p) =
      rw (tested-in_flight s.closed, p) (sym (append-nil (concat s.handled ++ s.buffer)))
  step-items (wake s p) = woken-items s.buffer s refl p ∙ sym (append-nil _)
  step-items (handle s x xs p) =
      rw (p, concat-snoc s.handled (x ∷ xs))
        (append_assoc (concat s.handled) (x ∷ xs) s.buffer
          ∙ sym (append-nil (concat s.handled ++ ((x ∷ xs) ++ s.buffer))))

  -- In every interleaving, the handled batches in their order, the batch in the handler and the
  -- buffer are together the items that were added, each once and in the order of their addition.
  pub Run-conserves :
      {s t : AsyncBatcher T} {xs : List T} → Run s xs t → all_items t ≡ all_items s ++ xs
  Run-conserves (stop s) = sym (append-nil (all_items s))
  Run-conserves {s} (then_step {s = _} {xs} {ys} r st) =
      step-items st ∙ ap (λ zs. zs ++ ys) (Run-conserves r) ∙ append_assoc (all_items s) xs ys
