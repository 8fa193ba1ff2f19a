-- ===== src/Batching.antt =====
-- localstack-core/localstack/utils/batching.py `Batcher`. Times are counted in ticks of a monotonic
-- clock, whose reading each call takes.
pub mod Policy
pub mod Fifo
pub mod Async
pub mod Closing
mod Tests
use localstack_bb.Base.{
  ℕ, zero, suc, ◌-◌, min, Bool, true, false, ◌&&◌, ◌||◌, not, Option, none, some, List, [], ◌++◌,
  if◌then◌else◌, leb, length, take, drop,
}
use localstack_bb.Base.Int.{ℤ, negsuc, sub_ℕ, max_ℤ}

pub record Batcher (T : Type 0) : Type 0 where
  pub max_count : Option ℕ
  pub max_window : Option ℕ
  pub triggered : Bool
  pub last_batch_time : ℕ
  pub batch : List T

-- `not limit`: no limit, or zero.
abbrev pub falsy : Option ℕ → Bool
falsy none = true
falsy (some zero) = true
falsy (some (suc n)) = false

-- `limit is not None and n >= limit`
abbrev pub reaches : Option ℕ → ℕ → Bool
reaches none n = false
reaches (some limit) n = leb limit n

-- `max(self.max_window - self.period, -1)`
abbrev pub until : Option ℕ → ℕ → ℤ
until none p = negsuc 0
until (some zero) p = negsuc 0
until (some (suc n)) p = max_ℤ (sub_ℕ (suc n) p) (negsuc 0)

module _ {T : Type 0} where
  -- `Batcher(max_count, max_window)`
  unfoldable pub new_batcher : Option ℕ → Option ℕ → ℕ → Batcher T
  new_batcher max_count max_window now = record {
    max_count = max_count;
    max_window = max_window;
    triggered = false;
    last_batch_time = now;
    batch = [];
  }

  unfoldable pub period : ℕ → Batcher T → ℕ
  period now b = now - b.last_batch_time

  abbrev with_trigger : Batcher T → Bool × Batcher T
  with_trigger b = (true, record b { triggered = true })

  -- `_check_batch_policy`
  unfoldable pub check_batch_policy : ℕ → Batcher T → Bool × Batcher T
  check_batch_policy now b =
      if reaches b.max_count (length b.batch)
      then with_trigger b
      else (if reaches b.max_window (period now b)
          then with_trigger b
          else (if falsy b.max_count && falsy b.max_window
              then with_trigger b
              else (b.triggered, b)))

  unfoldable pub is_triggered : ℕ → Batcher T → Bool × Batcher T
  is_triggered now b = if b.triggered then (true, b) else check_batch_policy now b

  -- `add`: an item is a list of one; a deep copy has equal items.
  unfoldable pub add : List T → ℕ → Batcher T → Bool × Batcher T
  add items now b = is_triggered now (record b { batch = b.batch ++ items })

  -- `(self._batch.copy(), [])`, or the split at `min(self.max_count, len(self._batch))`.
  abbrev pub split_batch : Bool → Option ℕ → List T → List T × List T
  split_batch true (some (suc n)) xs =
      (take (min (suc n) (length xs)) xs, drop (min (suc n) (length xs)) xs)
  split_batch _ _ xs = (xs, [])

  unfoldable pub flush : Bool → ℕ → Batcher T → List T × Batcher T
  flush partial now b =
      let (result, rest) = split_batch partial b.max_count b.batch in
      (
        result,
        (check_batch_policy now
            (record b { batch = rest; last_batch_time = now; triggered = false })).1,
      )

  unfoldable pub duration_until_next_batch : ℕ → Batcher T → ℤ
  duration_until_next_batch now b = until b.max_window (period now b)

  unfoldable pub get_current_size : Batcher T → ℕ
  get_current_size b = length b.batch
