-- ===== src/Services/Require/Poll.antt =====
-- What a poll promises.
use localstack_bb.Base.{ℕ, zero, suc, ◌<◌, ◌≡◌, Bool, true, false, arith, Bool-cases, inl, inr}
use localstack_bb.Services.Require.{Steps, poll_condition}

module _ {S : Type 0} (condition : S → Bool) (others : Steps S) where
  -- The shared state at the test of index `k`, from the one with `n` tests left.
  unfoldable pub at_test : ℕ → ℕ → S → S
  at_test n zero s = s
  at_test zero (suc k) s = s
  at_test (suc n) (suc k) s = at_test n k (others n s)

  -- A poll ends well only in a state with the condition.
  pub poll_condition_sound :
      (n : ℕ) (s : S)
      → (poll_condition condition others n s).0 ≡ true
      → condition (poll_condition condition others n s).1 ≡ true
  unfolding poll_condition
  poll_condition_sound zero s h = h
  poll_condition_sound (suc zero) s h = h
  poll_condition_sound (suc (suc n)) s h =
      ground (arith, poll_condition_sound (suc n) (others (suc n) s))

  -- A poll keeps what the other threads keep.
  pub poll_condition_keeps :
      (P : S → Type 0) (n : ℕ) (s : S)
      → ((k : ℕ) (t : S) → P t → P (others k t))
      → P s
      → P (poll_condition condition others n s).1
  unfolding poll_condition
  poll_condition_keeps P zero s k p = p
  poll_condition_keeps P (suc zero) s k p = p
  poll_condition_keeps P (suc (suc n)) s k p = elim (Bool-cases (condition s)) [
    | inl e ↦ rw (e, poll_condition) p
    | inr e ↦
        rw (e, poll_condition) (poll_condition_keeps P (suc n) (others (suc n) s) k (k (suc n) s p))
  ]

  -- A poll gives up where the other threads keep what excludes the condition.
  pub poll_condition_gives_up :
      (P : S → Type 0) (n : ℕ) (s : S)
      → ((k : ℕ) (t : S) → P t → P (others k t))
      → ((t : S) → P t → condition t ≡ false)
      → P s
      → (poll_condition condition others n s).0 ≡ false
  unfolding poll_condition
  poll_condition_gives_up P zero s k never p = never s p
  poll_condition_gives_up P (suc zero) s k never p = never s p
  poll_condition_gives_up P (suc (suc n)) s k never p =
      let here = never s p in
      let rest = poll_condition_gives_up P (suc n) (others (suc n) s) k never (k (suc n) s p) in
      ground arith

  -- A condition that holds at one of the tests is seen.
  pub poll_condition_sees :
      (n k : ℕ) (s : S)
      → k < n
      → condition (at_test n k s) ≡ true
      → (poll_condition condition others n s).0 ≡ true
  unfolding poll_condition at_test
  poll_condition_sees zero k s l h = absurd (omega arith)
  poll_condition_sees (suc zero) zero s l h = h
  poll_condition_sees (suc zero) (suc k) s l h = absurd (omega arith)
  poll_condition_sees (suc (suc n)) zero s l h = ground arith
  poll_condition_sees (suc (suc n)) (suc k) s l h =
      ground (arith, poll_condition_sees (suc n) k (others (suc n) s))
