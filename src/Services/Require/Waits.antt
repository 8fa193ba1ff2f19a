-- ===== src/Services/Require/Waits.antt =====
-- What the waits of `require` lead to.
use localstack_bb.Base.{
  refl, ap, ◌∙◌, Option, none, some, ℕ, ◌<◌, String, ◌≡◌, ◌⊎◌, inl, inr, Bool, true, false, arith,
}
use localstack_bb.Base.Result.{ok, err}
use localstack_bb.Services.{
  ServiceContainer, checked, started, starting, running, start_container, check_container,
  start_service, check_service,
}
use localstack_bb.Services.Require.{
  Shared, Interleaving, Access, disabled_tested, start_called, check_called, start_at, started_at,
  checked_at, at_disabled, at_running, start_timeout, require_container, require_stopped,
  require_locked, poll_condition, timeout, not_starting,
}
use localstack_bb.Services.Require.Poll.{
  at_test, poll_condition_sound, poll_condition_keeps, poll_condition_gives_up, poll_condition_sees,
}

module _ {W E K : Type 0} (name : String) (i : Interleaving W E K) where
  -- The other threads are still starting the service, or have it running.
  abbrev ComesUp : Shared W E K → Type 0
  ComesUp t = (t.0.state ≡ starting) ⊎ (t.0.state ≡ running)

  abbrev waited : Shared W E K → Bool × Shared W E K
  waited s = poll_condition (λ t. not_starting t.0.state) i.while_starting timeout s

  locked_running :
      (s : Shared W E K)
      → i.under_lock disabled_tested s ≡ s
      → s.0.state ≡ running
      → require_locked name i s ≡ (ok s.0.service, s)
  unfolding require_locked
  locked_running s alone e =
      ap (λ st. at_disabled st name i s) e
      ∙ ap (λ t. at_running t.0.state name i t) alone
      ∙ ap (λ st. at_running st name i s) e

  -- A container that another thread is starting is waited for: if it is running at one of the sixty
  -- tests of the poll, and the other threads keep it starting or running, and from the end of the
  -- poll on leave it alone if it is running, then its service is returned.
  pub require_container_waits :
      (s : Shared W E K) (k : ℕ)
      → s.0.state ≡ starting
      → ((j : ℕ) (t : Shared W E K) → ComesUp t → ComesUp (i.while_starting j t))
      → ((t : Shared W E K) → t.0.state ≡ running → i.before_lock t ≡ t)
      → ((a : Access) (t : Shared W E K) → t.0.state ≡ running → i.under_lock a t ≡ t)
      → k < timeout
      → (at_test (λ t. not_starting t.0.state) i.while_starting timeout k s).0.state ≡ running
      → require_container name i s ≡ (ok (waited s).1.0.service, (waited s).1)
  unfolding require_container require_stopped
  require_container_waits s k e keeps lock under lt up =
      let test = λ (t : Shared W E K). not_starting t.0.state in
      let seen = poll_condition_sees test i.while_starting timeout k s lt (ground arith) in
      let sound = poll_condition_sound test i.while_starting timeout s seen in
      let kept = poll_condition_keeps test i.while_starting ComesUp timeout s keeps (inl e) in
      let up' : (waited s).1.0.state ≡ running = elim kept [ inl h ↦ ground arith | inr h ↦ h ] in
      ground (
        arith,
        lock (waited s).1,
        locked_running (waited s).1 (under disabled_tested (waited s).1 up') up',
      )

  -- A container in the starting state, which the other threads keep, is given up on with a timeout.
  pub require_container_times_out :
      (s : Shared W E K)
      → s.0.state ≡ starting
      → ((j : ℕ) (t : Shared W E K)
          → t.0.state ≡ starting
          → (i.while_starting j t).0.state ≡ starting)
      → (require_container name i s).0 ≡ err (start_timeout name)
  unfolding require_container
  require_container_times_out s e keeps =
      let gave_up =
        poll_condition_gives_up (λ (t : Shared W E K). not_starting t.0.state) i.while_starting
          (λ t. t.0.state ≡ starting) timeout s keeps (λ t h. ground arith) e in
      ground arith

module _ {W E K : Type 0} (i : Interleaving W E K)
    (alone : (a : Access) (t : Shared W E K) → i.under_lock a t ≡ t) where
  checked_at_alone :
      (c : ServiceContainer W E K) (e : Option E) (w : W)
      → (checked c (e, w)).0 ≡ true
      → checked_at i e (c, w)
        ≡ (ok (checked c (e, w)).1.service, ((checked c (e, w)).1, (checked c (e, w)).2))
  checked_at_alone c none w h = refl
  checked_at_alone c (some e) w h = absurd (ground arith)

  started_at_alone :
      (c : ServiceContainer W E K) (e : Option E) (w : W)
      → (started c (e, w)).0 ≡ true
      → started_at i e (c, w)
        ≡ (ok (started c (e, w)).1.service, ((started c (e, w)).1, (started c (e, w)).2))
  unfolding check_container
  started_at_alone c none w h =
      let p = check_service c.service false true w in
      ap (λ t. checked_at i p.0 t) (alone check_called (c, p.1)) ∙ checked_at_alone c p.0 p.1 h
  started_at_alone c (some e) w h = absurd (ground arith)

  -- Where no other thread acts under the lock, a start there that succeeds is one of the container.
  pub start_at_alone :
      (c : ServiceContainer W E K) (w : W)
      → (start_container c w).0 ≡ true
      → start_at i (c, w)
        ≡ (ok (start_container c w).1.service, ((start_container c w).1, (start_container c w).2))
  unfolding start_at start_container
  start_at_alone c w h =
      let p = start_service c.service true w in
      let c' = record c { state = starting } in
      ap (λ t. started_at i p.0 t) (alone start_called (c', p.1)) ∙ started_at_alone c' p.0 p.1 h
