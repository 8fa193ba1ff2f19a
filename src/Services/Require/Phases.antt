-- ===== src/Services/Require/Phases.antt =====
-- The two waits of `require` and the block under the lock: what holds of every outcome of the block
-- and of the two timeouts holds of the call, if the other threads keep what it takes.
use localstack_bb.Base.{String, Bool, true, false}
use localstack_bb.Base.Result.{Result, err}
use localstack_bb.Services.{Service, ServiceState, starting, stopping}
use localstack_bb.Services.Require.{
  Shared, Interleaving, RequireError, start_timeout, stop_timeout, require_container,
  require_stopped, require_locked, poll_condition, timeout, not_starting, is_stopped, after_wait,
  wait_stopped_at, wait_started_at,
}
use localstack_bb.Services.Require.Poll.{poll_condition_keeps}

module _ {W E K : Type 0} (P : Shared W E K → Type 0)
    (Q : Result (RequireError E) (Service W E K) × Shared W E K → Type 0) (name : String)
    (i : Interleaving W E K) where
  after_wait_by :
      (e : RequireError E) (p : Bool × Shared W E K)
      (next : Shared W E K → Result (RequireError E) (Service W E K) × Shared W E K)
      → P p.1
      → ((t : Shared W E K) → P t → Q (next t))
      → ((t : Shared W E K) → Q (err e, t))
      → Q (after_wait e p next)
  after_wait_by e (true, s) next p h late = h s p
  after_wait_by e (false, s) next p h late = late s

  wait_stopped_by :
      (st : ServiceState) (s : Shared W E K)
      → ((k : _) (t : Shared W E K) → P t → P (i.while_stopping k t))
      → ((t : Shared W E K) → P t → P (i.before_lock t))
      → ((t : Shared W E K) → P t → Q (require_locked name i t))
      → ((t : Shared W E K) → Q (err (stop_timeout name), t))
      → P s
      → Q (wait_stopped_at st name i s)
  wait_stopped_by stopping s keeps lock locked late p =
      after_wait_by (stop_timeout name)
        (poll_condition (λ t. is_stopped t.0.state) i.while_stopping timeout s)
        (λ t. require_locked name i (i.before_lock t))
        (poll_condition_keeps (λ t. is_stopped t.0.state) i.while_stopping P timeout s keeps p)
        (λ t q. locked (i.before_lock t) (lock t q)) late
  wait_stopped_by _ s keeps lock locked late p = locked (i.before_lock s) (lock s p)

  wait_started_by :
      (st : ServiceState) (s : Shared W E K)
      → ((k : _) (t : Shared W E K) → P t → P (i.while_starting k t))
      → ((t : Shared W E K) → P t → Q (require_stopped name i t))
      → ((t : Shared W E K) → Q (err (start_timeout name), t))
      → P s
      → Q (wait_started_at st name i s)
  wait_started_by starting s keeps next late p =
      after_wait_by (start_timeout name)
        (poll_condition (λ t. not_starting t.0.state) i.while_starting timeout s)
        (require_stopped name i)
        (poll_condition_keeps (λ t. not_starting t.0.state) i.while_starting P timeout s keeps p)
        next late
  wait_started_by _ s keeps next late p = next s p

  pub require_stopped_by :
      ((k : _) (t : Shared W E K) → P t → P (i.while_stopping k t))
      → ((t : Shared W E K) → P t → P (i.before_lock t))
      → ((t : Shared W E K) → P t → Q (require_locked name i t))
      → ((t : Shared W E K) → Q (err (stop_timeout name), t))
      → (s : Shared W E K) → P s
      → Q (require_stopped name i s)
  unfolding require_stopped
  require_stopped_by keeps lock locked late s p =
      wait_stopped_by s.0.state s keeps lock locked late p

  pub require_container_by :
      ((k : _) (t : Shared W E K) → P t → P (i.while_starting k t))
      → ((k : _) (t : Shared W E K) → P t → P (i.while_stopping k t))
      → ((t : Shared W E K) → P t → P (i.before_lock t))
      → ((t : Shared W E K) → P t → Q (require_locked name i t))
      → ((t : Shared W E K) → Q (err (start_timeout name), t))
      → ((t : Shared W E K) → Q (err (stop_timeout name), t))
      → (s : Shared W E K) → P s
      → Q (require_container name i s)
  unfolding require_container
  require_container_by k1 k2 lock locked late1 late2 s p =
      wait_started_by s.0.state s k1 (require_stopped_by k2 lock locked late2) late1 p
