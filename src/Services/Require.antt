-- ===== src/Services/Require.antt =====
-- localstack-core/localstack/services/plugins.py `ServiceManager.require` and
-- localstack-core/localstack/utils/sync.py `poll_condition`. What the other threads do to the
-- container is a parameter: a step in each sleep of a poll, one before the lock is taken, and one
-- between any two accesses under the lock, which stops and checks do not take.
pub mod Poll
pub mod Phases
pub mod Outcomes
pub mod Causes
pub mod Waits
use localstack_bb.Base.{ℕ, zero, suc, String, Bool, true, false, Option, none, some, last?}
use localstack_bb.Base.Result.{Result, ok, err}
use localstack_bb.Services.{
  Service, ServiceContainer, ServiceState, available, disabled, starting, running, stopping,
  stopped, error, failed, start_service, check_service,
}

abbrev pub Shared : Type 0 → Type 0 → Type 0 → Type 0
Shared W E K = ServiceContainer W E K × W

-- The other threads' step in a sleep, numbered by the tests of the condition that are left.
abbrev pub Steps : Type 0 → Type 0
Steps S = ℕ → S → S

-- `poll_condition`: the timeout is counted in intervals.
unfoldable pub poll_condition : {S : Type 0} → (S → Bool) → Steps S → ℕ → S → Bool × S
poll_condition condition others zero s = (condition s, s)
poll_condition condition others (suc zero) s = (condition s, s)
poll_condition condition others (suc (suc n)) s =
    let rest = poll_condition condition others (suc n) (others (suc n) s) in
    elim (condition s) [ true ↦ (true, s) | false ↦ rest ]

-- A timeout of 30 seconds in intervals of 0.5 seconds.
abbrev pub timeout : ℕ
timeout = 60

-- `no_cause` is the `IndexError` of `container.errors[-1]` on an empty list.
pub data RequireError (E : Type 0) : Type 0 where
  no_such_service : String → RequireError E
  start_timeout : String → RequireError E
  stop_timeout : String → RequireError E
  service_disabled : String → RequireError E
  raised : E → RequireError E
  no_cause : RequireError E
  not_ready : String → ServiceState → RequireError E

abbrev pub not_starting : ServiceState → Bool
not_starting starting = false
not_starting _ = true

abbrev pub is_stopped : ServiceState → Bool
is_stopped stopped = true
is_stopped _ = false

-- Where the other threads may act under the lock: behind a test of the state, during the functions of
-- the service that start and check it, and before an error is raised.
pub data Access : Type 0 where
  disabled_tested running_tested error_tested available_tested : Access
  start_called check_called raising : Access

pub record Interleaving (W E K : Type 0) : Type 0 where
  pub while_starting : Steps (Shared W E K)
  pub while_stopping : Steps (Shared W E K)
  pub before_lock : Shared W E K → Shared W E K
  pub under_lock : Access → Shared W E K → Shared W E K

abbrev pub Required : Type 0 → Type 0 → Type 0 → Type 0
Required W E K = Result (RequireError E) (Service W E K) × Shared W E K

module _ {W E K : Type 0} where
  -- `raise container.errors[-1]`
  abbrev pub raise_last : ServiceContainer W E K → Result (RequireError E) (Service W E K)
  raise_last c = elim (last? c.errors) [ none ↦ err no_cause | some e ↦ err (raised e) ]

  abbrev pub raise_at : Interleaving W E K → Shared W E K → Required W E K
  raise_at i s = let t = i.under_lock raising s in (raise_last t.0, t)

  -- `ServiceContainer.check`, with the outcome of the service's check.
  abbrev pub checked_at : Interleaving W E K → Option E → Shared W E K → Required W E K
  checked_at i none (c, w) = (ok c.service, (record c { state = running }, w))
  checked_at i (some e) (c, w) = raise_at i (failed c e, w)

  abbrev pub check_at : Interleaving W E K → Shared W E K → Required W E K
  check_at i (c, w) =
      let (e, w') = check_service c.service false true w in
      checked_at i e (i.under_lock check_called (c, w'))

  -- `ServiceContainer.start`, with the outcome of the service's start.
  abbrev pub started_at : Interleaving W E K → Option E → Shared W E K → Required W E K
  started_at i none s = check_at i s
  started_at i (some e) (c, w) = raise_at i (failed c e, w)

  unfoldable pub start_at : Interleaving W E K → Shared W E K → Required W E K
  start_at i (c, w) =
      let (e, w') = start_service c.service true w in
      started_at i e (i.under_lock start_called (record c { state = starting }, w'))

  abbrev pub not_ready_at : String → Interleaving W E K → Shared W E K → Required W E K
  not_ready_at name i s = let t = i.under_lock raising s in (err (not_ready name t.0.state), t)

  -- The tests of the block under the lock, each of which reads the state.
  abbrev pub at_stopped : ServiceState → String → Interleaving W E K → Shared W E K → Required W E K
  at_stopped stopped name i s = start_at i s
  at_stopped _ name i s = not_ready_at name i s

  abbrev pub at_available :
      ServiceState → String → Interleaving W E K → Shared W E K → Required W E K
  at_available available name i s = start_at i s
  at_available _ name i s = let t = i.under_lock available_tested s in at_stopped t.0.state name i t

  abbrev pub at_error : ServiceState → String → Interleaving W E K → Shared W E K → Required W E K
  at_error error name i s = raise_at i s
  at_error _ name i s = let t = i.under_lock error_tested s in at_available t.0.state name i t

  abbrev pub at_running : ServiceState → String → Interleaving W E K → Shared W E K → Required W E K
  at_running running name i s = (ok s.0.service, s)
  at_running _ name i s = let t = i.under_lock running_tested s in at_error t.0.state name i t

  abbrev pub at_disabled :
      ServiceState → String → Interleaving W E K → Shared W E K → Required W E K
  at_disabled disabled name i s = (err (service_disabled name), s)
  at_disabled _ name i s = let t = i.under_lock disabled_tested s in at_running t.0.state name i t

  -- The block under the lock, and the exception after it.
  unfoldable pub require_locked : String → Interleaving W E K → Shared W E K → Required W E K
  require_locked name i s = at_disabled s.0.state name i s

  abbrev after_wait :
      RequireError E
      → Bool × Shared W E K
      → (Shared W E K → Result (RequireError E) (Service W E K) × Shared W E K)
      → Result (RequireError E) (Service W E K) × Shared W E K
  after_wait e (true, s) next = next s
  after_wait e (false, s) next = (err e, s)

  abbrev wait_stopped_at :
      ServiceState
      → String
      → Interleaving W E K
      → Shared W E K
      → Result (RequireError E) (Service W E K) × Shared W E K
  wait_stopped_at stopping name i s =
      after_wait (stop_timeout name)
        (poll_condition (λ t. is_stopped t.0.state) i.while_stopping timeout s)
        (λ t. require_locked name i (i.before_lock t))
  wait_stopped_at _ name i s = require_locked name i (i.before_lock s)

  -- From the test of the stopping state on.
  unfoldable pub require_stopped :
      String
      → Interleaving W E K
      → Shared W E K
      → Result (RequireError E) (Service W E K) × Shared W E K
  require_stopped name i s = wait_stopped_at s.0.state name i s

  abbrev wait_started_at :
      ServiceState
      → String
      → Interleaving W E K
      → Shared W E K
      → Result (RequireError E) (Service W E K) × Shared W E K
  wait_started_at starting name i s =
      after_wait (start_timeout name)
        (poll_condition (λ t. not_starting t.0.state) i.while_starting timeout s)
        (require_stopped name i)
  wait_started_at _ name i s = require_stopped name i s

  -- `require` on a container that was found.
  unfoldable pub require_container :
      String
      → Interleaving W E K
      → Shared W E K
      → Result (RequireError E) (Service W E K) × Shared W E K
  require_container name i s = wait_started_at s.0.state name i s

  -- `require`, after `get_service_container`.
  unfoldable pub require :
      String
      → Interleaving W E K
      → Option (ServiceContainer W E K)
      → W
      → Result (RequireError E) (Service W E K) × Option (ServiceContainer W E K) × W
  require name i none w = (err (no_such_service name), none, w)
  require name i (some c) w = let (r, s) = require_container name i (c, w) in (r, some s.0, s.1)
