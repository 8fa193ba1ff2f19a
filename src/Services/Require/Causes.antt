-- ===== src/Services/Require/Causes.antt =====
-- When `require` reads `container.errors[-1]`.
use localstack_bb.Base.{ℕ, String, ◌≡◌, ◌≢◌, true, false, Option, none, refl, some, last?}
use localstack_bb.Base.Result.{err}
use localstack_bb.Services.{
  ServiceContainer, ServiceState, available, disabled, starting, running, stopped, error, failed,
  start_service, check_service,
}
use localstack_bb.Services.Lifecycle.{HasCause, failed-HasCause}
use localstack_bb.Services.Require.{
  Shared, Interleaving, Access, no_cause, require_container, require_locked, raise_last, raise_at,
  checked_at, started_at, start_at, at_stopped, at_available, at_error, at_running, at_disabled,
  disabled_tested, running_tested, error_tested, available_tested, start_called, check_called,
  raising,
}
use localstack_bb.Services.Require.Phases.{require_container_by}

-- A container has recorded an error.
abbrev pub HasErrors : {W E K : Type 0} → ServiceContainer W E K → Type 0
HasErrors {W} {E} {K} c = (e : E) × (last? c.errors ≡ some e)

module _ {W E K : Type 0} (name : String) (i : Interleaving W E K)
    (causes : (a : Access) (t : Shared W E K) → HasCause t.0 → HasCause (i.under_lock a t).0)
    (errors : (a : Access) (t : Shared W E K)
      → HasErrors t.0
      → HasErrors (i.under_lock a t).0) where
  raise_at_cause : (s : Shared W E K) → HasErrors s.0 → (raise_at i s).0 ≢ err no_cause
  raise_at_cause s h = let (e, k) = errors raising s h in rw (k, raise_last) (λ r. cc)

  failed_cause :
      (c : ServiceContainer W E K) (e : E) (w : W) → (raise_at i (failed c e, w)).0 ≢ err no_cause
  failed_cause c e w = raise_at_cause (failed c e, w) ((failed-HasCause c e).cause refl)

  checked_at_cause : (e : Option E) (s : Shared W E K) → (checked_at i e s).0 ≢ err no_cause
  checked_at_cause none (c, w) = λ r. cc
  checked_at_cause (some e) (c, w) = failed_cause c e w

  started_at_cause : (e : Option E) (s : Shared W E K) → (started_at i e s).0 ≢ err no_cause
  started_at_cause none (c, w) =
      let p = check_service c.service false true w in
      checked_at_cause p.0 (i.under_lock check_called (c, p.1))
  started_at_cause (some e) (c, w) = failed_cause c e w

  start_at_cause : (s : Shared W E K) → (start_at i s).0 ≢ err no_cause
  unfolding start_at
  start_at_cause (c, w) =
      let p = start_service c.service true w in
      started_at_cause p.0 (i.under_lock start_called (record c { state = starting }, p.1))

  at_stopped_cause :
      (st : ServiceState) (s : Shared W E K) → (at_stopped st name i s).0 ≢ err no_cause
  at_stopped_cause stopped s = start_at_cause s
  at_stopped_cause _ s = λ r. cc

  at_available_cause :
      (st : ServiceState) (s : Shared W E K) → (at_available st name i s).0 ≢ err no_cause
  at_available_cause available s = start_at_cause s
  at_available_cause _ s = let t = i.under_lock available_tested s in at_stopped_cause t.0.state t

  at_error_cause :
      (st : ServiceState) (s : Shared W E K)
      → s.0.state ≡ st
      → HasCause s.0
      → (at_error st name i s).0 ≢ err no_cause
  at_error_cause error s h k = raise_at_cause s (k.cause h)
  at_error_cause _ s h k = let t = i.under_lock error_tested s in at_available_cause t.0.state t

  at_running_cause :
      (st : ServiceState) (s : Shared W E K)
      → HasCause s.0
      → (at_running st name i s).0 ≢ err no_cause
  at_running_cause running s k = λ r. cc
  at_running_cause _ s k =
      let t = i.under_lock running_tested s in
      at_error_cause t.0.state t refl (causes running_tested s k)

  at_disabled_cause :
      (st : ServiceState) (s : Shared W E K)
      → HasCause s.0
      → (at_disabled st name i s).0 ≢ err no_cause
  at_disabled_cause disabled s k = λ r. cc
  at_disabled_cause _ s k =
      let t = i.under_lock disabled_tested s in
      at_running_cause t.0.state t (causes disabled_tested s k)

  require_locked_cause :
      (s : Shared W E K) → HasCause s.0 → (require_locked name i s).0 ≢ err no_cause
  unfolding require_locked
  require_locked_cause s k = at_disabled_cause s.0.state s k

module _ {W E K : Type 0} where
  -- Where every error state has recorded its cause, which the other threads keep, and these never
  -- leave a container without errors that had one, a call of `require` never reads the last error of
  -- an empty list.
  pub require_container_cause :
      (name : String) (i : Interleaving W E K) (s : Shared W E K)
      → ((k : ℕ) (t : Shared W E K) → HasCause t.0 → HasCause (i.while_starting k t).0)
      → ((k : ℕ) (t : Shared W E K) → HasCause t.0 → HasCause (i.while_stopping k t).0)
      → ((t : Shared W E K) → HasCause t.0 → HasCause (i.before_lock t).0)
      → ((a : Access) (t : Shared W E K) → HasCause t.0 → HasCause (i.under_lock a t).0)
      → ((a : Access) (t : Shared W E K) → HasErrors t.0 → HasErrors (i.under_lock a t).0)
      → HasCause s.0
      → (require_container name i s).0 ≢ err no_cause
  require_container_cause name i s k1 k2 k3 k4 k5 h =
      require_container_by (λ t. HasCause t.0) (λ r. r.0 ≢ err no_cause) name i k1 k2 k3
        (require_locked_cause name i k4 k5) (λ t r. cc) (λ t r. cc) s h
