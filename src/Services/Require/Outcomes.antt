-- ===== src/Services/Require/Outcomes.antt =====
-- The outcomes of `require`, and the container that each leaves.
use localstack_bb.Base.{
  String, ◌≡◌, Option, none, some, true, false, last?, refl, inl, inr, Option-cases,
}
use localstack_bb.Base.Result.{Result, ok, err}
use localstack_bb.Services.{
  Service, ServiceContainer, ServiceState, available, disabled, starting, running, stopped, error,
  failed, start_service, check_service,
}
use localstack_bb.Services.Require.{
  Shared, Interleaving, RequireError, start_timeout, stop_timeout, service_disabled, raised,
  no_cause, not_ready, require_container, require_locked, raise_last, raise_at, checked_at,
  check_at, started_at, start_at, not_ready_at, at_stopped, at_available, at_error, at_running,
  at_disabled, disabled_tested, running_tested, error_tested, available_tested, start_called,
  check_called, raising,
}
use localstack_bb.Services.Require.Phases.{require_container_by}

module _ {W E K : Type 0} where
  -- A call of `require` fails, or returns the service of a container that is running at the last
  -- access of the call.
  pub data Served : Result (RequireError E) (Service W E K) × Shared W E K → Type 0 where
    refused : (e : RequireError E) (t : Shared W E K) → Served (err e, t)
    served :
        (c : ServiceContainer W E K) (w : W) → c.state ≡ running → Served (ok c.service, (c, w))

  raise_at-Served : (i : Interleaving W E K) (s : Shared W E K) → Served (raise_at i s)
  raise_at-Served i s = elim (Option-cases (last? (i.under_lock raising s).0.errors)) [
    | inl e ↦ rw (e, raise_last) (refused no_cause (i.under_lock raising s))
    | inr (x, e) ↦ rw (e, raise_last) (refused (raised x) (i.under_lock raising s))
  ]

  checked_at-Served :
      (i : Interleaving W E K) (e : Option E) (s : Shared W E K) → Served (checked_at i e s)
  checked_at-Served i none (c, w) = served (record c { state = running }) w refl
  checked_at-Served i (some e) (c, w) = raise_at-Served i (failed c e, w)

  check_at-Served : (i : Interleaving W E K) (s : Shared W E K) → Served (check_at i s)
  check_at-Served i (c, w) =
      let p = check_service c.service false true w in
      checked_at-Served i p.0 (i.under_lock check_called (c, p.1))

  started_at-Served :
      (i : Interleaving W E K) (e : Option E) (s : Shared W E K) → Served (started_at i e s)
  started_at-Served i none s = check_at-Served i s
  started_at-Served i (some e) (c, w) = raise_at-Served i (failed c e, w)

  start_at-Served : (i : Interleaving W E K) (s : Shared W E K) → Served (start_at i s)
  unfolding start_at
  start_at-Served i (c, w) =
      let p = start_service c.service true w in
      started_at-Served i p.0 (i.under_lock start_called (record c { state = starting }, p.1))

  not_ready_at-Served :
      (name : String) (i : Interleaving W E K) (s : Shared W E K) → Served (not_ready_at name i s)
  not_ready_at-Served name i s =
      let t = i.under_lock raising s in refused (not_ready name t.0.state) t

  at_stopped-Served :
      (st : ServiceState) (name : String) (i : Interleaving W E K) (s : Shared W E K)
      → Served (at_stopped st name i s)
  at_stopped-Served stopped name i s = start_at-Served i s
  at_stopped-Served _ name i s = not_ready_at-Served name i s

  at_available-Served :
      (st : ServiceState) (name : String) (i : Interleaving W E K) (s : Shared W E K)
      → Served (at_available st name i s)
  at_available-Served available name i s = start_at-Served i s
  at_available-Served _ name i s =
      let t = i.under_lock available_tested s in at_stopped-Served t.0.state name i t

  at_error-Served :
      (st : ServiceState) (name : String) (i : Interleaving W E K) (s : Shared W E K)
      → Served (at_error st name i s)
  at_error-Served error name i s = raise_at-Served i s
  at_error-Served _ name i s =
      let t = i.under_lock error_tested s in at_available-Served t.0.state name i t

  at_running-Served :
      (st : ServiceState) (name : String) (i : Interleaving W E K) (s : Shared W E K)
      → s.0.state ≡ st
      → Served (at_running st name i s)
  at_running-Served running name i (c, w) h = served c w h
  at_running-Served _ name i s h =
      let t = i.under_lock running_tested s in at_error-Served t.0.state name i t

  at_disabled-Served :
      (st : ServiceState) (name : String) (i : Interleaving W E K) (s : Shared W E K)
      → Served (at_disabled st name i s)
  at_disabled-Served disabled name i s = refused (service_disabled name) s
  at_disabled-Served _ name i s =
      let t = i.under_lock disabled_tested s in at_running-Served t.0.state name i t refl

  require_locked-Served :
      (name : String) (i : Interleaving W E K) (s : Shared W E K) → Served (require_locked name i s)
  unfolding require_locked
  require_locked-Served name i s = at_disabled-Served s.0.state name i s

  -- Whatever the other threads do during the waits, before the lock and between the accesses of the
  -- block under it, a call of `require` for a container fails, or returns the service of the
  -- container, which is in the running state at the last access of the call to the state.
  pub require_container-Served :
      (name : String) (i : Interleaving W E K) (s : Shared W E K)
      → Served (require_container name i s)
  require_container-Served name i s =
      require_container_by (λ _. Unit {0}) Served name i (λ _ _ _. tt) (λ _ _ _. tt) (λ _ _. tt)
        (λ t _. require_locked-Served name i t) (refused (start_timeout name))
        (refused (stop_timeout name)) s tt
