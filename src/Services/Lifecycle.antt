-- ===== src/Services/Lifecycle.antt =====
-- The lifecycle of a container: where each call leaves it, and the cause of an error state.
use localstack_bb.Base.{◌≡◌, refl, ◌≢◌, Bool, true, false, Option, none, some, last?, last?-append}
use localstack_bb.Services.{
  ServiceContainer, ServiceState, starting, running, stopping, stopped, error, start_service,
  stop_service, check_service, check_container, start_container, stop_container, failed, checked,
  started, halted,
}

module _ {W E K : Type 0} where
  -- A container in the error state has recorded an error.
  pub record HasCause (c : ServiceContainer W E K) : Type 0 where
    pub cause : c.state ≡ error → (e : E) × (last? c.errors ≡ some e)

  pub failed-HasCause : (c : ServiceContainer W E K) (e : E) → HasCause (failed c e)
  failed-HasCause c e = record { cause = λ _. (e, last?-append c.errors e) }

  -- What a call does to a container: it ends in `target` and records no error, or it ends in the
  -- error state with one more error, the last.
  pub data Outcome (c : ServiceContainer W E K) (target : ServiceState)
      : Bool → ServiceContainer W E K → Type 0 where
    success : Outcome c target true (record c { state = target })
    failure : (e : E) → Outcome c target false (failed c e)

  checked-Outcome :
      (c : ServiceContainer W E K) (p : Option E × W)
      → Outcome c running (checked c p).0 (checked c p).1
  checked-Outcome c (none, w) = success
  checked-Outcome c (some e, w) = failure e

  -- A check ends in the running state and says so, or in the error state with its cause recorded.
  pub check_container-Outcome :
      (c : ServiceContainer W E K) (w : W)
      → Outcome c running (check_container c w).0 (check_container c w).1
  unfolding check_container
  check_container-Outcome c w = checked-Outcome c (check_service c.service false true w)

  -- The state before a call plays no part in its outcome.
  Outcome-from :
      {c : ServiceContainer W E K} {s t : ServiceState} {b : Bool} {c' : ServiceContainer W E K}
      → Outcome (record c { state = s }) t b c'
      → Outcome c t b c'
  Outcome-from success = success
  Outcome-from (failure e) = failure e

  started-Outcome :
      (c : ServiceContainer W E K) (p : Option E × W)
      → Outcome c running (started c p).0 (started c p).1
  started-Outcome c (none, w) = check_container-Outcome c w
  started-Outcome c (some e, w) = failure e

  -- A start ends in the running state and says so, or in the error state with its cause recorded.
  pub start_container-Outcome :
      (c : ServiceContainer W E K) (w : W)
      → Outcome c running (start_container c w).0 (start_container c w).1
  unfolding start_container
  start_container-Outcome c w =
      Outcome-from
        (started-Outcome (record c { state = starting }) (start_service c.service true w))

  halted-Outcome :
      (c : ServiceContainer W E K) (p : Option E × W)
      → (b : Bool) × Outcome c stopped b (halted c p).0
  halted-Outcome c (none, w) = (true, success)
  halted-Outcome c (some e, w) = (false, failure e)

  -- A stop ends in the stopped state, or in the error state with its cause recorded.
  pub stop_container-Outcome :
      (c : ServiceContainer W E K) (w : W) → (b : Bool) × Outcome c stopped b (stop_container c w).0
  unfolding stop_container
  stop_container-Outcome c w =
      let (b, o) = halted-Outcome (record c { state = stopping }) (stop_service c.service w) in
      (b, Outcome-from o)

  -- Every outcome other than a move to the error state keeps the cause of an error.
  pub Outcome-HasCause :
      {c c' : ServiceContainer W E K} {t : ServiceState} {b : Bool}
      → t ≢ error
      → Outcome c t b c'
      → HasCause c'
  Outcome-HasCause n success = record { cause = λ e. absurd (n e) }
  Outcome-HasCause {c} n (failure e) = failed-HasCause c e

  pub start_container-HasCause :
      (c : ServiceContainer W E K) (w : W) → HasCause (start_container c w).1
  start_container-HasCause c w = Outcome-HasCause (cc) (start_container-Outcome c w)

  -- A success leaves the container running, and a failure names the error that it recorded.
  pub Outcome-ok :
      {c c' : ServiceContainer W E K} {t : ServiceState} {b : Bool}
      → Outcome c t b c'
      → b ≡ true
      → (c'.state ≡ t) × (c'.service ≡ c.service) × (c'.errors ≡ c.errors)
  Outcome-ok success e = (refl, refl, refl)
  Outcome-ok (failure _) e = cc

  pub Outcome-failed :
      {c c' : ServiceContainer W E K} {t : ServiceState} {b : Bool}
      → Outcome c t b c'
      → b ≡ false
      → (c'.state ≡ error) × ((e : E) × (last? c'.errors ≡ some e))
  Outcome-failed success e = cc
  Outcome-failed {c} (failure e) h = (refl, (e, last?-append c.errors e))
