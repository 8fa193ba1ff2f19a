-- ===== src/Services/Manager/Stops.antt =====
-- What a stop of services by name leaves.
use localstack_bb.Base.{◌≡◌, ◌⊎◌, Bool, true, false, Option, none, some}
use localstack_bb.Base.Dict
use localstack_bb.Services.{ServiceContainer, ServiceState, starting, running, stop_container}
use localstack_bb.Services.Manager.{Services}

-- Whether a service is up: starting or running.
abbrev pub is_up : Option ServiceState → Bool
is_up (some starting) = true
is_up (some running) = true
is_up _ = false

module _ {W E K : Type 0} where
  -- What a stop makes of a service: one that is down, or is none, it leaves; one that is up it stops by
  -- its container.
  abbrev pub HasStopped : Option (ServiceContainer W E K) → Option (ServiceContainer W E K) → Type 0
  HasStopped none after = after ≡ none
  HasStopped (some c) after =
      ((is_up (some c.state) ≡ false) × (after ≡ some c))
      ⊎ ((is_up (some c.state) ≡ true) × ((w : W) × (after ≡ some (stop_container c w).0)))
