-- ===== src/Services.antt =====
-- localstack-core/localstack/services/plugins.py: services, their containers and lifecycle. The
-- functions of a service and its hooks are the service's own code: each takes the outside world and
-- returns it changed, with the exception that it raised, if any.
pub mod Lifecycle
pub mod Require
pub mod Manager
pub mod Providers
pub mod PluginErrors
pub mod Plugins
mod Tests
use localstack_bb.Base.{String, Bool, true, false, Option, none, some, List, [], ◌∷◌, ◌++◌}

-- The outside world `W`, the exceptions `E`, the skeletons `K`.
abbrev pub Call : Type 0 → Type 0 → Type 0
Call W E = W → Option E × W

pub record ServiceLifecycleHook (W E : Type 0) : Type 0 where
  pub on_after_init : Call W E
  pub on_before_start : Call W E
  pub on_before_stop : Call W E
  pub on_exception : Call W E

-- `start` is left at its default, is falsy, or is a function of `asynchronous` and of the listener.
pub data StartFunction (W E K : Type 0) : Type 0 where
  default_start : StartFunction W E K
  no_start : StartFunction W E K
  start_with : (Bool → Option K → Call W E) → StartFunction W E K

pub record Service (W E K : Type 0) : Type 0 where
  pub plugin_name : String
  pub start_function : StartFunction W E K
  pub check_function : Option (Bool → Bool → Call W E)
  pub stop_function : Option (Call W E)
  pub skeleton : Option K
  pub default_active : Bool
  pub lifecycle_hook : ServiceLifecycleHook W E

pub data ServiceState : Type 0 where
  unknown available disabled starting running stopping stopped error : ServiceState

pub record ServiceContainer (W E K : Type 0) : Type 0 where
  pub service : Service W E K
  pub state : ServiceState
  pub errors : List E

module _ {W E : Type 0} where
  -- `call_safe`: an exception of the call is logged and dropped.
  abbrev pub call_safe : Call W E → W → W
  call_safe f w = (f w).1

  abbrev run_stop : Option (Call W E) → Call W E
  run_stop none w = (none, w)
  run_stop (some f) w = f w

  abbrev run_check : Option (Bool → Bool → Call W E) → Bool → Bool → Call W E
  run_check none expect_shutdown print_error w = (none, w)
  run_check (some f) expect_shutdown print_error w = f expect_shutdown print_error w

module _ {W E K : Type 0} where
  -- `Service.__init__` runs its hook.
  unfoldable pub init_service : Service W E K → W → W
  init_service s w = call_safe s.lifecycle_hook.on_after_init w

  abbrev run_start : StartFunction W E K → Bool → Option K → Call W E
  run_start default_start asynchronous listener w = (none, w)
  run_start no_start asynchronous listener w = (none, w)
  run_start (start_with f) asynchronous listener w = f asynchronous listener w

  -- `Service.start`
  unfoldable pub start_service : Service W E K → Bool → Call W E
  start_service s asynchronous w =
      run_start s.start_function asynchronous s.skeleton
        (call_safe s.lifecycle_hook.on_before_start w)

  -- `Service.stop`
  unfoldable pub stop_service : Service W E K → Call W E
  stop_service s w = run_stop s.stop_function (call_safe s.lifecycle_hook.on_before_stop w)

  -- `Service.check`
  unfoldable pub check_service : Service W E K → Bool → Bool → Call W E
  check_service s expect_shutdown print_error w =
      run_check s.check_function expect_shutdown print_error w

  abbrev pub failed : ServiceContainer W E K → E → ServiceContainer W E K
  failed c e = record c { state = error; errors = c.errors ++ e ∷ [] }

  -- What `ServiceContainer.check` does with the outcome of the service's check.
  abbrev pub checked : ServiceContainer W E K → Option E × W → Bool × ServiceContainer W E K × W
  checked c (none, w) = (true, record c { state = running }, w)
  checked c (some e, w) = (false, failed c e, w)

  -- `ServiceContainer.check`
  unfoldable pub check_container : ServiceContainer W E K → W → Bool × ServiceContainer W E K × W
  check_container c w = checked c (check_service c.service false true w)

  abbrev pub started : ServiceContainer W E K → Option E × W → Bool × ServiceContainer W E K × W
  started c (none, w) = check_container c w
  started c (some e, w) = (false, failed c e, w)

  -- `ServiceContainer.start`
  unfoldable pub start_container : ServiceContainer W E K → W → Bool × ServiceContainer W E K × W
  start_container c w = started (record c { state = starting }) (start_service c.service true w)

  abbrev halted : ServiceContainer W E K → Option E × W → ServiceContainer W E K × W
  halted c (none, w) = (record c { state = stopped }, w)
  halted c (some e, w) = (failed c e, w)

  -- `ServiceContainer.stop`
  unfoldable pub stop_container : ServiceContainer W E K → W → ServiceContainer W E K × W
  stop_container c w = halted (record c { state = stopping }) (stop_service c.service w)
