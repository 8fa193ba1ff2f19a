-- ===== src/Services/Manager.antt =====
-- localstack-core/localstack/services/plugins.py `ServiceManager`: the containers by name, and the
-- stops that `ServicePluginManager` makes of them.
pub mod Stops
pub mod Checks
use localstack_bb.Base.{String, Bool, true, false, Option, none, some, List, [], ◌∷◌, if◌then◌else◌}
use localstack_bb.Base.Dict
use localstack_bb.Base.Dict.{Dict}
use localstack_bb.Services.{
  Service, ServiceContainer, ServiceState, available, disabled, starting, running, error,
  check_container, stop_container,
}

abbrev pub Services : Type 0 → Type 0 → Type 0 → Type 0
Services W E K = Dict (ServiceContainer W E K)

-- `status in [ServiceState.RUNNING, ServiceState.ERROR]`
abbrev pub can_check : ServiceState → Bool
can_check running = true
can_check error = true
can_check _ = false

-- `state in {ServiceState.STARTING, ServiceState.RUNNING}`
abbrev pub can_stop : ServiceState → Bool
can_stop starting = true
can_stop running = true
can_stop _ = false

abbrev pub is_state_running : Option ServiceState → Bool
is_state_running (some running) = true
is_state_running _ = false

-- `check_service_health`: whether it raises. `ServiceManager.check` returns `None` for a service in
-- any other state, which is equal to neither Boolean.
abbrev pub check_service_health : Option Bool → Bool → Bool
check_service_health none expect_shutdown = false
check_service_health (some true) expect_shutdown = expect_shutdown
check_service_health (some false) true = false
check_service_health (some false) false = true

module _ {W E K : Type 0} where
  abbrev pub new_container : Service W E K → ServiceState → ServiceContainer W E K
  new_container s state = record { service = s; state = state; errors = [] }

  -- `add_service`, where `is_api_enabled` is the service's test.
  unfoldable pub add_service : (String → Bool) → Service W E K → Services W E K → Services W E K
  add_service is_api_enabled s d =
      let state = if is_api_enabled s.plugin_name then available else disabled in
      Dict.insert s.plugin_name (new_container s state) d

  unfoldable pub get_service : String → Services W E K → Option (Service W E K)
  get_service name d = elim (Dict.lookup name d) [ none ↦ none | some c ↦ some c.service ]

  unfoldable pub get_state : String → Services W E K → Option ServiceState
  get_state name d = elim (Dict.lookup name d) [ none ↦ none | some c ↦ some c.state ]

  unfoldable pub is_running : String → Services W E K → Bool
  is_running name d = is_state_running (get_state name d)

  abbrev stored :
      String → Services W E K → Bool × ServiceContainer W E K × W → Option Bool × Services W E K × W
  stored name d (b, c, w) = (some b, Dict.insert name c d, w)

  -- `check`: `None` where the service is neither running nor in error.
  unfoldable pub check : String → Services W E K → W → Option Bool × Services W E K × W
  check name d w = elim (Dict.lookup name d) [
    | none ↦ (none, d, w)
    | some c ↦ if can_check c.state then stored name d (check_container c w) else (none, d, w)
  ]

  abbrev any_or :
      Option Bool × Services W E K × W
      → (Services W E K → W → Bool × Services W E K × W)
      → Bool × Services W E K × W
  any_or (some true, d, w) rest = (true, d, w)
  any_or (_, d, w) rest = rest d w

  -- `check_all`: `any` stops at the first success.
  unfoldable pub check_names : List String → Services W E K → W → Bool × Services W E K × W
  check_names [] d w = (false, d, w)
  check_names (name ∷ names) d w = any_or (check name d w) (check_names names)

  unfoldable pub check_all : Services W E K → W → Bool × Services W E K × W
  check_all d w = check_names (Dict.keys d) d w

  -- The body of `_stop_services` for one container.
  unfoldable pub stop_one : String → Services W E K → W → Services W E K × W
  stop_one name d w = elim (Dict.lookup name d) [
    | none ↦ (d, w)
    | some c ↦
        if can_stop c.state
        then (Dict.insert name (stop_container c w).0 d, (stop_container c w).1)
        else (d, w)
  ]

  -- `_get_loaded_service_containers` and `_stop_services`
  unfoldable pub stop_names : List String → Services W E K → W → Services W E K × W
  stop_names [] d w = (d, w)
  stop_names (name ∷ names) d w = let (d', w') = stop_one name d w in stop_names names d' w'

  -- `stop_services`: no names stand for all that are available.
  unfoldable pub stop_services : List String → List String → Services W E K → W → Services W E K × W
  stop_services available_names [] d w = stop_names available_names d w
  stop_services available_names (name ∷ names) d w = stop_names (name ∷ names) d w
