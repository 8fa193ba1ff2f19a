-- ===== src/Services/Tests.antt =====
-- A service with a backend that comes up after some attempts, run. The world counts the calls of its
-- start and stop functions.
use localstack_bb.Base.{
  ℕ, ◌+◌, ◌≡◌, ◌≢◌, ◌⊎◌, refl, String, true, false, Option, none, some, [], ◌∷◌, arith, eq_iff, inl,
  inr, if◌then◌else◌, ◌==◌,
}
use localstack_bb.Base.Dict
use localstack_bb.Base.Dict.{Dict}
use localstack_bb.Base.Result.{Result, ok, err}
use localstack_bb.Base.Text.{contains, split_once}
use localstack_bb.Services.{
  Service, ServiceLifecycleHook, ServiceContainer, start_with, ServiceState, available, starting,
  running, stopped, start_service, stop_service, check_service, start_container, check_container,
  stop_container,
}
use localstack_bb.Services.Lifecycle.{HasCause}
use localstack_bb.Services.Require.{
  Interleaving, Shared, RequireError, no_cause, raised, require_container, require_stopped,
  start_at, require_locked, poll_condition, timeout, not_starting,
}
use localstack_bb.Services.Require.Poll.{at_test}
use localstack_bb.Services.Require.Outcomes.{Served, require_container-Served}
use localstack_bb.Services.Require.Causes.{require_container_cause}
use localstack_bb.Services.Require.Waits.{require_container_waits}
use localstack_bb.Services.Manager.{Services, add_service, check_service_health}
use localstack_bb.Services.Providers.{get_provider}
use localstack_bb.Services.PluginErrors.{has_errors, on_exception}
use localstack_bb.Services.Plugins.{
  Plux, ServicePluginManager, get_service_container, api_provider_specs, resolve_specs,
  available_in,
}

abbrev no_hook : ServiceLifecycleHook ℕ String
no_hook = record {
  on_after_init = λ w. (none, w);
  on_before_start = λ w. (none, w);
  on_before_stop = λ w. (none, w);
  on_exception = λ w. (none, w);
}

-- A service that starts, unless the world is at 9, and whose check fails where the world is at 5.
abbrev service : String → Service ℕ String ℕ
service name = record {
  plugin_name = name;
  start_function = start_with (λ _ _ w. (if w == 9 then some "no port" else none, w + 1));
  check_function = some (λ _ _ w. (if w == 5 then some "unhealthy" else none, w));
  stop_function = some (λ w. (none, w + 10));
  skeleton = none;
  default_active = false;
  lifecycle_hook = no_hook;
}

abbrev container : ServiceState → ServiceContainer ℕ String ℕ
container s = record { service = service "transfer"; state = s; errors = [] }

-- Other threads that do nothing, and such as bring a starting service up.
abbrev idle : Interleaving ℕ String ℕ
idle = record {
  while_starting = λ _ s. s;
  while_stopping = λ _ s. s;
  before_lock = λ s. s;
  under_lock = λ _ s. s;
}

abbrev brought_up : ServiceState → ServiceState
brought_up starting = running
brought_up s = s

abbrev busy : Interleaving ℕ String ℕ
busy = record idle { while_starting = λ _ s. (record s.0 { state = brought_up s.0.state }, s.1) }

-- Requiring a container unfolds all that a run takes.
require_it :
    Interleaving ℕ String ℕ → ServiceState → ℕ → Result (RequireError String) (Service ℕ String ℕ)
unfolding require_container require_stopped require_locked start_at poll_condition start_container
    start_service check_container check_service stop_container stop_service
require_it i s w = (require_container "transfer" i (container s, w)).0

required : require_it idle available 0 ≡ ok (service "transfer")
unfolding require_it
required = refl

not_healthy : require_it idle stopped 4 ≡ err (raised "unhealthy")
unfolding require_it
not_healthy = refl

-- Another thread that stops the container while its service starts.
abbrev meddling : Interleaving ℕ String ℕ
meddling = record idle { under_lock = λ _ s. (record s.0 { state = stopped }, s.1) }

require_container-Served_example :
    Served (require_container "transfer" meddling (container available, 9))
require_container-Served_example =
    require_container-Served "transfer" meddling (container available, 9)

container-HasCause : HasCause (container starting)
container-HasCause = record { cause = λ e. cc }

idle-HasCause : (t : Shared ℕ String ℕ) → HasCause t.0 → HasCause t.0
idle-HasCause t h = h

require_container_cause_example :
    (require_container "transfer" idle (container starting, 9)).0 ≢ err no_cause
require_container_cause_example =
    require_container_cause "transfer" idle (container starting, 9) (λ _. idle-HasCause)
      (λ _. idle-HasCause) idle-HasCause (λ _. idle-HasCause) (λ _ t h. h) container-HasCause

up_keeps :
    (t : Shared ℕ String ℕ)
    → (t.0.state ≡ starting) ⊎ (t.0.state ≡ running)
    → (brought_up t.0.state ≡ starting) ⊎ (brought_up t.0.state ≡ running)
up_keeps t (inl e) = inr (ground arith)
up_keeps t (inr e) = inr (ground arith)

require_container_waits_example : require_container "transfer" busy (container starting, 9) ≡ (
  ok
      (poll_condition
        (λ (t : Shared ℕ String ℕ). not_starting t.0.state)
        busy.while_starting
        timeout
        (container starting, 9)).1.0.service,
  (poll_condition
      (λ (t : Shared ℕ String ℕ). not_starting t.0.state)
      busy.while_starting
      timeout
      (container starting, 9)).1,
)
unfolding at_test
require_container_waits_example =
    require_container_waits "transfer" busy (container starting, 9) 1 refl (λ _. up_keeps)
      (λ t e. refl) (λ a t e. refl) (omega arith) refl

starts_well : (start_container (container stopped) 0).0 ≡ true
unfolding require_it
starts_well = refl

abbrev services : Services ℕ String ℕ
services =
    ("sqs", record { service = service "sqs"; state = running; errors = [] })
    ∷ ("transfer", container starting)
    ∷ ("sns", record { service = service "sns"; state = running; errors = [] })
    ∷ []

-- A service that is down does not fail its health check: `check` returns `None` for it.
no_raise : check_service_health none false ≡ false
no_raise = refl

abbrev plux : Plux ℕ String ℕ
plux = record {
  list_plugin_specs = "transfer:default" ∷ "sqs:default" ∷ [];
  load = λ full w. (none, ok (some (service (split_once full).0)), w + 100);
}

abbrev manager : ServicePluginManager ℕ String ℕ
manager = record {
  services = [];
  plugin_errors = [];
  api_provider_specs = none;
  provider_config = record { provider_config = []; default_value = "default" };
}

loaded_transfer :
    (get_service_container plux (λ _. true) "transfer" manager 0).0
    ≡ ok (some (record { service = service "transfer"; state = available; errors = [] }))
unfolding get_service_container api_provider_specs resolve_specs split_once available_in
    get_provider contains add_service on_exception Dict.lookup Dict.insert
loaded_transfer = refl

names_differ : ◌≢◌ {A = String} "sqs" "transfer"
names_differ = ground (arith, eq_iff "sqs" "transfer")

abbrev transfer_only : Plux ℕ String ℕ
transfer_only = record plux { load = λ full w. (none, ok (some (service "transfer")), w) }

transfer_only-named :
    (provider : String) (w : ℕ) (s : Service ℕ String ℕ)
    → ◌≡◌ {A = Result String (Option (Service ℕ String ℕ))}
        (ok (some (service "transfer")))
        (ok (some s))
    → s.plugin_name ≡ "transfer"
transfer_only-named provider w s h = ground arith

-- The errors are looked up by the first entry of the api only.
missed_error :
    has_errors {E = String} "sqs"
      (some "pro")
      ((("sqs", some "default"), "e1") ∷ (("sqs", some "pro"), "e2") ∷ [])
    ≡ some false
unfolding has_errors
missed_error = refl
