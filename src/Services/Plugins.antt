-- ===== src/Services/Plugins.antt =====
-- localstack-core/localstack/services/plugins.py `ServicePluginManager`.
-- The plugin manager of the package plux is the parameter `Plux`: the names of the plugin specs, and
-- a load, which returns the plugin's service or raises and then has told the listener.
pub mod Loading
use Prim.Native.String
use localstack_bb.Base.{
  ℕ, String, Bool, true, false, Option, none, some, List, [], ◌∷◌, ◌++◌, if◌then◌else◌, ◌==◌,
  str_eq, ◌&&◌,
}
use localstack_bb.Base.Dict
use localstack_bb.Base.Dict.{Dict}
use localstack_bb.Base.Text.{contains, split_once}
use localstack_bb.Base.Result.{Result, ok, err}
use localstack_bb.Services.{
  Service, ServiceContainer, ServiceState, available, disabled, error, running,
}
use localstack_bb.Services.Providers.{ServiceProviderConfig, get_provider}
use localstack_bb.Services.PluginErrors.{Errors, on_exception, has_errors}
use localstack_bb.Services.Manager.{Services, add_service}

-- A load tells the listener of an exception, or does not, and returns the plugin's service, if it
-- has one, or raises.
pub record Plux (W E K : Type 0) : Type 0 where
  pub list_plugin_specs : List String
  pub load : String → W → Option E × Result E (Option (Service W E K)) × W

pub data PluginError (E : Type 0) : Type 0 where
  value_error : PluginError E
  load_error : E → PluginError E

pub record ServicePluginManager (W E K : Type 0) : Type 0 where
  pub services : Services W E K
  pub plugin_errors : Errors E
  pub api_provider_specs : Option (Dict (List String))
  pub provider_config : ServiceProviderConfig

-- `result[api].append(provider)` on a `defaultdict(list)`
abbrev append_at : String → String → Dict (List String) → Dict (List String)
append_at api provider d = elim (Dict.lookup api d) [
  | none ↦ Dict.insert api (provider ∷ []) d
  | some providers ↦ Dict.insert api (providers ++ provider ∷ []) d
]

-- One spec: `api, provider = spec.name.split(":")` takes exactly one colon.
abbrev resolve_spec : String → Dict (List String) → Option (Dict (List String))
resolve_spec name d =
    let (api, rest) = split_once name in
    elim rest [
      | none ↦ none
      | some provider ↦ elim (split_once provider).1 [
        | none ↦ some (append_at api provider d)
        | some _ ↦ none
      ]
    ]

-- `_resolve_api_provider_specs`
unfoldable pub resolve_specs : List String → Dict (List String) → Option (Dict (List String))
resolve_specs [] d = some d
resolve_specs (name ∷ names) d = elim (resolve_spec name d) [
  | none ↦ none
  | some d' ↦ resolve_specs names d'
]

-- `list_available` on the specs
unfoldable pub available_in : ServiceProviderConfig → Dict (List String) → List String
available_in c [] = []
available_in c ((service, providers) ∷ specs) =
    let rest = available_in c specs in
    if contains (get_provider c service) providers then service ∷ rest else rest

-- `apis_with_provider` on the specs
unfoldable pub apis_with_provider : String → Dict (List String) → List String
apis_with_provider provider [] = []
apis_with_provider provider ((api, providers) ∷ specs) =
    let rest = apis_with_provider provider specs in
    if contains provider providers then api ∷ rest else rest

-- The provider that `_load_service_plugin` takes, `None` where the api has none.
abbrev chosen : ServiceProviderConfig → String → List String → Option String
chosen c name [] = none
chosen c name (p ∷ ps) =
    if contains (get_provider c name) (p ∷ ps)
    then some (get_provider c name)
    else some c.default_value

abbrev chosen_provider : ServiceProviderConfig → String → Option (List String) → Option String
chosen_provider c name none = none
chosen_provider c name (some providers) = chosen c name providers

abbrev plugin_name : String → String → String
plugin_name name provider = String.◌++◌ name (String.◌++◌ ":" provider)

module _ {W E K : Type 0} (x : Plux W E K) (is_api_enabled : String → Bool) where
  -- What a load leaves in the error collector.
  abbrev noted : String → Option E → Errors E → Errors E
  noted name none errors = errors
  noted name (some e) errors = on_exception (split_once name) e errors

  -- What `get_service_container` does with the outcome of a load.
  abbrev loaded :
      String
      → String
      → ServicePluginManager W E K
      → Option E × Result E (Option (Service W E K)) × W
      → Result (PluginError E) (Option (ServiceContainer W E K)) × ServicePluginManager W E K × W
  loaded name full m (told, err e, w) =
      (err (load_error e), record m { plugin_errors = noted full told m.plugin_errors }, w)
  loaded name full m (told, ok none, w) =
      (ok none, record m { plugin_errors = noted full told m.plugin_errors }, w)
  loaded name full m (told, ok (some s), w) =
      let services = add_service is_api_enabled s m.services in
      (
        ok (Dict.lookup name services),
        record m { services = services; plugin_errors = noted full told m.plugin_errors },
        w,
      )

  abbrev load_plugin :
      String
      → Option String
      → ServicePluginManager W E K
      → W
      → Result (PluginError E) (Option (ServiceContainer W E K)) × ServicePluginManager W E K × W
  load_plugin name none m w = (ok none, m, w)
  load_plugin name (some provider) m w =
      loaded name (plugin_name name provider) m (x.load (plugin_name name provider) w)

  -- `get_service_container` past the first look, on the resolved specs.
  abbrev container_of_specs :
      String
      → Dict (List String)
      → ServicePluginManager W E K
      → W
      → Result (PluginError E) (Option (ServiceContainer W E K)) × ServicePluginManager W E K × W
  container_of_specs name specs m w =
      if contains name (available_in m.provider_config specs)
      then load_plugin name (chosen_provider m.provider_config name (Dict.lookup name specs)) m w
      else (ok none, m, w)

  -- The property `api_provider_specs`, which keeps what it resolved.
  unfoldable pub api_provider_specs :
      ServicePluginManager W E K → Option (Dict (List String)) × ServicePluginManager W E K
  api_provider_specs m = elim m.api_provider_specs [
    | some specs ↦ (some specs, m)
    | none ↦ elim (resolve_specs x.list_plugin_specs []) [
      | none ↦ (none, m)
      | some specs ↦ (some specs, record m { api_provider_specs = some specs })
    ]
  ]

  abbrev with_specs :
      String
      → Option (Dict (List String)) × ServicePluginManager W E K
      → W
      → Result (PluginError E) (Option (ServiceContainer W E K)) × ServicePluginManager W E K × W
  with_specs name (none, m) w = (err value_error, m, w)
  with_specs name (some specs, m) w = container_of_specs name specs m w

  -- `get_service_container`
  unfoldable pub get_service_container :
      String
      → ServicePluginManager W E K
      → W
      → Result (PluginError E) (Option (ServiceContainer W E K)) × ServicePluginManager W E K × W
  get_service_container name m w = elim (Dict.lookup name m.services) [
    | some c ↦ (ok (some c), m, w)
    | none ↦ with_specs name (api_provider_specs m) w
  ]

  abbrev state_by_errors : String → Option Bool → Option (Option ServiceState)
  state_by_errors name none = none
  state_by_errors name (some true) = some (some error)
  state_by_errors name (some false) =
      some (some (if is_api_enabled name then available else disabled))

  abbrev state_of_specs :
      String
      → Option (Dict (List String))
      → ServicePluginManager W E K
      → Option (Option ServiceState)
  state_of_specs name none m = none
  state_of_specs name (some specs) m =
      if contains name (available_in m.provider_config specs)
      then state_by_errors name
          (has_errors name (some (get_provider m.provider_config name)) m.plugin_errors)
      else some none

  -- `get_state`, and the manager with the specs resolved; `none` for a `ValueError`.
  unfoldable pub plugin_state :
      String
      → ServicePluginManager W E K
      → Option (Option ServiceState) × ServicePluginManager W E K
  plugin_state name m = elim (Dict.lookup name m.services) [
    | some c ↦ (some (some c.state), m)
    | none ↦ let (specs, m') = api_provider_specs m in (state_of_specs name specs m', m')
  ]
