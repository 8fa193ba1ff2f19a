-- ===== src/Services/Plugins/Loading.antt =====
-- The lazy load of a service, and the services that are loaded already.
use localstack_bb.Base.{
  String, ◌≡◌, ◌≢◌, subst, sym, ◌⊎◌, Bool, Option, none, some, List, [], ◌∙◌, ap, if◌then◌else◌,
  arith, refl, eq_iff, inl, inr, Option-cases, Bool-cases,
}
use localstack_bb.Base.Dict
use localstack_bb.Base.Dict.{Dict, lookup-insert}
use localstack_bb.Base.Result.{Result, ok, err}
use localstack_bb.Base.Text.{contains}
use localstack_bb.Services.{Service, ServiceContainer, available, disabled}
use localstack_bb.Services.Manager.{add_service, new_container}
use localstack_bb.Services.Plugins.{
  Plux, PluginError, value_error, ServicePluginManager, get_service_container, api_provider_specs,
  with_specs, container_of_specs, load_plugin, loaded, available_in, plugin_name, chosen_provider,
  resolve_specs,
}

module _ {W E K : Type 0} (x : Plux W E K) (is_api_enabled : String → Bool) (name : String) where
  abbrev Loaded : Type 0
  Loaded = Result (PluginError E) (Option (ServiceContainer W E K)) × ServicePluginManager W E K × W

  module _ (Q : Loaded → Type 0) (m : ServicePluginManager W E K) (w : W) where
    -- The outcomes of a call for a service that is not loaded; the specs are resolved by then.
    record Outcomes : Type 0 where
      missing : (m' : ServicePluginManager W E K) → m'.services ≡ m.services → Q (ok none, m', w)
      misnamed : Q (err value_error, m, w)
      load :
          (m' : ServicePluginManager W E K) (provider : String)
          → m'.services ≡ m.services
          → Q (
              loaded x is_api_enabled name
                (plugin_name name provider)
                m'
                (x.load (plugin_name name provider) w))

    load_plugin_by :
        (provider : Option String) (m' : ServicePluginManager W E K)
        → m'.services ≡ m.services
        → Outcomes
        → Q (load_plugin x is_api_enabled name provider m' w)
    load_plugin_by none m' s o = o.missing m' s
    load_plugin_by (some provider) m' s o = o.load m' provider s

    container_of_specs_by :
        (specs : Dict (List String)) (m' : ServicePluginManager W E K)
        → m'.services ≡ m.services
        → Outcomes
        → Q (container_of_specs x is_api_enabled name specs m' w)
    container_of_specs_by specs m' s o =
        elim (Bool-cases (contains name (available_in m'.provider_config specs))) [
          | inl e ↦
              rw (e, container_of_specs)
                (load_plugin_by (chosen_provider m'.provider_config name (Dict.lookup name specs))
                  m' s o)
          | inr e ↦ rw (e, container_of_specs) (o.missing m' s)
        ]

    with_specs_from :
        (r : Option (Dict (List String)) × ServicePluginManager W E K)
        → (r ≡ (none, m))
          ⊎ ((specs : Dict (List String)) × ((r.0 ≡ some specs) × (r.1.services ≡ m.services)))
        → Outcomes
        → Q (with_specs x is_api_enabled name r w)
    with_specs_from r (inl e) o =
        subst (λ q. Q (with_specs x is_api_enabled name q w)) (sym e) o.misnamed
    with_specs_from (none, m') (inr (specs, (e, s))) o = cc
    with_specs_from (some specs', m') (inr (specs, (e, s))) o = container_of_specs_by specs' m' s o

    specs_cases :
        (api_provider_specs x is_api_enabled m ≡ (none, m))
        ⊎ ((specs : Dict (List String)) × (((api_provider_specs x is_api_enabled m).0 ≡ some specs)
              × ((api_provider_specs x is_api_enabled m).1.services ≡ m.services)))
    unfolding api_provider_specs
    specs_cases = elim (Option-cases m.api_provider_specs) [
      | inl e ↦ elim (Option-cases (resolve_specs x.list_plugin_specs [])) [
        | inl e' ↦ inl (ground arith)
        | inr (specs, e') ↦ inr (specs, (ground arith, ground arith))
      ]
      | inr (specs, e) ↦ inr (specs, (ground arith, ground arith))
    ]

    with_specs_by :
        Outcomes → Q (with_specs x is_api_enabled name (api_provider_specs x is_api_enabled m) w)
    with_specs_by o = with_specs_from (api_provider_specs x is_api_enabled m) specs_cases o

    get_service_container_by :
        ((c : ServiceContainer W E K)
          → Dict.lookup name m.services ≡ some c
          → Q (ok (some c), m, w))
        → Outcomes
        → Q (get_service_container x is_api_enabled name m w)
    unfolding get_service_container
    get_service_container_by found o = elim (Option-cases (Dict.lookup name m.services)) [
      | inl e ↦ rw (e, get_service_container) (with_specs_by o)
      | inr (c, e) ↦ rw (e, get_service_container) (found c e)
    ]

  -- A container that a call returns is the one that is kept for the name.
  abbrev Kept : Loaded → Type 0
  Kept r = (c : ServiceContainer W E K) → r.0 ≡ ok (some c) → Dict.lookup name r.1.services ≡ some c

  loaded-Kept :
      (full : String) (m : ServicePluginManager W E K)
      (r : Option E × Result E (Option (Service W E K)) × W)
      → Kept (loaded x is_api_enabled name full m r)
  loaded-Kept full m (told, err e, w) c h = cc
  loaded-Kept full m (told, ok none, w) c h = cc
  loaded-Kept full m (told, ok (some s), w) c h = cc

  get_service_container-Kept :
      (m : ServicePluginManager W E K) (w : W)
      → Kept (get_service_container x is_api_enabled name m w)
  get_service_container-Kept m w =
      get_service_container_by Kept m w (λ c e c' h. cc)
        (record {
          missing = λ m' s c h. cc;
          misnamed = λ c h. cc;
          load = λ m' provider s.
              loaded-Kept (plugin_name name provider) m' (x.load (plugin_name name provider) w);
        })

  -- A service container that was returned once is returned again, without a second load and without
  -- any other change.
  pub get_service_container_again :
      (c : ServiceContainer W E K) (m : ServicePluginManager W E K) (w : W)
      → (get_service_container x is_api_enabled name m w).0 ≡ ok (some c)
      → get_service_container x is_api_enabled name
          (get_service_container x is_api_enabled name m w).1
          (get_service_container x is_api_enabled name m w).2
        ≡ (
          ok (some c),
          (get_service_container x is_api_enabled name m w).1,
          (get_service_container x is_api_enabled name m w).2,
        )
  unfolding get_service_container
  get_service_container_again c m w h =
      rw (get_service_container-Kept m w c h, get_service_container) refl

  -- Every load of the name gives a service of that name.
  abbrev WellNamed : Type 0
  WellNamed =
      (provider : String) (w : W) (s : Service W E K)
      → (x.load (plugin_name name provider) w).1 ≡ ok (some s)
      → s.plugin_name ≡ name

  loaded_keeps :
      (full : String) (m : ServicePluginManager W E K)
      (r : Option E × Result E (Option (Service W E K)) × W) (j : String)
      → ((s : Service W E K) → r.1 ≡ ok (some s) → s.plugin_name ≡ name)
      → j ≢ name
      → Dict.lookup j (loaded x is_api_enabled name full m r).1.services ≡ Dict.lookup j m.services
  unfolding add_service
  loaded_keeps full m (told, err e, w) j named n = refl
  loaded_keeps full m (told, ok none, w) j named n = refl
  loaded_keeps full m (told, ok (some s), w) j named n = ground (
    arith,
    named s refl,
    lookup-insert s.plugin_name j
        (new_container s (if is_api_enabled s.plugin_name then available else disabled)) m.services,
    eq_iff s.plugin_name j,
  )

  -- A call for one service leaves every other as it was, if every service that is loaded for the
  -- name bears it.
  pub get_service_container_keeps :
      (j : String) (m : ServicePluginManager W E K) (w : W)
      → WellNamed
      → j ≢ name
      → Dict.lookup j (get_service_container x is_api_enabled name m w).1.services
        ≡ Dict.lookup j m.services
  get_service_container_keeps j m w named n =
      get_service_container_by (λ r. Dict.lookup j r.1.services ≡ Dict.lookup j m.services) m w
        (λ c e. refl)
        (record {
          missing = λ m' s. rw s refl;
          misnamed = refl;
          load = λ m' provider s.
              loaded_keeps (plugin_name name provider) m' (x.load (plugin_name name provider) w) j
                (named provider w) n
              ∙ ap (Dict.lookup j) s;
        })
