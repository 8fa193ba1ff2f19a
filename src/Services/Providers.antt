-- ===== src/Services/Providers.antt =====
-- localstack-core/localstack/config.py `ServiceProviderConfig`: the provider of a service.
use localstack_bb.Base.{String, Option, none, some, List, [], ◌∷◌, if◌then◌else◌}
use localstack_bb.Base.Dict
use localstack_bb.Base.Dict.{Dict}

-- `ServiceProviderConfig`
pub record ServiceProviderConfig : Type 0 where
  pub provider_config : Dict String
  pub default_value : String

abbrev pub or_default : Option String → String → String
or_default none d = d
or_default (some s) d = s

unfoldable pub get_provider : ServiceProviderConfig → String → String
get_provider c service = or_default (Dict.lookup service c.provider_config) c.default_value

unfoldable pub set_provider : String → String → ServiceProviderConfig → ServiceProviderConfig
set_provider service provider c = record c {
  provider_config = Dict.insert service provider c.provider_config;
}

unfoldable pub set_provider_if_not_exists :
    String → String → ServiceProviderConfig → ServiceProviderConfig
set_provider_if_not_exists service provider c =
    if Dict.has service c.provider_config then c else set_provider service provider c

unfoldable pub bulk_set_provider_if_not_exists :
    List String → String → ServiceProviderConfig → ServiceProviderConfig
bulk_set_provider_if_not_exists [] provider c = c
bulk_set_provider_if_not_exists (service ∷ services) provider c =
    bulk_set_provider_if_not_exists services provider
      (set_provider_if_not_exists service provider c)
