-- ===== src/Services/PluginErrors.antt =====
-- localstack-core/localstack/services/plugins.py `ServicePluginErrorCollector`.
use localstack_bb.Base.{
  String, Bool, true, false, Option, none, some, List, [], ◌∷◌, if◌then◌else◌, str_eq, ◌&&◌,
}

-- `ServicePluginErrorCollector`: the errors by api and provider, in the order of their keys.
abbrev pub Errors : Type 0 → Type 0
Errors E = List ((String × Option String) × E)

abbrev option_eq : Option String → Option String → Bool
option_eq none none = true
option_eq (some a) (some b) = str_eq a b
option_eq _ _ = false

-- The three listener methods: `self.errors[self.get_key(name)] = exception`.
unfoldable pub on_exception : {E : Type 0} → String × Option String → E → Errors E → Errors E
on_exception k e [] = (k, e) ∷ []
on_exception k e ((j, x) ∷ errors) =
    if str_eq j.0 k.0 && option_eq j.1 k.1
    then (j, e) ∷ errors
    else (j, x) ∷ on_exception k e errors

-- `has_errors` for a key that was unpacked; a key without a provider does not unpack.
abbrev has_errors_at : Bool → String → Option String → Option Bool → Option Bool
has_errors_at same_api e_provider none rest = if same_api then some true else rest
has_errors_at same_api e_provider (some provider) rest =
    if same_api
    then (if str_eq provider "" then some true else some (str_eq e_provider provider))
    else rest

unfoldable pub has_errors : {E : Type 0} → String → Option String → Errors E → Option Bool
has_errors api provider [] = some false
has_errors api provider (((e_api, none), _) ∷ errors) = none
has_errors api provider (((e_api, some e_provider), _) ∷ errors) =
    let rest = has_errors api provider errors in
    has_errors_at (str_eq api e_api) e_provider provider rest
