-- ===== src/Cors.antt =====
-- localstack-core/localstack/aws/handlers/cors.py: which requests the enforcer lets through. The
-- configuration, the allowed origins, domains and ports and the origin of a referer, which
-- `urllib.parse` takes apart, are parameters.
pub mod Decisions
pub mod Matches
mod Tests
use Prim.Native.Char.{code}
use Prim.Native.String
use text.Mathlib.Text.{starts_with}
use localstack_bb.Base.{
  ℕ, zero, suc, ◌+◌, ◌-◌, ◌*◌, String, Bool, true, false, ◌&&◌, ◌||◌, not, Option, none, some, List,
  [], ◌∷◌, if◌then◌else◌, str_eq, ltb, leb, ◌==◌, any,
}
use localstack_bb.Base.Text.{contains}

pub record Config : Type 0 where
  pub disable_custom_cors_s3 : Bool
  pub disable_custom_cors_apigateway : Bool
  pub disable_cors_checks : Bool
  pub disable_preflight_processing : Bool
  pub allowed_cors_origins : List String
  pub allowed_internal_domains : List String
  pub allowed_internal_ports : List ℕ
  pub referer_origin : String → String

-- What the handler reads of a request; `service_name` is absent before the service is known.
pub record Request : Type 0 where
  pub service_name : Option String
  pub host : String
  pub path : String
  pub method : String
  pub origin : Option String
  pub referer : Option String

-- `sub in s`
unfoldable pub has_infix : String → String → Bool
has_infix sub String.[] = str_eq sub ""
has_infix sub (String.◌∷◌ c s) = starts_with (String.◌∷◌ c s) sub || has_infix sub s

abbrev pub is_service : String → Option String → Bool
is_service name none = false
is_service name (some s) = str_eq s name

-- `is_execute_api_call`
unfoldable pub is_execute_api_call : Request → Bool
is_execute_api_call r =
    has_infix ".execute-api." r.host
    || ((starts_with r.path "/restapis/" && has_infix "/_user_request_" r.path)
        || starts_with r.path "/_aws/execute-api")

-- `should_enforce_self_managed_service`
unfoldable pub should_enforce : Config → Request → Bool
should_enforce c r =
    if not c.disable_custom_cors_s3 && is_service "s3" r.service_name
    then false
    else not (not c.disable_custom_cors_apigateway && is_execute_api_call r)

-- The second group of a dynamic origin, `[^:]*` from its second character on, and what follows it.
unfoldable pub until_colon : String → String × String
until_colon String.[] = ("", "")
until_colon (String.◌∷◌ c s) =
    let (domain, rest) = until_colon s in
    if code c == 58 then ("", String.◌∷◌ c s) else (String.◌∷◌ c domain, rest)

-- The value of up to `n` digits, after `count` digits of value `v`, and how many digits there are.
unfoldable pub read_digits : ℕ → ℕ → ℕ → String → ℕ × ℕ
read_digits zero count v s = (count, v)
read_digits (suc n) count v String.[] = (count, v)
read_digits (suc n) count v (String.◌∷◌ c s) =
    let rest = read_digits n (count + 1) (v * 10 + (code c - 48)) s in
    if leb 48 (code c) && leb (code c) 57 then rest else (count, v)

-- The third group, `(:[0-9]{2,5})?`: the port, if there is one.
abbrev pub port_of : String → Option ℕ
port_of String.[] = none
port_of (String.◌∷◌ c s) =
    let (count, v) = read_digits 5 0 0 s in if code c == 58 && leb 2 count then some v else none

-- The second and third group behind the infix; the first character may not be a line feed.
abbrev pub after_infix : String → Option (String × Option ℕ)
after_infix String.[] = none
after_infix (String.◌∷◌ c s) =
    let (domain, rest) = until_colon s in
    if code c == 10 then none else some (String.◌∷◌ c domain, port_of rest)

abbrev pub drop_infix : String → String → Option String
drop_infix String.[] s = some s
drop_infix (String.◌∷◌ c i) String.[] = none
drop_infix (String.◌∷◌ c i) (String.◌∷◌ d s) = if code c == code d then drop_infix i s else none

abbrev pub infix_here : String → String → Option (String × Option ℕ)
infix_here infix_text s = elim (drop_infix infix_text s) [
  | none ↦ none
  | some rest ↦ after_infix rest
]

-- `re.match("(.*)\\.s3-website\\.(.[^:]*)(:[0-9]{2,5})?", origin)`, with the text between the first
-- two groups: the first group is as long as can be, in the first line, and the end is not anchored.
unfoldable pub match_dynamic : String → String → Option (String × Option ℕ)
match_dynamic infix_text String.[] = none
match_dynamic infix_text (String.◌∷◌ c s) =
    let later = match_dynamic infix_text s in
    elim (if code c == 10 then none else later) [
      | some m ↦ some m
      | none ↦ infix_here infix_text (String.◌∷◌ c s)
    ]

abbrev pub contains_port : ℕ → List ℕ → Bool
contains_port p ports = any (λ q. q == p) ports

-- Whether a match is of an internal domain, with no port or an internal one.
abbrev pub is_internal : Config → Option (String × Option ℕ) → Bool
is_internal c none = false
is_internal c (some (domain, none)) = contains domain c.allowed_internal_domains
is_internal c (some (domain, some port)) =
    contains domain c.allowed_internal_domains && contains_port port c.allowed_internal_ports

-- `_is_in_allowed_origins`
unfoldable pub is_in_allowed_origins : Config → String → Bool
is_in_allowed_origins c origin =
    any (λ allowed. str_eq allowed "*" || str_eq origin allowed) c.allowed_cors_origins
    || (is_internal c (match_dynamic ".s3-website." origin)
        || is_internal c (match_dynamic ".cloudfront." origin))

abbrev pub nonempty : Option String → Option String
nonempty none = none
nonempty (some s) = if str_eq s "" then none else some s

abbrev pub allowed_by : Config → Option String → Option String → Bool
allowed_by c (some origin) referer = is_in_allowed_origins c origin
allowed_by c none (some referer) = is_in_allowed_origins c (c.referer_origin referer)
allowed_by c none none = true

-- `is_cors_origin_allowed`: an empty header counts as none.
unfoldable pub is_cors_origin_allowed : Config → Request → Bool
is_cors_origin_allowed c r = allowed_by c (nonempty r.origin) (nonempty r.referer)

-- The next handler is called, the chain is terminated, or it is stopped for the response handlers.
pub data Outcome : Type 0 where
  passed : Outcome
  terminated : ℕ → Outcome
  stopped : ℕ → Outcome

-- `CorsEnforcer.__call__`
unfoldable pub enforce : Config → Request → Outcome
enforce c r =
    if not (should_enforce c r)
    then passed
    else (if not c.disable_cors_checks && not (is_cors_origin_allowed c r)
        then terminated 403
        else (if str_eq r.method "OPTIONS" && not c.disable_preflight_processing
            then stopped 204
            else passed))
