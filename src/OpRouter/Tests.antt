-- ===== src/OpRouter/Tests.antt =====
-- Runs of the operation router, and its theorems at concrete inputs.
use localstack_bb.Base.{
  ℕ, String, ◌≡◌, refl, Bool, true, false, ◌&&◌, Option, none, some, List, [], ◌∷◌, ◌++◌, str_eq,
  if◌then◌else◌, map,
}
use localstack_bb.Base.Result.{ok}
use localstack_bb.Base.Dict.{Dict, lookup, has}
use localstack_bb.Base.Text.{contains, split, split_first, has_char}
use localstack_bb.Init.{ends_with}
use localstack_bb.OpRouter.{
  OperationModel, HttpOperation, RequiredArgsRule, Request, not_empty, filtered, add_required,
  uri_of, query_of, from_operation, required_args_rule, take_values, match_values, match_query,
  match_headers, matches, insert_rule, sorted, match_request,
}
use localstack_bb.OpRouter.Names.{
  strip_right, translate, starts_substituted, replace_behind, post_process_arg_name,
  transform_path_params_to_rule_vars, until_brace, param, sub_from, rule_string,
}
use localstack_bb.OpRouter.Matching.{names_given, matches_forgets}
use localstack_bb.OpRouter.Best.{endpoint_of, best, match_request-best}
use localstack_bb.OpRouter.ServiceMap.{
  add_operation, group_from, path_index, rule_of, entry_of, create_service_map, MapMatch, found,
  not_found, post_process, endpoint_and_args, match_rule, match_at, match_found, match_operation,
  operations_at, operations_with, path_index-operations_with,
}

abbrev operation : String → String → String → OperationModel
operation name method uri = record {
  name = name;
  auth_path = none;
  request_uri = uri;
  method = method;
  deprecated = false;
  required_members = [];
}

-- Keys of an API are created or imported by the same path and method.
abbrev models : List OperationModel
models =
    operation "CreateApiKey" "POST" "/apikeys"
    ∷ operation "ImportApiKeys" "POST" "/apikeys?mode=import"
    ∷ operation "GetApiKey" "GET" "/apikeys/{api-key}"
    ∷ []

abbrev parse_qs : String → Dict (List String)
parse_qs query = if str_eq query "mode=import" then ("mode", "import" ∷ []) ∷ [] else []

abbrev operations : List HttpOperation
operations = map (from_operation parse_qs) models

abbrev rules : List RequiredArgsRule
rules = map required_args_rule (operations_with "/apikeys" "POST" operations)

abbrev with_mode : String → Request
with_mode mode = record {
  method = "POST";
  raw_path = "/apikeys/";
  args = ("mode", mode ∷ []) ∷ [];
  has_header = λ _. false;
}

abbrev import_rule : RequiredArgsRule
import_rule =
    required_args_rule
      (from_operation parse_qs (operation "ImportApiKeys" "POST" "/apikeys?mode=import"))

-- The first rule of the map, where the path is that of the keys.
abbrev bind_match : List (String × String) → String → String → MapMatch
bind_match strings path method = if str_eq path "/apikeys" then found 0 [] else not_found

variables :
    (rule_string "/apikeys/{api-key}/x{tail+}" ≡ "/apikeys/<api_0_key>/x<path:tail>")
    × (rule_string "/a{}b" ≡ "/a{}b")
    × (post_process_arg_name "api_0_key" ≡ "api-key")
unfolding rule_string sub_from param until_brace transform_path_params_to_rule_vars translate
    ends_with strip_right post_process_arg_name replace_behind starts_substituted
    localstack_bb.Base.Text.strip_left
variables = (refl, refl, refl)

-- Other keys are created by a request for another mode: but only before the first request that
-- looks at the mode.
mode_forgotten :
    let first =
      match_operation
        (λ s. s)
        bind_match
        (create_service_map parse_qs models)
        (with_mode "other") in
    (first.0 ≡ ok ("CreateApiKey", []))
    × ((match_operation (λ s. s) bind_match first.1 (with_mode "other")).0
        ≡ ok ("ImportApiKeys", []))
unfolding match_operation match_found match_at match_rule endpoint_and_args post_process
    create_service_map entry_of rule_of path_index group_from add_operation rule_string sub_from
    from_operation uri_of query_of filtered not_empty add_required split split_first
    required_args_rule sorted insert_rule match_request matches match_query match_values take_values
    match_headers strip_right contains has lookup
mode_forgotten = (refl, refl)

match_request-best_example :
    endpoint_of (match_request (sorted rules) (with_mode "import")).0
    ≡ endpoint_of (best (with_mode "import") rules)
match_request-best_example = match_request-best (with_mode "import") rules

imported : (matches import_rule (with_mode "import")).0 ≡ true
unfolding matches match_query match_values take_values match_headers required_args_rule
    from_operation uri_of query_of filtered not_empty add_required split split_first contains has
    lookup
imported = refl

matches_forgets_example :
    (matches (matches import_rule (with_mode "import")).1 (with_mode "other")).0 ≡ (
      names_given import_rule.required_query_args (with_mode "other").args
      && match_headers import_rule.required_header_args (with_mode "other").has_header)
matches_forgets_example =
    matches_forgets import_rule (with_mode "import") (with_mode "other") imported

path_index-operations_with_example :
    operations_at "/apikeys" "POST" (path_index operations)
    ≡ operations_with "/apikeys" "POST" operations
path_index-operations_with_example = path_index-operations_with "/apikeys" "POST" operations
