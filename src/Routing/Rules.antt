-- ===== src/Routing/Rules.antt =====
-- The rules for signing names, hosts and paths and the resolution of conflicts, of
-- localstack-core/localstack/aws/protocol/service_router.py.
use localstack_bb.Base.{
  String, Bool, ◌&&◌, Option, none, some, List, [], ◌∷◌, str_eq, if◌then◌else◌, all, map,
}
use localstack_bb.Base.Dict.{Dict, lookup}
use localstack_bb.Base.Text.{contains}
use localstack_bb.Cors.{has_infix}
use localstack_bb.Routing.{ServiceModelIdentifier, Request, named}
use localstack_bb.Routing.Protocols.{match_available_protocols}
use text.Mathlib.Text.{starts_with}

-- The service names by path prefix, for each signing name.
abbrev pub signing_name_path_prefix_rules : Dict (Dict String)
signing_name_path_prefix_rules =
    ("apigateway", ("/v2", "apigatewayv2") ∷ [])
    ∷ ("appconfig", ("/configuration", "appconfigdata") ∷ [])
    ∷ (
      "bedrock",
      ("/guardrail/", "bedrock-runtime")
          ∷ ("/model/", "bedrock-runtime")
          ∷ ("/async-invoke", "bedrock-runtime")
          ∷ [],
    )
    ∷ (
      "execute-api",
      ("/@connections", "apigatewaymanagementapi")
          ∷ ("/participant", "connectparticipant")
          ∷ ("*", "iot")
          ∷ [],
    )
    ∷ ("ses", ("/v2", "sesv2") ∷ ("/v1", "pinpoint-email") ∷ [])
    ∷ ("greengrass", ("/greengrass/v2/", "greengrassv2") ∷ [])
    ∷ ("cloudsearch", ("/2013-01-01", "cloudsearchdomain") ∷ [])
    ∷ ("s3", ("/v20180820", "s3control") ∷ [])
    ∷ ("iot1click", ("/projects", "iot1click-projects") ∷ ("/devices", "iot1click-devices") ∷ [])
    ∷ ("es", ("/2015-01-01", "es") ∷ ("/2021-01-01", "opensearch") ∷ [])
    ∷ (
      "sagemaker",
      ("/endpoints", "sagemaker-runtime") ∷ ("/human-loops", "sagemaker-a2i-runtime") ∷ [],
    )
    ∷ []

unfoldable pub by_prefix : String → Dict String → Option String
by_prefix path [] = none
by_prefix path ((prefix, name) ∷ rules) =
    let rest = by_prefix path rules in if starts_with path prefix then some name else rest

abbrev pub or_name : Option String → String → String
or_name none name = name
or_name (some other) name = other

unfoldable pub custom_signing_name_rules : String → String → Option ServiceModelIdentifier
custom_signing_name_rules signing_name path =
    elim (lookup signing_name signing_name_path_prefix_rules) [
      | none ↦
          if str_eq signing_name "servicecatalog"
          then some
              (named (if str_eq path "/" then "servicecatalog" else "servicecatalog-appregistry"))
          else none
      | some rules ↦ elim (by_prefix path rules) [
        | some name ↦ some (named name)
        | none ↦ some (named (or_name (lookup "*" rules) signing_name))
      ]
    ]

unfoldable pub custom_host_addressing_rules : String → Option ServiceModelIdentifier
custom_host_addressing_rules host =
    if has_infix ".lambda-url." host
    then some (named "lambda")
    else if has_infix ".s3-website." host
    then some (named "s3")
    else none

unfoldable pub custom_path_addressing_rules : String → Option ServiceModelIdentifier
custom_path_addressing_rules path =
    if starts_with path "/2015-03-31/functions" then some (named "lambda") else none

-- Equality of the set of the candidates' names with a set of names.
unfoldable pub same_names : List ServiceModelIdentifier → List String → Bool
same_names candidates names =
    all (λ c. contains c.name names) candidates
    && all (λ n. contains n (map (λ c. c.name) candidates)) names

unfoldable pub resolve_conflicts :
    List ServiceModelIdentifier → Request → Option ServiceModelIdentifier
resolve_conflicts candidates r =
    if same_names candidates ("timestream-query" ∷ "timestream-write" ∷ [])
    then some (named "timestream-query")
    else if same_names candidates ("docdb" ∷ "neptune" ∷ "rds" ∷ [])
    then some (named "rds")
    else if same_names candidates ("sqs" ∷ [])
    then some (elim (match_available_protocols r ("json" ∷ "query" ∷ [])) [
      | none ↦ record { name = "sqs"; protocol = some "query"; protocols = none }
      | some p ↦
          if str_eq p "json"
          then named "sqs"
          else record { name = "sqs"; protocol = some "query"; protocols = none }
    ])
    else none
