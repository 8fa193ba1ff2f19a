-- ===== src/Arns/Builders.antt =====
-- localstack-core/localstack/utils/aws/arns.py: the builders of single resource types.
use mathlib.Core.Option
use Prim.Native.Char.{code}
use text.Mathlib.Text.{starts_with}
use localstack_bb.Base.{Option, some, String, Bool, false, ◌||◌, if◌then◌else◌, str_eq, ◌==◌, any}
use localstack_bb.Base.Text.{no_colon}
use localstack_bb.Arns.{
  ◌⊕◌, regional, global, resource_arn, format_arn, get_partition, partition_names,
}

abbrev pub cloudwatch_dashboard_arn : (name account_id region_name : String) → Option String
cloudwatch_dashboard_arn name account_id region_name =
    resource_arn false (global "cloudwatch" "dashboard/" "") name account_id region_name

abbrev pub log_group_arn : (name account_id region_name : String) → Option String
log_group_arn name account_id region_name =
    resource_arn false (regional "logs" "log-group:" "") name account_id region_name

abbrev pub events_archive_arn : (name account_id region_name : String) → Option String
events_archive_arn name account_id region_name =
    resource_arn false (regional "events" "archive/" "") name account_id region_name

abbrev pub event_bus_arn : (name account_id region_name : String) → Option String
event_bus_arn name account_id region_name =
    resource_arn false (regional "events" "event-bus/" "") name account_id region_name

abbrev pub events_replay_arn : (name account_id region_name : String) → Option String
events_replay_arn name account_id region_name =
    resource_arn false (regional "events" "replay/" "") name account_id region_name

abbrev pub lambda_code_signing_arn : (name account_id region_name : String) → Option String
lambda_code_signing_arn name account_id region_name =
    resource_arn false (regional "lambda" "code-signing-config:" "") name account_id region_name

abbrev pub lambda_event_source_mapping_arn : (name account_id region_name : String) → Option String
lambda_event_source_mapping_arn name account_id region_name =
    resource_arn false (regional "lambda" "event-source-mapping:" "") name account_id region_name

abbrev pub capacity_provider_arn : (name account_id region_name : String) → Option String
capacity_provider_arn name account_id region_name =
    resource_arn false (regional "lambda" "capacity-provider:" "") name account_id region_name

abbrev pub stepfunctions_state_machine_arn : (name account_id region_name : String) → Option String
stepfunctions_state_machine_arn name account_id region_name =
    resource_arn false (regional "states" "stateMachine:" "") name account_id region_name

abbrev pub stepfunctions_activity_arn : (name account_id region_name : String) → Option String
stepfunctions_activity_arn name account_id region_name =
    resource_arn false (regional "states" "activity:" "") name account_id region_name

abbrev pub cognito_user_pool_arn : (name account_id region_name : String) → Option String
cognito_user_pool_arn name account_id region_name =
    resource_arn false (regional "cognito-idp" "userpool/" "") name account_id region_name

abbrev pub kinesis_stream_arn : (name account_id region_name : String) → Option String
kinesis_stream_arn name account_id region_name =
    resource_arn false (regional "kinesis" "stream/" "") name account_id region_name

abbrev pub elasticsearch_domain_arn : (name account_id region_name : String) → Option String
elasticsearch_domain_arn name account_id region_name =
    resource_arn false (regional "es" "domain/" "") name account_id region_name

abbrev pub firehose_stream_arn : (name account_id region_name : String) → Option String
firehose_stream_arn name account_id region_name =
    resource_arn false (regional "firehose" "deliverystream/" "") name account_id region_name

abbrev pub kms_key_arn : (name account_id region_name : String) → Option String
kms_key_arn name account_id region_name =
    resource_arn false (regional "kms" "key/" "") name account_id region_name

abbrev pub ecr_repository_arn : (name account_id region_name : String) → Option String
ecr_repository_arn name account_id region_name =
    resource_arn false (regional "ecr" "repository/" "") name account_id region_name

abbrev pub route53_resolver_firewall_rule_group_arn :
    (name account_id region_name : String) → Option String
route53_resolver_firewall_rule_group_arn name account_id region_name =
    resource_arn false (regional "route53resolver" "firewall-rule-group/" "") name account_id
      region_name

abbrev pub route53_resolver_firewall_domain_list_arn :
    (name account_id region_name : String) → Option String
route53_resolver_firewall_domain_list_arn name account_id region_name =
    resource_arn false (regional "route53resolver" "firewall-domain-list/" "") name account_id
      region_name

abbrev pub route53_resolver_query_log_config_arn :
    (name account_id region_name : String) → Option String
route53_resolver_query_log_config_arn name account_id region_name =
    resource_arn false (regional "route53resolver" "resolver-query-log-config/" "") name account_id
      region_name

abbrev pub ses_identity_arn : (name account_id region_name : String) → Option String
ses_identity_arn name account_id region_name =
    resource_arn false (regional "ses" "identity/" "") name account_id region_name

abbrev pub route53_resolver_firewall_rule_group_associations_arn :
    (name account_id region_name : String) → Option String
route53_resolver_firewall_rule_group_associations_arn name account_id region_name =
    resource_arn false (regional "route53resolver" "firewall-rule-group-association/" "") name
      account_id region_name

-- The id of the stack or the change set is part of the pattern.
abbrev pub cloudformation_stack_arn :
    (stack_name stack_id account_id region_name : String) → Option String
cloudformation_stack_arn stack_name stack_id account_id region_name =
    resource_arn false (regional "cloudformation" "stack/" ("/" ⊕ stack_id)) stack_name account_id
      region_name

abbrev pub cloudformation_change_set_arn :
    (change_set_name change_set_id account_id region_name : String) → Option String
cloudformation_change_set_arn change_set_name change_set_id account_id region_name =
    resource_arn false (regional "cloudformation" "changeSet/" ("/" ⊕ change_set_id))
      change_set_name account_id region_name

abbrev pub events_rule_arn :
    (rule_name account_id region_name event_bus_name : String) → Option String
events_rule_arn rule_name account_id region_name event_bus_name =
    let name =
      if str_eq event_bus_name "default" then rule_name else event_bus_name ⊕ "/" ⊕ rule_name in
    resource_arn false (regional "events" "rule/" "") name account_id region_name

abbrev pub events_connection_arn :
    (connection_name connection_id account_id region_name : String) → Option String
events_connection_arn connection_name connection_id account_id region_name =
    resource_arn false (regional "events" "connection/" "") (connection_name ⊕ "/" ⊕ connection_id)
      account_id region_name

abbrev pub events_api_destination_arn :
    (api_destination_name api_destination_id account_id region_name : String) → Option String
events_api_destination_arn api_destination_name api_destination_id account_id region_name =
    resource_arn false (regional "events" "api-destination/" "")
      (api_destination_name ⊕ "/" ⊕ api_destination_id) account_id region_name

-- An absent suffix is the empty text.
abbrev pub secretsmanager_secret_arn :
    (secret_id account_id region_name random_suffix : String) → Option String
secretsmanager_secret_arn secret_id account_id region_name random_suffix =
    let arn =
      resource_arn false (regional "secretsmanager" "secret:" "") secret_id account_id
        region_name in
    if no_colon secret_id
    then Option.map (λ a. if str_eq random_suffix "" then a else a ⊕ "-" ⊕ random_suffix) arn
    else some secret_id

abbrev pub kms_alias_arn : (alias_name account_id region_name : String) → Option String
kms_alias_arn alias_name account_id region_name =
    let name = if starts_with alias_name "alias/" then alias_name else "alias/" ⊕ alias_name in
    resource_arn false (regional "kms" "" "") name account_id region_name

-- These are formatted directly, so their names may have colons.
abbrev pub cloudwatch_alarm_arn : (alarm_name account_id region_name : String) → String
cloudwatch_alarm_arn alarm_name account_id region_name =
    format_arn (get_partition region_name) "cloudwatch" region_name account_id
      ("alarm" ⊕ ":" ⊕ alarm_name)

abbrev pub dynamodb_stream_arn :
    (table_name latest_stream_label account_id region_name : String) → String
dynamodb_stream_arn table_name latest_stream_label account_id region_name =
    format_arn (get_partition region_name) "dynamodb" region_name account_id
      ("table/" ⊕ table_name ⊕ "/stream/" ⊕ latest_stream_label)

abbrev pub apigateway_restapi_arn : (api_id account_id region_name : String) → String
apigateway_restapi_arn api_id account_id region_name =
    format_arn (get_partition region_name) "apigateway" region_name account_id
      ("/restapis/" ⊕ api_id)

abbrev pub sns_topic_arn : (topic_name account_id region_name : String) → String
sns_topic_arn topic_name account_id region_name =
    format_arn (get_partition region_name) "sns" region_name account_id topic_name

abbrev pub sns_platform_application_arn :
    (platform_application_name platform account_id region_name : String) → String
sns_platform_application_arn platform_application_name platform account_id region_name =
    format_arn (get_partition region_name) "sns" region_name account_id
      ("app/" ⊕ platform ⊕ "/" ⊕ platform_application_name)

-- A name passes as a role's ARN if it starts with one, in any of the partitions.
abbrev pub is_iam_arn : String → Bool
is_iam_arn name = any (λ p. starts_with name ("arn:" ⊕ p ⊕ ":iam::")) partition_names

unfoldable pub iam_role_arn : (role_name account_id region_name : String) → String
iam_role_arn role_name account_id region_name =
    if str_eq role_name "" || is_iam_arn role_name
    then role_name
    else format_arn (get_partition region_name) "iam" "" account_id ("role/" ⊕ role_name)

-- No role is the empty text.
unfoldable pub iam_resource_arn : (resource account_id role : String) → String
iam_resource_arn resource account_id role =
    let name = if str_eq role "" then "role-" ⊕ resource else role in
    iam_role_arn name account_id "us-east-1"

-- `"/" in s`
unfoldable pub has_slash : String → Bool
has_slash String.[] = false
has_slash (String.◌∷◌ c s) = code c == 0x2f || has_slash s

-- `s.split("/")[-1]`, and `s.rpartition("/")[2]`.
unfoldable pub after_last_slash : String → String
after_last_slash String.[] = ""
after_last_slash (String.◌∷◌ c s) =
    let rest = after_last_slash s in
    if has_slash s then rest else (if code c == 0x2f then s else String.◌∷◌ c s)

abbrev pub opensearch_domain_name : String → String
opensearch_domain_name domain_arn = after_last_slash domain_arn

abbrev pub firehose_name : String → String
firehose_name firehose_arn = after_last_slash firehose_arn

abbrev pub sqs_queue_arn : (queue_name account_id region_name : String) → String
sqs_queue_arn queue_name account_id region_name =
    format_arn (get_partition region_name) "sqs" region_name account_id
      (after_last_slash queue_name)

-- `s.lstrip("/")`
unfoldable pub strip_slashes : String → String
strip_slashes String.[] = ""
strip_slashes (String.◌∷◌ c s) =
    let rest = strip_slashes s in if code c == 0x2f then rest else String.◌∷◌ c s

abbrev pub ssm_parameter_arn : (param_name account_id region_name : String) → Option String
ssm_parameter_arn param_name account_id region_name =
    resource_arn false (regional "ssm" "parameter/" "") (strip_slashes param_name) account_id
      region_name

abbrev pub apigateway_invocations_arn : (lambda_uri region_name : String) → String
apigateway_invocations_arn lambda_uri region_name =
    format_arn (get_partition region_name) "apigateway" region_name "lambda"
      ("path/2015-03-31/functions/" ⊕ lambda_uri ⊕ "/invocations")
