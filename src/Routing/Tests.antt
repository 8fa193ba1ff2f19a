-- ===== src/Routing/Tests.antt =====
-- Runs of the search for a service model, and the theorems at concrete inputs.
use localstack_bb.Base.{
  String, ◌≡◌, refl, true, false, Option, none, some, [], ◌∷◌, str_eq, if◌then◌else◌, inl,
}
use localstack_bb.Base.Result.{ok, err}
use localstack_bb.Base.Dict.{lookup}
use localstack_bb.Base.Text.{split, split_first, strip_left, contains}
use localstack_bb.Cors.{has_infix}
use localstack_bb.Init.{ends_with}
use localstack_bb.Routing.{
  ServiceModelIdentifier, ServiceModel, Request, attribute_error, unknown_service_protocol, named,
}
use localstack_bb.Routing.Catalog.{
  listed, occurrences, target_prefixes, by_target_prefix, by_signing_name, by_operation, entries_at,
  endpoint_prefix_index, signing_name_index, operations_index, index_by, append_keys, append_to,
  get_service_model_identifier, is_protocol_in_service_model_identifier, by_index-listed,
}
use localstack_bb.Routing.Loading.{
  load, load_service, checked, service_model, service_protocols, by_convention, or_unknown_protocol,
}
use localstack_bb.Routing.Indicators
use localstack_bb.Routing.Indicators.{Header, ServiceIndicators}
use localstack_bb.Routing.Rules
use localstack_bb.Routing.Protocols
use localstack_bb.Routing.Service
use localstack_bb.Routing.Service.{ServiceCatalog, Candidates}
use localstack_bb.Routing.Forms
use localstack_bb.Routing.Targets
use localstack_bb.Routing.Uniques

abbrev sqs : ServiceModel
sqs = record {
  service_name = "sqs";
  protocol = "json";
  protocols = none;
  signing_name = "sqs";
  endpoint_prefix = "sqs";
  target_prefix = some "AmazonSQS";
  operation_names = "SendMessage" ∷ "ListQueues" ∷ [];
  api_version = "2012-11-05";
}

abbrev sqs_query : ServiceModel
sqs_query = record {
  service_name = "sqs";
  protocol = "query";
  protocols = none;
  signing_name = "sqs";
  endpoint_prefix = "sqs";
  target_prefix = none;
  operation_names = "SendMessage" ∷ "ListQueues" ∷ [];
  api_version = "2012-11-05";
}

abbrev kinesis : ServiceModel
kinesis = record {
  service_name = "kinesis";
  protocol = "json";
  protocols = some ("json" ∷ "smithy-rpc-v2-cbor" ∷ []);
  signing_name = "kinesis";
  endpoint_prefix = "kinesis";
  target_prefix = some "Kinesis_20131202";
  operation_names = "PutRecord" ∷ [];
  api_version = "2013-12-02";
}

abbrev loader : String → Option ServiceModel
loader name =
    if str_eq name "sqs"
    then some sqs
    else if str_eq name "sqs-query"
    then some sqs_query
    else if str_eq name "kinesis"
    then some kinesis
    else none

abbrev catalog : ServiceCatalog
catalog = record { models = sqs ∷ sqs_query ∷ kinesis ∷ []; load_service_model = loader }

abbrev pop_first : ServiceModelIdentifier → Candidates → ServiceModelIdentifier
pop_first c cs = c

-- The header of one pair of a name and a value.
abbrev credential : String → Header
credential info = ("Credential", some info) ∷ []

abbrev request : Request
request = record {
  x_amz_target = none;
  authorization = none;
  smithy_protocol = "";
  mimetype = "application/json";
  has_action = false;
  host = "abc.lambda-url.localhost";
  path = "/";
  shallow = false;
  values = some [];
}

abbrev signed : Request
signed = record {
  x_amz_target = some "Other.PutRecord";
  authorization = some "AWS4-HMAC-SHA256 AKID/20260101/us-east-1/kinesis/aws4_request";
  smithy_protocol = "rpc-v2-cbor";
  mimetype = "application/cbor";
  has_action = false;
  host = "localhost";
  path = "/service/Kinesis_20131202/operation/PutRecord";
  shallow = false;
  values = some [];
}

-- A request by form, whose operation two models know: one is a service with the protocol query.
abbrev form_request : Request
form_request = record {
  x_amz_target = none;
  authorization = some "AWS4-HMAC-SHA256 AKID/20260101/us-east-1/sqs/aws4_request";
  smithy_protocol = "";
  mimetype = "application/x-www-form-urlencoded";
  has_action = true;
  host = "localhost";
  path = "/";
  shallow = false;
  values = some (("Action", "ListQueues") ∷ ("Version", "2012-11-05") ∷ []);
}

abbrev signed_indicators : ServiceIndicators
signed_indicators = record {
  signing_name = some "kinesis";
  target_prefix = some "Kinesis_20131202";
  operation = some "PutRecord";
  host = "localhost";
  path = "/service/Kinesis_20131202/operation/PutRecord";
}

signed_extracted : Indicators.extract_service_indicators credential signed ≡ ok signed_indicators
unfolding Indicators.extract_service_indicators Indicators.signing_name_of Indicators.two_words
    Indicators.until_space Indicators.strip_spaces Indicators.is_space Indicators.equals_lower
    Indicators.signing_of_credential Indicators.signing_part Indicators.rpc_target
    Indicators.rpc_segments has_infix split split_first strip_left lookup
signed_extracted = refl

by_index-listed_example :
    (by_target_prefix "sqs" catalog.models ≡ listed target_prefixes "sqs" catalog.models)
    × (by_signing_name "sqs" catalog.models
        ≡ listed (λ m. m.signing_name ∷ []) "sqs" catalog.models)
    × (by_operation "sqs" catalog.models ≡ listed (λ m. m.operation_names) "sqs" catalog.models)
    × (entries_at "sqs" (endpoint_prefix_index catalog.models)
        ≡ listed (λ m. m.endpoint_prefix ∷ []) "sqs" catalog.models)
by_index-listed_example = by_index-listed "sqs" catalog.models

query_loaded : load loader "sqs" (some "query") ≡ ok sqs_query
unfolding load_service checked service_model service_protocols by_convention ends_with
    or_unknown_protocol contains
query_loaded = refl

not_declared : load loader "sqs-query" (some "json") ≡ err unknown_service_protocol
unfolding load_service checked service_model service_protocols by_convention ends_with
    or_unknown_protocol contains
not_declared = refl

determine_aws_protocol-IsChoice_example :
    Protocols.IsChoice signed
      ("json" ∷ "smithy-rpc-v2-cbor" ∷ [])
      (Protocols.determine_aws_protocol signed kinesis)
determine_aws_protocol-IsChoice_example =
    Protocols.determine_aws_protocol-IsChoice signed kinesis "json" "smithy-rpc-v2-cbor" [] refl

only_kinesis :
    listed (λ m. m.signing_name ∷ []) "kinesis" catalog.models
    ≡ get_service_model_identifier kinesis ∷ []
unfolding listed occurrences get_service_model_identifier
only_kinesis = refl

determine_unique_example :
    Service.determine_aws_service_model catalog pop_first credential signed
    ≡ Service.got catalog (get_service_model_identifier kinesis)
determine_unique_example =
    Uniques.determine_unique catalog pop_first credential signed signed_indicators "kinesis"
      (get_service_model_identifier kinesis) signed_extracted refl refl only_kinesis

host_rule : Rules.custom_host_addressing_rules request.host ≡ some (named "lambda")
unfolding Rules.custom_host_addressing_rules has_infix
host_rule = refl

no_path_rule : Rules.custom_path_addressing_rules request.path ≡ none
unfolding Rules.custom_path_addressing_rules
no_path_rule = refl

not_rpc : has_infix "rpc-v2-cbor" request.smithy_protocol ≡ false
unfolding has_infix
not_rpc = refl

no_endpoint_prefix : Uniques.no_prefix request.host (endpoint_prefix_index catalog.models) ≡ true
unfolding endpoint_prefix_index index_by append_keys append_to
no_endpoint_prefix = refl

determine-rule_example :
    (Service.determine_aws_service_model catalog pop_first credential request ≡ err attribute_error)
    × (Service.determine_aws_service_model_for_data_plane catalog request
        ≡ Service.got catalog (named "lambda"))
determine-rule_example =
    Uniques.determine-rule catalog pop_first credential request (named "lambda") refl refl not_rpc
      no_path_rule host_rule no_endpoint_prefix

abbrev form_indicators : ServiceIndicators
form_indicators = record {
  signing_name = some "sqs";
  target_prefix = none;
  operation = none;
  host = "localhost";
  path = "/";
}

form_extracted : Indicators.extract_service_indicators credential form_request ≡ ok form_indicators
unfolding Indicators.extract_service_indicators Indicators.signing_name_of Indicators.two_words
    Indicators.until_space Indicators.strip_spaces Indicators.is_space Indicators.equals_lower
    Indicators.signing_of_credential Indicators.signing_part Indicators.amz_target has_infix split
    split_first lookup
form_extracted = refl

json_loaded : load loader "sqs" (some "json") ≡ ok sqs
unfolding load_service checked service_model service_protocols by_convention ends_with
    or_unknown_protocol contains
json_loaded = refl

two_sqs :
    listed (λ m. m.signing_name ∷ []) "sqs" catalog.models
    ≡ get_service_model_identifier sqs ∷ get_service_model_identifier sqs_query ∷ []
unfolding listed occurrences get_service_model_identifier
two_sqs = refl

no_signing_rule : Rules.custom_signing_name_rules "sqs" "/" ≡ none
unfolding Rules.custom_signing_name_rules lookup
no_signing_rule = refl

determine-no_target_example :
    Service.determine_aws_service_model catalog pop_first credential form_request
    ≡ Service.got catalog (get_service_model_identifier sqs_query)
unfolding get_service_model_identifier
determine-no_target_example =
    Targets.determine-no_target catalog pop_first credential form_request form_indicators "sqs"
      "AmazonSQS" sqs sqs_query form_extracted refl refl refl no_signing_rule (inl two_sqs) refl
      refl json_loaded query_loaded refl refl

-- The same form without credentials.
abbrev unsigned : Request
unsigned = record form_request { authorization = none }

unsigned_not_rpc : has_infix "rpc-v2-cbor" unsigned.smithy_protocol ≡ false
unfolding has_infix
unsigned_not_rpc = refl

unsigned_no_path_rule : Rules.custom_path_addressing_rules unsigned.path ≡ none
unfolding Rules.custom_path_addressing_rules
unsigned_no_path_rule = refl

unsigned_no_host_rule : Rules.custom_host_addressing_rules unsigned.host ≡ none
unfolding Rules.custom_host_addressing_rules has_infix
unsigned_no_host_rule = refl

unsigned_no_prefix : Uniques.no_prefix unsigned.host (endpoint_prefix_index catalog.models) ≡ true
unfolding endpoint_prefix_index index_by append_keys append_to
unsigned_no_prefix = refl

only_sqs_query :
    listed (λ m. m.operation_names) "ListQueues" (Forms.of_forms catalog.models)
    ≡ get_service_model_identifier sqs_query ∷ []
unfolding listed occurrences get_service_model_identifier Forms.of_forms contains
only_sqs_query = refl

unsigned_action :
    lookup {V = String} "Action" (("Action", "ListQueues") ∷ ("Version", "2012-11-05") ∷ [])
    ≡ some "ListQueues"
unfolding lookup
unsigned_action = refl

determine-form_example :
    Service.determine_aws_service_model catalog pop_first credential unsigned
    ≡ Service.got catalog (get_service_model_identifier sqs_query)
determine-form_example =
    Forms.determine-form catalog pop_first credential unsigned
      (("Action", "ListQueues") ∷ ("Version", "2012-11-05") ∷ []) "ListQueues"
      (some (get_service_model_identifier sqs_query)) refl refl unsigned_not_rpc
      unsigned_no_path_rule unsigned_no_host_rule unsigned_no_prefix refl refl unsigned_action
      only_sqs_query

-- Two models have the signing name and the operation, and the form decides for one of them.
form_run :
    Service.determine_aws_service_model catalog pop_first credential form_request
    ≡ ok (some sqs_query)
unfolding Service.determine_aws_service_model Service.determine Service.finish Service.search
    Service.next Service.check_signing_name Service.check_target Service.check_unique
    Service.check_path Service.check_host Service.check_prefixes Service.check_shallow
    Service.check_form Service.check_action Service.unique_or Service.by_rules Service.kept
    Service.keep Service.add_all Service.is_candidate Service.got Service.get_model
    Service.found_model Service.query_candidates Service.is_query Service.has_no_target
    Service.check_versions Service.of_version Service.by_name_of Rules.custom_signing_name_rules
    Rules.custom_host_addressing_rules Indicators.extract_service_indicators
    Indicators.signing_name_of Indicators.two_words Indicators.until_space Indicators.strip_spaces
    Indicators.is_space Indicators.equals_lower Indicators.signing_of_credential
    Indicators.signing_part Indicators.amz_target has_infix split split_first by_signing_name
    by_operation signing_name_index operations_index endpoint_prefix_index index_by append_keys
    append_to entries_at lookup get_service_model_identifier is_protocol_in_service_model_identifier
    contains load_service checked service_model service_protocols by_convention ends_with
    or_unknown_protocol
form_run = refl

-- A credential without a value is not caught.
no_credential :
    Indicators.signing_name_of (λ _. ("Credential", none) ∷ []) signed.authorization
    ≡ err attribute_error
unfolding Indicators.signing_name_of Indicators.two_words Indicators.until_space
    Indicators.strip_spaces Indicators.is_space Indicators.equals_lower
    Indicators.signing_of_credential lookup
no_credential = refl
