-- ===== src/Routing/Service.antt =====
-- determine_aws_service_model and determine_aws_service_model_for_data_plane of
-- localstack-core/localstack/aws/protocol/service_router.py. The loader of botocore and the parser of
-- a dictionary header of werkzeug are parameters, and so is `pop`, which takes any element out of a
-- set that is given by an element and the others.
use localstack_bb.Base.{
  String, Bool, true, false, ◌&&◌, ◌||◌, not, Option, none, some, List, [], ◌∷◌, ◌++◌, str_eq,
  if◌then◌else◌,
}
use localstack_bb.Base.Result.{Result, ok, err, ◌>>=◌}
use localstack_bb.Base.Dict.{Dict, lookup}
use localstack_bb.Base.Text.{contains}
use localstack_bb.Cors.{has_infix}
use localstack_bb.Routing.{
  ServiceModelIdentifier, ServiceModel, Request, RouteError, attribute_error, same_identifier,
  named,
}
use localstack_bb.Routing.Catalog.{
  Index, by_signing_name, by_target_prefix, by_operation, endpoint_prefix_index,
  is_protocol_in_service_model_identifier,
}
use localstack_bb.Routing.Loading.{load}
use localstack_bb.Routing.Indicators.{ServiceIndicators, Header, extract_service_indicators}
use localstack_bb.Routing.Rules.{
  custom_signing_name_rules, custom_host_addressing_rules, custom_path_addressing_rules,
  resolve_conflicts,
}
use text.Mathlib.Text.{starts_with}
use Prim.Native.String

pub record ServiceCatalog : Type 0 where
  pub models : List ServiceModel
  pub load_service_model : String → Option ServiceModel

abbrev pub Answer : Type 0
Answer = Result RouteError (Option ServiceModel)

abbrev pub Candidates : Type 0
Candidates = List ServiceModelIdentifier

-- A step of the search answers, or leaves the candidates to the next one.
pub data Search : Type 0 where
  answer : Answer → Search
  go_on : Candidates → Search

-- The candidates of a step that asks for models, or the error of the first that is not loaded.
unfoldable pub kept : Result RouteError Candidates → Search
kept (err e) = answer (err e)
kept (ok cs) = go_on cs

-- The next step, where the one before did not answer.
unfoldable pub next : Search → (Candidates → Search) → Search
next (answer a) f = answer a
next (go_on cs) f = f cs

unfoldable pub is_candidate : ServiceModelIdentifier → Candidates → Bool
is_candidate i [] = false
is_candidate i (c ∷ cs) = same_identifier i c || is_candidate i cs

-- `candidates.update(identifiers)`
unfoldable pub add_all : List ServiceModelIdentifier → Candidates → Candidates
add_all [] cs = cs
add_all (i ∷ is) cs = add_all is (if is_candidate i cs then cs else cs ++ i ∷ [])

unfoldable pub is_text : Option String → Bool
is_text none = false
is_text (some s) = not (str_eq s "")

unfoldable pub found_model : Result RouteError ServiceModel → Answer
found_model (ok m) = ok (some m)
found_model (err e) = err e

unfoldable pub legacy_s3_rules : Request → Option ServiceModelIdentifier
legacy_s3_rules r = none

unfoldable pub has_no_target : ServiceModel → Bool
has_no_target m = elim m.target_prefix [ none ↦ true | some _ ↦ false ]

unfoldable pub is_query : ServiceModelIdentifier → Bool
is_query i =
    is_protocol_in_service_model_identifier "ec2" i
    || is_protocol_in_service_model_identifier "query" i

unfoldable pub query_candidates : List ServiceModelIdentifier → Candidates
query_candidates [] = []
query_candidates (i ∷ is) = let rest = query_candidates is in if is_query i then i ∷ rest else rest

-- A shallow request has no body.
unfoldable pub check_shallow : Bool → Candidates → Search
check_shallow shallow cs = if shallow then answer (ok none) else go_on cs

-- The first field of the identifier, its name, is taken for an identifier.
unfoldable pub by_name_of : Option ServiceModelIdentifier → Candidates → Search
by_name_of none cs = go_on cs
by_name_of (some i) cs = answer (err attribute_error)

module _ (catalog : ServiceCatalog) where
  -- `services.get`
  unfoldable pub get_model : ServiceModelIdentifier → Result RouteError ServiceModel
  get_model i = load catalog.load_service_model i.name i.protocol

  unfoldable pub got : ServiceModelIdentifier → Answer
  got i = found_model (get_model i)

  -- The candidates whose model passes the test.
  unfoldable pub keep : (ServiceModel → Bool) → Candidates → Result RouteError Candidates
  keep p [] = ok []
  keep p (c ∷ cs) = do m ← get_model c; rest ← keep p cs; ok (if p m then c ∷ rest else rest)

  -- 1. the signing name
  unfoldable pub by_rules : Option ServiceModelIdentifier → Candidates → Search
  by_rules none found = go_on (add_all found [])
  by_rules (some i) found = answer (got i)

  unfoldable pub unique_or : Candidates → Search → Search
  unique_or [] other = other
  unique_or (c ∷ []) other = answer (got c)
  unique_or (c ∷ d ∷ cs) other = other

  unfoldable pub check_signing_name : Option String → String → Search
  check_signing_name none path = go_on []
  check_signing_name (some name) path =
      let found = by_signing_name name catalog.models in
      if str_eq name ""
      then go_on []
      else unique_or found (by_rules (custom_signing_name_rules name path) found)

  -- 2. the target prefix
  unfoldable pub check_target : Option String → Option String → Candidates → Search
  check_target (some prefix) (some operation) cs =
      let found = by_target_prefix prefix catalog.models in
      if is_text (some prefix) && is_text (some operation)
      then unique_or found
          (kept (keep (λ m. contains operation m.operation_names) (add_all found cs)))
      else kept (keep has_no_target cs)
  check_target _ _ cs = kept (keep has_no_target cs)

  unfoldable pub check_unique : Candidates → Search
  check_unique cs = unique_or cs (go_on cs)

  -- 3. the path
  unfoldable pub by_rule : Option ServiceModelIdentifier → Candidates → Search
  by_rule none cs = go_on cs
  by_rule (some i) cs = answer (got i)

  unfoldable pub check_path : String → Candidates → Search
  check_path path cs =
      if str_eq path "" || str_eq path "/"
      then go_on cs
      else by_rule (custom_path_addressing_rules path) cs

  -- 4. the host
  unfoldable pub check_prefixes : String → Index → Candidates → Search
  check_prefixes host [] cs = go_on cs
  check_prefixes host ((prefix, found) ∷ index) cs =
      if starts_with host (String.◌++◌ prefix ".") && not (has_infix ".s3." host)
      then unique_or found (check_prefixes host index (add_all found cs))
      else check_prefixes host index cs

  unfoldable pub check_host : String → Candidates → Search
  check_host host cs =
      if str_eq host ""
      then go_on cs
      else next (check_prefixes host (endpoint_prefix_index catalog.models) cs)
          (by_name_of (custom_host_addressing_rules host))

  -- 5. the form
  unfoldable pub of_version : Option String → Candidates → Result RouteError Candidates
  of_version none found = ok found
  of_version (some version) found = keep (λ m. str_eq version m.api_version) found

  unfoldable pub check_versions : Candidates → Result RouteError Candidates → Search
  check_versions cs (err e) = answer (err e)
  check_versions cs (ok found) = unique_or found (go_on (add_all found cs))

  unfoldable pub check_action : Option String → Option String → Candidates → Search
  check_action none version cs = go_on cs
  check_action (some action) version cs =
      let found = query_candidates (by_operation action catalog.models) in
      unique_or found (check_versions cs (of_version version found))

  -- A form that cannot be parsed is passed over.
  unfoldable pub check_form : Option (Dict String) → Candidates → Search
  check_form none cs = go_on cs
  check_form (some values) cs = check_action (lookup "Action" values) (lookup "Version" values) cs

  -- 6. the conflicts, and the legacy rules
  unfoldable pub check_conflicts : Request → Candidates → Search
  check_conflicts r cs = by_rule (resolve_conflicts cs r) cs

  unfoldable pub check_legacy : Request → Candidates → Search
  check_legacy r cs = by_rule (legacy_s3_rules r) cs

  -- The steps on the indicators of the request, in their order.
  unfoldable pub search : Request → ServiceIndicators → Search
  search r i =
      let after_signing = check_signing_name i.signing_name i.path in
      let after_target = next after_signing (check_target i.target_prefix i.operation) in
      let after_unique = next after_target check_unique in
      let after_path = next after_unique (check_path i.path) in
      let after_host = next after_path (check_host i.host) in
      let after_shallow = next after_host (check_shallow r.shallow) in
      let after_form = next after_shallow (check_form r.values) in
      next (next after_form (check_conflicts r)) (check_legacy r)

  module _ (pop : ServiceModelIdentifier → Candidates → ServiceModelIdentifier) where
    unfoldable pub any_of : Candidates → Answer
    any_of [] = ok none
    any_of (c ∷ cs) = got (pop c cs)

    unfoldable pub last_resort : Option String → Candidates → Answer
    last_resort none cs = any_of cs
    last_resort (some name) cs = if str_eq name "" then any_of cs else got (named name)

    unfoldable pub finish : Option String → Search → Answer
    finish signing_name (answer a) = a
    finish signing_name (go_on cs) = last_resort signing_name cs

    unfoldable pub determine : Request → Result RouteError ServiceIndicators → Answer
    determine r (err e) = err e
    determine r (ok i) = finish i.signing_name (search r i)

    unfoldable pub determine_aws_service_model : (String → Header) → Request → Answer
    determine_aws_service_model parse_dict_header r =
        determine r (extract_service_indicators parse_dict_header r)

  unfoldable pub for_host : Option ServiceModelIdentifier → Answer
  for_host none = ok none
  for_host (some i) = got i

  unfoldable pub determine_aws_service_model_for_data_plane : Request → Answer
  determine_aws_service_model_for_data_plane r = for_host (custom_host_addressing_rules r.host)
