-- ===== src/Routing/Forms.antt =====
-- The service of a request whose form names an operation,
-- of localstack-core/localstack/aws/protocol/service_router.py.
use localstack_bb.Base.{
  String, ◌≡◌, refl, ap, ◌∙◌, Bool, true, false, ◌||◌, Option, none, some, List, [], ◌∷◌, ◌++◌,
  arith, str_eq, if◌then◌else◌, Bool-cases, inl, inr,
}
use localstack_bb.Base.Result.{ok}
use localstack_bb.Base.Dict.{Dict, lookup}
use localstack_bb.Base.Text.{contains}
use localstack_bb.Cors.{has_infix}
use localstack_bb.Routing.{ServiceModelIdentifier, ServiceModel, Request}
use localstack_bb.Routing.Catalog.{
  nonempty, listed, occurrences, by_operation, by_index-listed, endpoint_prefix_index,
  get_service_model_identifier, is_protocol_in_service_model_identifier,
}
use localstack_bb.Routing.Indicators.{Header}
use localstack_bb.Routing.Rules.{
  custom_host_addressing_rules, custom_path_addressing_rules, same_names, resolve_conflicts,
}
use localstack_bb.Routing.Service.{
  ServiceCatalog, Candidates, answer, go_on, kept, next, got, keep, add_all, unique_or,
  check_signing_name, check_target, check_unique, by_rule, by_name_of, check_host, is_query,
  query_candidates, of_version, check_versions, check_action, check_form, check_shallow,
  check_conflicts, legacy_s3_rules, check_legacy, any_of, last_resort, finish, search, determine,
  determine_aws_service_model,
}
use localstack_bb.Routing.Uniques.{
  no_prefix, check_prefixes-none, check_path-none, plain, extract-plain,
}

abbrev pub speaks : String → Option (List String) → Bool
speaks protocol protocols =
    let all = protocol ∷ elim protocols [ none ↦ [] | some ps ↦ ps ] in
    contains "query" all || contains "ec2" all

-- A model that speaks one of the two protocols of forms.
abbrev pub speaks_forms : ServiceModel → Bool
speaks_forms m = speaks m.protocol m.protocols

-- The models that speak them, in their order.
unfoldable pub of_forms : List ServiceModel → List ServiceModel
of_forms [] = []
of_forms (m ∷ ms) = let rest = of_forms ms in if speaks_forms m then m ∷ rest else rest

-- At most one element.
abbrev pub at_most_one : Option ServiceModelIdentifier → Candidates
at_most_one none = []
at_most_one (some c) = c ∷ []

is_query-speaks :
    (name protocol : String) (protocols : Option (List String))
    → is_query (record {
      name = name;
      protocol = some protocol;
      protocols = elim protocols [ none ↦ none | some ps ↦ nonempty ps ];
    })
      ≡ speaks protocol protocols
unfolding is_query is_protocol_in_service_model_identifier contains
is_query-speaks name protocol none = ground arith
is_query-speaks name protocol (some []) = ground arith
is_query-speaks name protocol (some (p ∷ ps)) = ground arith

is_query-identifier :
    (m : ServiceModel) → is_query (get_service_model_identifier m) ≡ speaks_forms m
unfolding get_service_model_identifier
is_query-identifier m = is_query-speaks m.service_name m.protocol m.protocols

query_candidates-append :
    (is js : Candidates) → query_candidates (is ++ js) ≡ query_candidates is ++ query_candidates js
unfolding query_candidates
query_candidates-append [] js = refl
query_candidates-append (i ∷ is) js = ground (arith, query_candidates-append is js)

query_candidates-occurrences :
    (k : String) (js : List String) (i : ServiceModelIdentifier)
    → query_candidates (occurrences k js i) ≡ (if is_query i then occurrences k js i else [])
unfolding query_candidates occurrences
query_candidates-occurrences k [] i = ground arith
query_candidates-occurrences k (j ∷ js) i = ground (arith, query_candidates-occurrences k js i)

query_candidates-listed :
    (keys : ServiceModel → List String) (k : String) (ms : List ServiceModel)
    → query_candidates (listed keys k ms) ≡ listed keys k (of_forms ms)
unfolding listed of_forms
query_candidates-listed keys k [] = unfold query_candidates in refl
query_candidates-listed keys k (m ∷ ms) =
    let i = get_service_model_identifier m in
    let appended = query_candidates-append (occurrences k (keys m) i) (listed keys k ms) in
    let here = query_candidates-occurrences k (keys m) i in
    let tested = is_query-identifier m in
    let rest = query_candidates-listed keys k ms in
    elim (Bool-cases (speaks_forms m)) [
      | inl e ↦ rw (appended, here, tested, rest, e) refl
      | inr e ↦ rw (appended, here, tested, rest, e) refl
    ]

query_candidates-by_operation :
    (action : String) (ms : List ServiceModel)
    → query_candidates (by_operation action ms)
      ≡ listed (λ m. m.operation_names) action (of_forms ms)
query_candidates-by_operation action ms =
    ap query_candidates (by_index-listed action ms).2
    ∙ query_candidates-listed (λ m. m.operation_names) action ms

module _ (catalog : ServiceCatalog)
    (pop : ServiceModelIdentifier → Candidates → ServiceModelIdentifier)
    (parse_dict_header : String → Header) where
  -- What a form's action leaves to the rest of the search.
  check_action-sole :
      (action : String) (version : Option String) (o : Option ServiceModelIdentifier)
      → query_candidates (by_operation action catalog.models) ≡ at_most_one o
      → check_action catalog (some action) version []
        ≡ elim o [ none ↦ go_on [] | some c ↦ answer (got catalog c) ]
  unfolding check_action unique_or check_versions of_version keep add_all
  check_action-sole action none none h = rw h refl
  check_action-sole action (some version) none h = rw h refl
  check_action-sole action version (some c) h = rw h refl

  check_host-none :
      (host : String)
      → custom_host_addressing_rules host ≡ none
      → no_prefix host (endpoint_prefix_index catalog.models) ≡ true
      → check_host catalog host [] ≡ go_on []
  unfolding check_host next by_name_of
  check_host-none host h n = elim (Bool-cases (str_eq host "")) [
    | inl e ↦ rw e refl
    | inr e ↦
        rw
          (
            e,
            check_prefixes-none catalog pop parse_dict_header host
                (endpoint_prefix_index catalog.models) [] n,
            h,
          )
          refl
  ]

  finish-sole :
      (r : Request) (o : Option ServiceModelIdentifier)
      → finish catalog pop none (
          next
            (next
              (elim o [ none ↦ go_on [] | some c ↦ answer (got catalog c) ])
              (check_conflicts catalog r))
            (check_legacy catalog r))
        ≡ elim o [ none ↦ ok none | some c ↦ got catalog c ]
  unfolding finish next check_conflicts resolve_conflicts same_names by_rule check_legacy
      legacy_s3_rules last_resort any_of contains
  finish-sole r none = refl
  finish-sole r (some c) = refl

  finish-form :
      (r : Request) (values : Dict String) (action : String) (o : Option ServiceModelIdentifier)
      → custom_path_addressing_rules r.path ≡ none
      → custom_host_addressing_rules r.host ≡ none
      → no_prefix r.host (endpoint_prefix_index catalog.models) ≡ true
      → r.shallow ≡ false
      → r.values ≡ some values
      → lookup "Action" values ≡ some action
      → listed (λ m. m.operation_names) action (of_forms catalog.models) ≡ at_most_one o
      → finish catalog pop none (search catalog r (plain catalog pop parse_dict_header r))
        ≡ elim o [ none ↦ ok none | some c ↦ got catalog c ]
  unfolding finish search next check_signing_name check_target kept keep check_unique unique_or
      check_shallow check_form
  finish-form r values action o p h n s v a l =
      let r' = record r { shallow = false; values = some values } in
      rw
        (
          check_path-none catalog pop parse_dict_header r.path [] p,
          check_host-none r.host h n,
          s,
          v,
          a,
          check_action-sole action (lookup "Version" values) o
              (query_candidates-by_operation action catalog.models ∙ l),
        )
        (finish-sole r' o)

  -- A request without credentials and target, for which neither path, host nor endpoint prefix gives a
  -- service, and whose form has an action, is for the model with that operation that speaks `query` or
  -- `ec2`, where there is just one, whatever version the form asks for; where there is none, the
  -- answer is none.
  pub determine-form :
      (r : Request) (values : Dict String) (action : String) (o : Option ServiceModelIdentifier)
      → r.authorization ≡ none
      → r.x_amz_target ≡ none
      → has_infix "rpc-v2-cbor" r.smithy_protocol ≡ false
      → custom_path_addressing_rules r.path ≡ none
      → custom_host_addressing_rules r.host ≡ none
      → no_prefix r.host (endpoint_prefix_index catalog.models) ≡ true
      → r.shallow ≡ false
      → r.values ≡ some values
      → lookup "Action" values ≡ some action
      → listed (λ m. m.operation_names) action (of_forms catalog.models) ≡ at_most_one o
      → determine_aws_service_model catalog pop parse_dict_header r
        ≡ elim o [ none ↦ ok none | some c ↦ got catalog c ]
  unfolding determine_aws_service_model determine
  determine-form r values action o b t i p h n s v a l =
      rw (extract-plain catalog pop parse_dict_header r b t i)
        (finish-form r values action o p h n s v a l)
