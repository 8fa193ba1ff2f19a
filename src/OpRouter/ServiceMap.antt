-- ===== src/OpRouter/ServiceMap.antt =====
-- The map of a service's operations by path and method, and the match of a request, of
-- localstack-core/localstack/aws/protocol/op_router.py. The match of werkzeug's map is a parameter:
-- it says which of the rules, given with their methods, a path and a method match.
use localstack_bb.Base.{
  ℕ, zero, suc, String, ◌≡◌, refl, sym, ap, ◌∙◌, Bool, true, false, ◌&&◌, Option, none, some, List,
  [], ◌∷◌, ◌++◌, arith, str_eq, eq_iff, if◌then◌else◌, map, Bool-cases, inl, inr, append_assoc,
  append-nil,
}
use localstack_bb.Base.Result.{Result, ok, err}
use localstack_bb.Base.Dict.{Dict, insert}
use localstack_bb.OpRouter.{
  OperationModel, HttpOperation, RequiredArgsRule, Request, from_operation, required_args_rule,
  sorted, match_request,
}
use localstack_bb.OpRouter.Names.{strip_right, rule_string, post_process_arg_name}

-- A group of operations with their path and method.
pub record Group : Type 0 where
  pub group_path : String
  pub group_method : String
  pub operations : List HttpOperation

abbrev pub same_key : String → String → HttpOperation → Bool
same_key path method op = str_eq op.path path && str_eq op.method method

-- `path_index[(http_op.path, http_op.method)].append(http_op)`
unfoldable pub add_operation : HttpOperation → List Group → List Group
add_operation op [] =
    record { group_path = op.path; group_method = op.method; operations = op ∷ [] } ∷ []
add_operation op (g ∷ groups) =
    let rest = add_operation op groups in
    if same_key g.group_path g.group_method op
    then record {
      group_path = g.group_path;
      group_method = g.group_method;
      operations = g.operations ++ op ∷ [];
    }
      ∷ groups
    else g ∷ rest

unfoldable pub group_from : List HttpOperation → List Group → List Group
group_from [] groups = groups
group_from (op ∷ ops) groups = group_from ops (add_operation op groups)

unfoldable pub path_index : List HttpOperation → List Group
path_index ops = group_from ops []

-- A rule of one operation, or one with a rule for each operation of its path and method.
pub data MapRule : Type 0 where
  strict_method : String → MapRule
  request_matching : List RequiredArgsRule → MapRule

pub record MapEntry : Type 0 where
  pub string : String
  pub method : String
  pub rule : MapRule

unfoldable pub rule_of : List HttpOperation → MapRule
rule_of (op ∷ []) = strict_method op.operation
rule_of ops = request_matching (sorted (map required_args_rule ops))

unfoldable pub entry_of : Group → MapEntry
entry_of g = record {
  string = rule_string g.group_path;
  method = g.group_method;
  rule = rule_of g.operations;
}

unfoldable pub create_service_map :
    (String → Dict (List String)) → List OperationModel → List MapEntry
create_service_map parse_qs ops = map entry_of (path_index (map (from_operation parse_qs) ops))

pub data MapMatch : Type 0 where
  found : ℕ → Dict String → MapMatch
  not_found method_not_allowed : MapMatch

pub data RouterError : Type 0 where
  no_operation : RouterError

abbrev pub Matched : Type 0
Matched = Result RouterError (String × Dict String)

module _ (unquote : String → String) where
  -- The dict of the arguments, whose later entries replace those of the same name.
  unfoldable pub post_process : Dict String → Dict String → Dict String
  post_process [] done = done
  post_process ((k, v) ∷ args) done =
      post_process args (insert (post_process_arg_name k) (unquote v) done)

  unfoldable pub endpoint_and_args : Option RequiredArgsRule → Dict String → Matched
  endpoint_and_args none args = err no_operation
  endpoint_and_args (some r) args = ok (r.endpoint, post_process args [])

  unfoldable pub match_rule : MapRule → Dict String → Request → Matched × MapRule
  match_rule (strict_method name) args request =
      (ok (name, post_process args []), strict_method name)
  match_rule (request_matching rules) args request =
      let (r, rules') = match_request rules request in
      (endpoint_and_args r args, request_matching rules')

  -- The entry with the number, with what its rules have become.
  unfoldable pub match_at : ℕ → Dict String → List MapEntry → Request → Matched × List MapEntry
  match_at n args [] request = (err no_operation, [])
  match_at zero args (e ∷ entries) request =
      let (matched, rule) = match_rule e.rule args request in
      (matched, record { string = e.string; method = e.method; rule = rule } ∷ entries)
  match_at (suc n) args (e ∷ entries) request =
      let (matched, rest) = match_at n args entries request in (matched, e ∷ rest)

  unfoldable pub match_found : MapMatch → List MapEntry → Request → Matched × List MapEntry
  match_found (found n args) entries request = match_at n args entries request
  match_found not_found entries request = (err no_operation, entries)
  match_found method_not_allowed entries request = (err no_operation, entries)

  -- RestServiceOperationRouter.match
  unfoldable pub match_operation :
      (List (String × String) → String → String → MapMatch)
      → List MapEntry
      → Request
      → Matched × List MapEntry
  match_operation bind_match entries request =
      let method = if str_eq request.method "OPTIONS" then "GET" else request.method in
      let path = strip_right b'/' request.raw_path in
      match_found (bind_match (map (λ e. (e.string, e.method)) entries) path method) entries request

abbrev pub at_key : String → String → Group → Bool
at_key path method g = str_eq g.group_path path && str_eq g.group_method method

-- The operations that are grouped under a path and method.
unfoldable pub operations_at : String → String → List Group → List HttpOperation
operations_at path method [] = []
operations_at path method (g ∷ groups) =
    let rest = operations_at path method groups in
    if at_key path method g then g.operations else rest

-- The operations of a path and method, in their order.
unfoldable pub operations_with : String → String → List HttpOperation → List HttpOperation
operations_with path method [] = []
operations_with path method (op ∷ ops) =
    let rest = operations_with path method ops in
    if same_key path method op then op ∷ rest else rest

-- An operation that goes to a group is of the path and method of the group.
same_place :
    (path method : String) (op : HttpOperation) (g : Group)
    → same_key g.group_path g.group_method op ≡ true
    → at_key path method g ≡ same_key path method op
same_place path method op g h =
    ground (arith, eq_iff op.path g.group_path, eq_iff op.method g.group_method)

other_place :
    (path method : String) (op : HttpOperation) (g : Group)
    → same_key g.group_path g.group_method op ≡ false
    → at_key path method g ≡ true
    → same_key path method op ≡ false
other_place path method op g h k = ground (
  arith,
  eq_iff op.path g.group_path,
  eq_iff op.method g.group_method,
  eq_iff op.path path,
  eq_iff op.method method,
  eq_iff g.group_path path,
  eq_iff g.group_method method,
)

operations_at-add_operation :
    (path method : String) (op : HttpOperation) (groups : List Group)
    → operations_at path method (add_operation op groups)
      ≡ operations_at path method groups ++ operations_with path method (op ∷ [])
unfolding operations_at add_operation operations_with
operations_at-add_operation path method op [] = ground arith
operations_at-add_operation path method op (g ∷ groups) =
    elim (Bool-cases (same_key g.group_path g.group_method op)) [
      | inl e ↦
          let same : at_key path method g ≡ same_key path method op =
            same_place path method op g e in
          elim (Bool-cases (same_key path method op)) [
            | inl f ↦ rw (e, same ∙ f, f) refl
            | inr f ↦ rw (e, same ∙ f, f) (sym (append-nil (operations_at path method groups)))
          ]
      | inr e ↦ elim (Bool-cases (at_key path method g)) [
        | inl f ↦ rw (e, f, other_place path method op g e f) (sym (append-nil g.operations))
        | inr f ↦ rw (e, f) (operations_at-add_operation path method op groups)
      ]
    ]

operations_with-cons :
    (path method : String) (op : HttpOperation) (ops : List HttpOperation)
    → operations_with path method (op ∷ []) ++ operations_with path method ops
      ≡ operations_with path method (op ∷ ops)
unfolding operations_with
operations_with-cons path method op ops = elim (Bool-cases (same_key path method op)) [
  | inl e ↦ rw e refl
  | inr e ↦ rw e refl
]

operations_at-group_from :
    (path method : String) (ops : List HttpOperation) (groups : List Group)
    → operations_at path method (group_from ops groups)
      ≡ operations_at path method groups ++ operations_with path method ops
unfolding group_from
operations_at-group_from path method [] groups =
    unfold operations_with in sym (append-nil (operations_at path method groups))
operations_at-group_from path method (op ∷ ops) groups =
    operations_at-group_from path method ops (add_operation op groups)
    ∙ ap (λ (xs : List HttpOperation). xs ++ operations_with path method ops)
        (operations_at-add_operation path method op groups)
    ∙ append_assoc (operations_at path method groups) (operations_with path method (op ∷ []))
        (operations_with path method ops)
    ∙ ap (λ (xs : List HttpOperation). operations_at path method groups ++ xs)
        (operations_with-cons path method op ops)

-- The group of a path and method has the operations of the service with that path and method, in
-- their order.
pub path_index-operations_with :
    (path method : String) (ops : List HttpOperation)
    → operations_at path method (path_index ops) ≡ operations_with path method ops
unfolding path_index operations_at
path_index-operations_with path method ops = operations_at-group_from path method ops []
