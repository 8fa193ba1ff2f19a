-- ===== src/OpRouter.antt =====
-- The routing of a request to an operation of a REST service:
-- localstack-core/localstack/aws/protocol/op_router.py. The rules keep their required values in
-- iterators, which is their state. Parameters are `parse_qs` and `unquote` of urllib, and the map of
-- werkzeug, which says which of its rules a path and a method match.
pub mod Names
pub mod Matching
pub mod Best
pub mod ServiceMap
mod Tests
use localstack_bb.Base.{
  ℕ, zero, suc, ◌+◌, ◌-◌, ◌*◌, String, Bool, true, false, ◌&&◌, not, Option, none, some, List, [],
  ◌∷◌, ◌++◌, leb, ◌==◌, str_eq, if◌then◌else◌, map, length, get_elem?,
}
use localstack_bb.Base.Dict.{Dict, lookup, has}
use localstack_bb.Base.Text.{contains, split, has_char, split_at_first}
use localstack_bb.OpRouter.Names.{strip_right}
use Prim.Native.String
use Prim.Native.Char.{Char, code}

-- A required member of the input shape, with its place in the request, if it has one.
pub record RequiredMember : Type 0 where
  pub location : Option String
  pub name : String

-- What is read of an operation of botocore.
pub record OperationModel : Type 0 where
  pub name : String
  pub auth_path : Option String
  pub request_uri : String
  pub method : String
  pub deprecated : Bool
  pub required_members : List RequiredMember

-- The values that an argument must have: an empty list, for which it must only be there, or an
-- iterator with what is left of it, which counts as true even when nothing is.
pub data Values : Type 0 where
  empty_list : Values
  iterator : List String → Values

pub record HttpOperation : Type 0 where
  pub operation : String
  pub path : String
  pub method : String
  pub query_args : Dict Values
  pub header_args : List String
  pub deprecated : Bool

-- `filter(None, v)` is without the empty values.
unfoldable pub not_empty : List String → List String
not_empty [] = []
not_empty (v ∷ vs) = let rest = not_empty vs in if str_eq v "" then rest else v ∷ rest

unfoldable pub filtered : Dict (List String) → Dict Values
filtered [] = []
filtered ((k, vs) ∷ args) = (k, iterator (not_empty vs)) ∷ filtered args

unfoldable pub add_query_arg : String → Dict Values → Dict Values
add_query_arg name args = if has name args then args else args ++ (name, empty_list) ∷ []

-- The loop over the required members.
unfoldable pub add_required :
    List RequiredMember → Dict Values × List String → Dict Values × List String
add_required [] args = args
add_required (m ∷ ms) (query, headers) = add_required ms (elim m.location [
  | none ↦ (query, headers)
  | some location ↦
      if str_eq location "header"
      then (query, headers ++ m.name ∷ [])
      else if str_eq location "querystring"
      then (add_query_arg m.name query, headers)
      else (query, headers)
])

-- The query of the request URI behind the path of the authentication, if there is one.
unfoldable pub uri_of : OperationModel → String
uri_of op = elim op.auth_path [
  | none ↦ op.request_uri
  | some path ↦
      if str_eq path ""
      then op.request_uri
      else String.◌++◌ (strip_right b'/' path) (
          if has_char b'?' op.request_uri
          then String.◌++◌ "?" ((split_at_first b'?' op.request_uri).1)
          else "")
]

abbrev pub first_part : List String → String
first_part [] = ""
first_part (p ∷ _) = p

unfoldable pub query_of : (String → Dict (List String)) → List String → Dict Values
query_of parse_qs (_ ∷ query ∷ _) = filtered (parse_qs query)
query_of parse_qs _ = []

unfoldable pub from_operation : (String → Dict (List String)) → OperationModel → HttpOperation
from_operation parse_qs op =
    let parts = split b'?' (uri_of op) in
    let (query, headers) = add_required op.required_members (query_of parse_qs parts, []) in
    record {
      operation = op.name;
      path = first_part parts;
      method = op.method;
      query_args = query;
      header_args = headers;
      deprecated = op.deprecated;
    }

-- _RequiredArgsRule
pub record RequiredArgsRule : Type 0 where
  pub endpoint : String
  pub required_query_args : Dict Values
  pub required_header_args : List String
  pub match_score : ℕ

unfoldable pub required_args_rule : HttpOperation → RequiredArgsRule
required_args_rule op =
    let score = 10 + 10 * length op.query_args + 10 * length op.header_args in
    record {
      endpoint = op.operation;
      required_query_args = op.query_args;
      required_header_args = op.header_args;
      match_score = if op.deprecated then score - 5 else score;
    }

-- What the rules read of a request; the names of headers are compared as werkzeug does.
pub record Request : Type 0 where
  pub method : String
  pub raw_path : String
  pub args : Dict (List String)
  pub has_header : String → Bool

abbrev pub getlist : String → Dict (List String) → List String
getlist k args = elim (lookup k args) [ none ↦ [] | some vs ↦ vs ]

-- The loop over the required values takes each out of the iterator, also the one that is missing.
unfoldable pub take_values : List String → List String → Bool × List String
take_values [] given = (true, [])
take_values (v ∷ vs) given =
    let rest = take_values vs given in if contains v given then rest else (false, vs)

unfoldable pub match_values : Values → List String → Bool × Values
match_values empty_list given = (true, empty_list)
match_values (iterator vs) given =
    let (found, left) = take_values vs given in (found, iterator left)

-- The loop over the required arguments, up to the first that does not match.
unfoldable pub match_query : Dict Values → Dict (List String) → Bool × Dict Values
match_query [] args = (true, [])
match_query ((k, vs) ∷ required) args =
    let (matched, left) = match_values vs (getlist k args) in
    let (all_matched, others) = match_query required args in
    if not (has k args)
    then (false, (k, vs) ∷ required)
    else if matched
    then (all_matched, (k, left) ∷ others)
    else (false, (k, left) ∷ required)

unfoldable pub match_headers : List String → (String → Bool) → Bool
match_headers [] has_header = true
match_headers (k ∷ ks) has_header = has_header k && match_headers ks has_header

unfoldable pub matches : RequiredArgsRule → Request → Bool × RequiredArgsRule
matches r request =
    let (matched, left) = match_query r.required_query_args request.args in
    (
      matched && match_headers r.required_header_args request.has_header,
      record {
        endpoint = r.endpoint;
        required_query_args = left;
        required_header_args = r.required_header_args;
        match_score = r.match_score;
      },
    )

-- `sorted(rules, key=lambda rule: rule.match_score, reverse=True)`, which is stable.
unfoldable pub insert_rule : RequiredArgsRule → List RequiredArgsRule → List RequiredArgsRule
insert_rule r [] = r ∷ []
insert_rule r (s ∷ rules) =
    let rest = insert_rule r rules in
    if leb s.match_score r.match_score then r ∷ s ∷ rules else s ∷ rest

unfoldable pub sorted : List RequiredArgsRule → List RequiredArgsRule
sorted [] = []
sorted (r ∷ rules) = insert_rule r (sorted rules)

-- match_request: the endpoint of the first rule that matches, none for NotFound.
unfoldable pub match_request :
    List RequiredArgsRule → Request → Option RequiredArgsRule × List RequiredArgsRule
match_request [] request = (none, [])
match_request (r ∷ rules) request =
    let (matched, r') = matches r request in
    let (found, rules') = match_request rules request in
    if matched then (some r', r' ∷ rules) else (found, r' ∷ rules')
