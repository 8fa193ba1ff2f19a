-- ===== src/OpRouter/Matching.antt =====
-- The rules that the arguments of a request match, and what they forget,
-- of localstack-core/localstack/aws/protocol/op_router.py.
use localstack_bb.Base.{
  String, ◌≡◌, refl, ap, Bool, true, ◌&&◌, List, [], ◌∷◌, arith, Bool-cases, inl, inr, all,
}
use localstack_bb.Base.Dict.{Dict, has}
use localstack_bb.Base.Text.{contains}
use localstack_bb.OpRouter.{
  Values, empty_list, iterator, RequiredArgsRule, Request, getlist, take_values, match_values,
  match_query, match_headers, matches,
}

-- The values that are left in an iterator are all given.
unfoldable pub accepts_values : Values → List String → Bool
accepts_values empty_list given = true
accepts_values (iterator vs) given = all (λ v. contains v given) vs

unfoldable pub accepts_query : Dict Values → Dict (List String) → Bool
accepts_query [] args = true
accepts_query ((k, vs) ∷ required) args =
    has k args && (accepts_values vs (getlist k args) && accepts_query required args)

-- All required arguments, with the values that are left, and all required headers are there.
unfoldable pub accepts : RequiredArgsRule → Request → Bool
accepts r request =
    accepts_query r.required_query_args request.args
    && match_headers r.required_header_args request.has_header

-- All required arguments are there, with any values, and all required headers.
unfoldable pub names_given : Dict Values → Dict (List String) → Bool
names_given [] args = true
names_given ((k, vs) ∷ required) args = has k args && names_given required args

take_values-all :
    (vs given : List String) → (take_values vs given).0 ≡ all (λ v. contains v given) vs
unfolding take_values
take_values-all [] given = refl
take_values-all (v ∷ vs) given = ground (arith, take_values-all vs given)

match_values-accepts :
    (vs : Values) (given : List String) → (match_values vs given).0 ≡ accepts_values vs given
unfolding match_values accepts_values
match_values-accepts empty_list given = refl
match_values-accepts (iterator vs) given = take_values-all vs given

match_query-accepts :
    (required : Dict Values) (args : Dict (List String))
    → (match_query required args).0 ≡ accepts_query required args
unfolding match_query accepts_query
match_query-accepts [] args = refl
match_query-accepts ((k, vs) ∷ required) args =
    ground (arith, match_values-accepts vs (getlist k args), match_query-accepts required args)

pub matches-accepts :
    (r : RequiredArgsRule) (request : Request) → (matches r request).0 ≡ accepts r request
unfolding matches accepts
matches-accepts r request =
    ap (λ b. b && match_headers r.required_header_args request.has_header)
      (match_query-accepts r.required_query_args request.args)

take_values-left :
    (vs given : List String) → (take_values vs given).0 ≡ true → (take_values vs given).1 ≡ []
unfolding take_values
take_values-left [] given h = refl
take_values-left (v ∷ vs) given h = ground (arith, take_values-left vs given)

match_values_forgets :
    (vs : Values) (given given' : List String)
    → (match_values vs given).0 ≡ true
    → accepts_values (match_values vs given).1 given' ≡ true
unfolding match_values accepts_values
match_values_forgets empty_list given given' h = refl
match_values_forgets (iterator vs) given given' h = rw (take_values-left vs given h) refl

match_query_forgets :
    (required : Dict Values) (args args' : Dict (List String))
    → (match_query required args).0 ≡ true
    → accepts_query (match_query required args).1 args' ≡ names_given required args'
unfolding match_query accepts_query names_given
match_query_forgets [] args args' h = refl
match_query_forgets ((k, vs) ∷ required) args args' h = elim (Bool-cases (has k args)) [
  | inr e ↦ absurd (ground arith)
  | inl e ↦ elim (Bool-cases ((match_values vs (getlist k args)).0)) [
    | inr f ↦ absurd (ground arith)
    | inl f ↦
        rw (e, f)
          (rw
            (
              match_values_forgets vs (getlist k args) (getlist k args') f,
              match_query_forgets required args args' (rw (e, f) at h),
            )
            refl)
  ]
]

forgets :
    (r : RequiredArgsRule) (request next : Request)
    → (match_query r.required_query_args request.args).0 ≡ true
    → accepts (matches r request).1 next ≡ (
        names_given r.required_query_args next.args
        && match_headers r.required_header_args next.has_header)
unfolding accepts matches
forgets r request next h =
    ap (λ b. b && match_headers r.required_header_args next.has_header)
      (match_query_forgets r.required_query_args request.args next.args h)

-- Once a rule has matched a request, it never looks at values again: the next request matches it just
-- if it has the required arguments, with any values, and the required headers.
pub matches_forgets :
    (r : RequiredArgsRule) (request next : Request)
    → (matches r request).0 ≡ true
    → (matches (matches r request).1 next).0 ≡ (
        names_given r.required_query_args next.args
        && match_headers r.required_header_args next.has_header)
matches_forgets r request next h =
    rw (matches-accepts (matches r request).1 next)
      (forgets r request next (unfold matches in (ground arith)))
