-- ===== src/OpRouter/Best.antt =====
-- The rule that a request is matched to, of those that it matches,
-- of localstack-core/localstack/aws/protocol/op_router.py.
use localstack_bb.Base.{
  ℕ, ◌≤◌, String, ◌≡◌, refl, sym, ap, ◌∙◌, Option, none, some, List, [], ◌∷◌, arith, leb,
  if◌then◌else◌, Bool-cases, inl, inr, All,
}
use localstack_bb.OpRouter.{RequiredArgsRule, Request, matches, insert_rule, sorted, match_request}
use localstack_bb.OpRouter.Matching.{accepts, matches-accepts}

abbrev pub endpoint_of : Option RequiredArgsRule → Option String
endpoint_of none = none
endpoint_of (some r) = some r.endpoint

-- The better of a rule and one that is declared behind it.
abbrev pub better : RequiredArgsRule → Option RequiredArgsRule → Option RequiredArgsRule
better r none = some r
better r (some s) = if leb s.match_score r.match_score then some r else some s

-- Of the rules that the request matches, the one of the highest score, and of these the first.
unfoldable pub best : Request → List RequiredArgsRule → Option RequiredArgsRule
best request [] = none
best request (r ∷ rules) =
    if accepts r request then better r (best request rules) else best request rules

unfoldable first_accepting : Request → List RequiredArgsRule → Option RequiredArgsRule
first_accepting request [] = none
first_accepting request (r ∷ rules) =
    if accepts r request then some r else first_accepting request rules

abbrev IsBelow : ℕ → RequiredArgsRule → Type 0
IsBelow n s = s.match_score ≤ n

abbrev IsDescending : List RequiredArgsRule → Type 0
IsDescending [] = Unit {0}
IsDescending (r ∷ rules) = All (IsBelow r.match_score) rules × IsDescending rules

insert_rule-All :
    (n : ℕ) (r : RequiredArgsRule) (rules : List RequiredArgsRule)
    → r.match_score ≤ n
    → All (IsBelow n) rules
    → All (IsBelow n) (insert_rule r rules)
unfolding insert_rule
insert_rule-All n r [] h k = (h, tt)
insert_rule-All n r (s ∷ rules) h k = elim (Bool-cases (leb s.match_score r.match_score)) [
  | inl e ↦ rw e (h, k)
  | inr e ↦ rw e (k.0, insert_rule-All n r rules h k.1)
]

All-IsBelow :
    (n m : ℕ) (rules : List RequiredArgsRule)
    → n ≤ m
    → All (IsBelow n) rules
    → All (IsBelow m) rules
All-IsBelow n m [] h k = tt
All-IsBelow n m (s ∷ rules) h (k, ks) = (omega arith, All-IsBelow n m rules h ks)

insert_rule-IsDescending :
    (r : RequiredArgsRule) (rules : List RequiredArgsRule)
    → IsDescending rules
    → IsDescending (insert_rule r rules)
unfolding insert_rule
insert_rule-IsDescending r [] h = (tt, tt)
insert_rule-IsDescending r (s ∷ rules) (h, hs) =
    elim (Bool-cases (leb s.match_score r.match_score)) [
      | inl e ↦
          rw e (
            (ground arith, All-IsBelow s.match_score r.match_score rules (ground arith) h),
            (h, hs),
          )
      | inr e ↦ rw e (
        insert_rule-All s.match_score r rules (ground arith) h,
        insert_rule-IsDescending r rules hs,
      )
    ]

sorted-IsDescending : (rules : List RequiredArgsRule) → IsDescending (sorted rules)
unfolding sorted
sorted-IsDescending [] = tt
sorted-IsDescending (r ∷ rules) =
    insert_rule-IsDescending r (sorted rules) (sorted-IsDescending rules)

-- A rule that stands above all others is better than what is found among them.
better-below :
    (request : Request) (r : RequiredArgsRule) (rules : List RequiredArgsRule)
    → All (IsBelow r.match_score) rules
    → better r (first_accepting request rules) ≡ some r
unfolding first_accepting
better-below request r [] h = refl
better-below request r (s ∷ rules) (h, hs) = elim (Bool-cases (accepts s request)) [
  | inl e ↦ rw e (ground arith)
  | inr e ↦ rw e (better-below request r rules hs)
]

first_accepting-insert_rule :
    (request : Request) (r : RequiredArgsRule) (rules : List RequiredArgsRule)
    → IsDescending rules
    → first_accepting request (insert_rule r rules) ≡ (
        if accepts r request
        then better r (first_accepting request rules)
        else first_accepting request rules)
unfolding first_accepting insert_rule
first_accepting-insert_rule request r [] h = refl
first_accepting-insert_rule request r (s ∷ rules) (h, hs) =
    elim (Bool-cases (leb s.match_score r.match_score)) [
      | inl e ↦ rw e (
          ap (λ o. if accepts r request then o else first_accepting request (s ∷ rules))
            (sym (
              better-below request r (s ∷ rules)
                (ground arith, All-IsBelow s.match_score r.match_score rules (ground arith) h))))
      | inr e ↦ rw e (ground (arith, first_accepting-insert_rule request r rules hs))
    ]

first_accepting-sorted :
    (request : Request) (rules : List RequiredArgsRule)
    → first_accepting request (sorted rules) ≡ best request rules
unfolding best sorted
first_accepting-sorted request [] = unfold first_accepting in refl
first_accepting-sorted request (r ∷ rules) =
    first_accepting-insert_rule request r (sorted rules) (sorted-IsDescending rules)
    ∙ ap (λ o. if accepts r request then better r o else o) (first_accepting-sorted request rules)

match_request-first_accepting :
    (request : Request) (rules : List RequiredArgsRule)
    → endpoint_of (match_request rules request).0 ≡ endpoint_of (first_accepting request rules)
unfolding match_request first_accepting
match_request-first_accepting request [] = refl
match_request-first_accepting request (r ∷ rules) = elim (Bool-cases (accepts r request)) [
  | inl e ↦ rw (matches-accepts r request ∙ e) (rw e (unfold matches in refl))
  | inr e ↦ rw (matches-accepts r request ∙ e) (rw e (match_request-first_accepting request rules))
]

-- A request is matched to the operation of the rule that has the highest score among those whose
-- required arguments and headers it has, the first of these where several have it, and to none just
-- if there is no such rule.
pub match_request-best :
    (request : Request) (rules : List RequiredArgsRule)
    → endpoint_of (match_request (sorted rules) request).0 ≡ endpoint_of (best request rules)
match_request-best request rules =
    match_request-first_accepting request (sorted rules)
    ∙ ap endpoint_of (first_accepting-sorted request rules)
