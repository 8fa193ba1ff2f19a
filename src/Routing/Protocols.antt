-- ===== src/Routing/Protocols.antt =====
-- match_available_protocols and determine_aws_protocol of
-- localstack-core/localstack/aws/protocol/service_router.py.
use localstack_bb.Base.{
  String, ◌≡◌, refl, subst, any, Bool, true, false, ◌&&◌, ◌||◌, Option, none, some, List, [], ◌∷◌,
  arith, str_eq, if◌then◌else◌, Bool-cases, inl, inr,
}
use localstack_bb.Base.Result.{Result, ok, err}
use localstack_bb.Base.Text.{contains}
use localstack_bb.Routing.{ServiceModel, Request, RouteError, protocol_error}
use text.Mathlib.Text.{starts_with}

abbrev pub protocol_detection_priority : List String
protocol_detection_priority =
    "smithy-rpc-v2-cbor" ∷ "json" ∷ "query" ∷ "ec2" ∷ "rest-json" ∷ "rest-xml" ∷ []

unfoldable pub matches_protocol : Request → String → Bool
matches_protocol r protocol =
    if str_eq protocol "smithy-rpc-v2-cbor"
    then str_eq r.smithy_protocol "rpc-v2-cbor"
    else if str_eq protocol "json"
    then starts_with r.mimetype "application/x-amz-json"
    else if str_eq protocol "query" || str_eq protocol "ec2"
    then starts_with r.mimetype "application/x-www-form-urlencoded" || r.has_action
    else str_eq protocol "rest-xml" || str_eq protocol "rest-json"

-- The loop over the protocols in their priority.
unfoldable pub first_match : Request → List String → List String → Option String
first_match r available [] = none
first_match r available (p ∷ ps) =
    let rest = first_match r available ps in
    if contains p available && matches_protocol r p then some p else rest

unfoldable pub match_available_protocols : Request → List String → Option String
match_available_protocols r available = first_match r available protocol_detection_priority

unfoldable pub or_protocol_error : Option String → Result RouteError String
or_protocol_error none = err protocol_error
or_protocol_error (some p) = ok p

unfoldable pub choose : Request → String → Option (List String) → Result RouteError String
choose r protocol none = ok protocol
choose r protocol (some []) = ok protocol
choose r protocol (some (p ∷ [])) = ok p
choose r protocol (some (p ∷ q ∷ ps)) = or_protocol_error (match_available_protocols r (p ∷ q ∷ ps))

unfoldable pub determine_aws_protocol : Request → ServiceModel → Result RouteError String
determine_aws_protocol r m = choose r m.protocol m.protocols

-- A protocol that the loop may take.
unfoldable pub fits : Request → List String → String → Bool
fits r available p = contains p available && matches_protocol r p

-- `p` stands in the list behind protocols that do not fit, and fits.
pub data IsFirst (r : Request) (available : List String) (p : String) : List String → Type 0 where
  here : {ps : List String} → fits r available p ≡ true → IsFirst r available p (p ∷ ps)
  later :
      {q : String} {ps : List String}
      → fits r available q ≡ false
      → IsFirst r available p ps
      → IsFirst r available p (q ∷ ps)

first_match-IsFirst :
    (r : Request) (available ps : List String) (p : String)
    → first_match r available ps ≡ some p
    → IsFirst r available p ps
unfolding first_match fits
first_match-IsFirst r available [] p h = absurd (ground arith)
first_match-IsFirst r available (q ∷ ps) p h = elim (Bool-cases (fits r available q)) [
  | inl e ↦ subst (λ x. IsFirst r available p (x ∷ ps)) (ground arith) (here (ground arith))
  | inr e ↦ later e (first_match-IsFirst r available ps p (ground arith))
]

first_match-none :
    (r : Request) (available ps : List String)
    → first_match r available ps ≡ none
    → any (fits r available) ps ≡ false
unfolding first_match fits
first_match-none r available [] h = refl
first_match-none r available (q ∷ ps) h = ground (arith, first_match-none r available ps)

-- What the answer for a model with several protocols means.
abbrev pub IsChoice : Request → List String → Result RouteError String → Type 0
IsChoice r protocols (ok p) = IsFirst r protocols p protocol_detection_priority
IsChoice r protocols (err e) =
    (e ≡ protocol_error) × (any (fits r protocols) protocol_detection_priority ≡ false)

or_protocol_error-IsChoice :
    (r : Request) (protocols : List String) (o : Option String)
    → match_available_protocols r protocols ≡ o
    → IsChoice r protocols (or_protocol_error o)
unfolding or_protocol_error match_available_protocols
or_protocol_error-IsChoice r protocols none h =
    (refl, first_match-none r protocols protocol_detection_priority h)
or_protocol_error-IsChoice r protocols (some p) h =
    first_match-IsFirst r protocols protocol_detection_priority p h

-- For a model with more than one protocol, the answer is the first protocol in the order of priority
-- that the model has and that matches the request, or an error where there is none.
pub determine_aws_protocol-IsChoice :
    (r : Request) (m : ServiceModel) (p q : String) (ps : List String)
    → m.protocols ≡ some (p ∷ q ∷ ps)
    → IsChoice r (p ∷ q ∷ ps) (determine_aws_protocol r m)
unfolding determine_aws_protocol choose
determine_aws_protocol-IsChoice r m p q ps h =
    rw h (or_protocol_error-IsChoice r (p ∷ q ∷ ps) (match_available_protocols r (p ∷ q ∷ ps)) refl)
