-- ===== src/Cors/Decisions.antt =====
-- Which requests the enforcer blocks, of localstack-core/localstack/aws/handlers/cors.py.
use text.Mathlib.Text.{starts_with}
use localstack_bb.Base.{
  ℕ, String, ◌≡◌, ◌↔◌, refl, true, false, ◌||◌, ◌&&◌, not, Option, none, some, List, [], ◌∷◌, arith,
  Option-cases, Bool-cases, inl, inr, ◌⊎◌, any, str_eq, eq_iff,
}
use localstack_bb.Base.Text.{contains}
use localstack_bb.Cors.{
  Config, Request, terminated, enforce, should_enforce, is_execute_api_call, has_infix, is_service,
  is_cors_origin_allowed, is_in_allowed_origins, is_internal, match_dynamic, contains_port,
  nonempty, allowed_by,
}

-- A call of an API: by its host, or by its path in one of two forms.
abbrev pub IsExecuteApi : Request → Type 0
IsExecuteApi r =
    (has_infix ".execute-api." r.host ≡ true)
    ⊎ (((starts_with r.path "/restapis/" ≡ true) × (has_infix "/_user_request_" r.path ≡ true))
        ⊎ (starts_with r.path "/_aws/execute-api" ≡ true))

-- The rules of the service itself are on: those of S3 for its requests, or those of API gateways for
-- calls of an API.
abbrev pub SelfManaged : Config → Request → Type 0
SelfManaged c r =
    ((c.disable_custom_cors_s3 ≡ false) × (r.service_name ≡ some "s3"))
    ⊎ ((c.disable_custom_cors_apigateway ≡ false) × IsExecuteApi r)

abbrev IsPort : Config → Option ℕ → Type 0
IsPort c none = Unit {0}
IsPort c (some p) = contains_port p c.allowed_internal_ports ≡ true

-- The origin is that of a website behind the infix: an internal domain, with an internal port or none.
abbrev pub IsInternal : Config → String → String → Type 0
IsInternal c infix_text o =
    (domain : String) × ((port : Option ℕ) × ((match_dynamic infix_text o ≡ some (domain, port))
        × ((contains domain c.allowed_internal_domains ≡ true) × IsPort c port)))

-- All origins are allowed, or this one is listed or internal.
abbrev pub IsAllowed : Config → String → Type 0
IsAllowed c o =
    (contains "*" c.allowed_cors_origins ≡ true)
    ⊎ ((contains o c.allowed_cors_origins ≡ true)
        ⊎ (IsInternal c ".s3-website." o ⊎ IsInternal c ".cloudfront." o))

-- The origin that a request names, or else that of its referer.
abbrev pub IsNamed : Config → Request → String → Type 0
IsNamed c r o =
    (nonempty r.origin ≡ some o)
    ⊎ ((nonempty r.origin ≡ none)
        × ((referer : String) × ((nonempty r.referer ≡ some referer)
              × (c.referer_origin referer ≡ o))))

any-listed :
    (o : String) (origins : List String)
    → any (λ allowed. str_eq allowed "*" || str_eq o allowed) origins
      ≡ (contains "*" origins || contains o origins)
unfolding contains
any-listed o [] = refl
any-listed o (x ∷ origins) = ground (arith, any-listed o origins, eq_iff x "*", eq_iff "*" x)

IsInternal-sound :
    (c : Config) (infix_text o : String) (m : Option (String × Option ℕ))
    → match_dynamic infix_text o ≡ m
    → is_internal c m ≡ true
    → IsInternal c infix_text o
IsInternal-sound c i o none e h = absurd (ground arith)
IsInternal-sound c i o (some (domain, none)) e h = (domain, (none, (e, (h, tt))))
IsInternal-sound c i o (some (domain, some p)) e h =
    (domain, (some p, (e, (ground arith, ground arith))))

internal_port :
    (c : Config) (domain : String) (port : Option ℕ)
    → contains domain c.allowed_internal_domains ≡ true
    → IsPort c port
    → is_internal c (some (domain, port)) ≡ true
internal_port c domain none h p = h
internal_port c domain (some n) h p = rw (h, p) refl

internal_complete :
    (c : Config) (infix_text o : String)
    → IsInternal c infix_text o
    → is_internal c (match_dynamic infix_text o) ≡ true
internal_complete c i o (domain, (port, (e, (h, p)))) = rw e (internal_port c domain port h p)

IsAllowed-sound : (c : Config) (o : String) → is_in_allowed_origins c o ≡ true → IsAllowed c o
unfolding is_in_allowed_origins
IsAllowed-sound c o h = elim (Bool-cases (contains "*" c.allowed_cors_origins)) [
  | inl e ↦ inl e
  | inr e ↦ elim (Bool-cases (contains o c.allowed_cors_origins)) [
    | inl f ↦ inr (inl f)
    | inr f ↦ elim (Bool-cases (is_internal c (match_dynamic ".s3-website." o))) [
      | inl g ↦
          inr (
            inr (inl (IsInternal-sound c ".s3-website." o (match_dynamic ".s3-website." o) refl g)))
      | inr g ↦ inr (
          inr (
            inr (
              IsInternal-sound c ".cloudfront." o (match_dynamic ".cloudfront." o) refl
                (ground (arith, any-listed o c.allowed_cors_origins)))))
    ]
  ]
]

allowed_complete : (c : Config) (o : String) → IsAllowed c o → is_in_allowed_origins c o ≡ true
unfolding is_in_allowed_origins
allowed_complete c o (inl e) = ground (arith, any-listed o c.allowed_cors_origins)
allowed_complete c o (inr (inl e)) = ground (arith, any-listed o c.allowed_cors_origins)
allowed_complete c o (inr (inr (inl e))) =
    let h = internal_complete c ".s3-website." o e in ground arith
allowed_complete c o (inr (inr (inr e))) =
    let h = internal_complete c ".cloudfront." o e in ground arith

is_execute_api_call-IsExecuteApi : (r : Request) → is_execute_api_call r ≡ true → IsExecuteApi r
unfolding is_execute_api_call
is_execute_api_call-IsExecuteApi r h = elim (Bool-cases (has_infix ".execute-api." r.host)) [
  | inl e ↦ inl e
  | inr e ↦ elim (Bool-cases (starts_with r.path "/_aws/execute-api")) [
    | inl f ↦ inr (inr f)
    | inr f ↦ inr (inl (ground arith, ground arith))
  ]
]

IsExecuteApi-execute_api : (r : Request) → IsExecuteApi r → is_execute_api_call r ≡ true
unfolding is_execute_api_call
IsExecuteApi-execute_api r (inl e) = ground arith
IsExecuteApi-execute_api r (inr (inl (e, f))) = ground arith
IsExecuteApi-execute_api r (inr (inr e)) = ground arith

is_service-name : (name : String) (s : Option String) → is_service name s ≡ true → s ≡ some name
is_service-name name none h = absurd (ground arith)
is_service-name name (some s) h = ground (arith, eq_iff s name)

self_managed : (c : Config) (r : Request) → SelfManaged c r → should_enforce c r ≡ false
unfolding should_enforce
self_managed c r (inl (e, f)) = ground (arith, eq_iff "s3" "s3")
self_managed c r (inr (e, f)) = let h = IsExecuteApi-execute_api r f in ground arith

not_enforced : (c : Config) (r : Request) → should_enforce c r ≡ false → SelfManaged c r
unfolding should_enforce
not_enforced c r h =
    elim (Bool-cases (not c.disable_custom_cors_s3 && is_service "s3" r.service_name)) [
      | inl e ↦ inl (ground arith, is_service-name "s3" r.service_name (ground arith))
      | inr e ↦ inr (ground arith, is_execute_api_call-IsExecuteApi r (ground arith))
    ]

not_allowed : (c : Config) (o : String) → ¬ IsAllowed c o → is_in_allowed_origins c o ≡ false
not_allowed c o n = elim (Bool-cases (is_in_allowed_origins c o)) [
  | inl e ↦ absurd (n (IsAllowed-sound c o e))
  | inr e ↦ e
]

refused-IsAllowed : (c : Config) (o : String) → is_in_allowed_origins c o ≡ false → ¬ IsAllowed c o
refused-IsAllowed c o h a = let k = allowed_complete c o a in ground arith

-- The request names an origin that is not allowed.
abbrev pub Disallowed : Config → Request → Type 0
Disallowed c r = (o : String) × (IsNamed c r o × (¬ IsAllowed c o))

Disallowed-refused :
    (c : Config) (r : Request) → Disallowed c r → is_cors_origin_allowed c r ≡ false
unfolding is_cors_origin_allowed
Disallowed-refused c r (o, (inl e, n)) = rw (e, allowed_by) (not_allowed c o n)
Disallowed-refused c r (o, (inr (e, (referer, (f, g))), n)) =
    rw (e, f, allowed_by) (rw g (not_allowed c o n))

refused-Disallowed :
    (c : Config) (r : Request) → is_cors_origin_allowed c r ≡ false → Disallowed c r
unfolding is_cors_origin_allowed
refused-Disallowed c r h = elim (Option-cases (nonempty r.origin)) [
  | inr (o, e) ↦ (o, (inl e, refused-IsAllowed c o (ground arith)))
  | inl e ↦ elim (Option-cases (nonempty r.referer)) [
    | inr (x, f) ↦ (
      c.referer_origin x,
      (inr (e, (x, (f, refl))), refused-IsAllowed c (c.referer_origin x) (ground arith)),
    )
    | inl f ↦ absurd (ground arith)
  ]
]

enforce_refused :
    (c : Config) (r : Request)
    → enforce c r ≡ terminated 403
    → (should_enforce c r ≡ true)
      × ((c.disable_cors_checks ≡ false) × (is_cors_origin_allowed c r ≡ false))
unfolding enforce
enforce_refused c r h = (ground arith, (ground arith, ground arith))

-- A request is blocked just if its service does not manage its own rules, the checks are on, and the
-- origin that it names, or else that of its referer, is not allowed: not all origins are, it is not
-- listed, and it is not that of a website with an internal domain and an internal port or none.
pub enforce_blocks :
    (c : Config) (r : Request)
    → (enforce c r ≡ terminated 403)
      ↔ ((¬ SelfManaged c r) × ((c.disable_cors_checks ≡ false) × Disallowed c r))
unfolding enforce
enforce_blocks c r = (
  λ h.
      let (a, (b, d)) = enforce_refused c r h in
      ((λ s. let n = self_managed c r s in absurd (ground arith)), (b, refused-Disallowed c r d)),
  λ (a, (b, d)).
      let e = Disallowed-refused c r d in
      elim (Bool-cases (should_enforce c r)) [
        | inl f ↦ ground arith
        | inr f ↦ absurd (a (not_enforced c r f))
      ],
)
