-- ===== src/Routing/Loading.antt =====
-- load_service of localstack-core/localstack/aws/spec.py. The loader of botocore is a parameter: it
-- gives the description of a service by its name, none where it raises UnknownServiceError.
use localstack_bb.Base.{
  ℕ, zero, suc, String, ◌≡◌, refl, ap, true, Option, none, some, List, [], ◌∷◌, arith, str_eq,
  if◌then◌else◌, eq_iff, Bool-cases, inl, inr,
}
use localstack_bb.Base.Result.{Result, ok, err}
use localstack_bb.Base.Text.{contains}
use localstack_bb.Init.{ends_with}
use localstack_bb.Routing.{
  ServiceModel, RouteError, unknown_service, unknown_service_protocol, out_of_fuel, attribute_error,
  protocol_error,
}
use Prim.Native.String
use text.Mathlib.TextLemmas.{nil-append, cons-append}

abbrev or_empty : Option (List String) → List String
or_empty none = []
or_empty (some ps) = ps

-- `service_protocols`
unfoldable pub service_protocols : ServiceModel → List String
service_protocols m = m.protocol ∷ or_empty m.protocols

-- The name without a protocol in it.
unfoldable pub service_model : ServiceModel → String → ServiceModel
service_model m service = record {
  service_name = if str_eq service "sqs-query" then "sqs" else service;
  protocol = m.protocol;
  protocols = m.protocols;
  signing_name = m.signing_name;
  endpoint_prefix = m.endpoint_prefix;
  target_prefix = m.target_prefix;
  operation_names = m.operation_names;
  api_version = m.api_version;
}

unfoldable pub by_convention : String → String → String
by_convention service protocol = String.◌++◌ service (String.◌++◌ "-" protocol)

-- UnknownServiceProtocolError is an UnknownServiceError, so each error of the call is caught.
unfoldable pub or_unknown_protocol : Result RouteError ServiceModel → Result RouteError ServiceModel
or_unknown_protocol (ok m) = ok m
or_unknown_protocol (err out_of_fuel) = err out_of_fuel
or_unknown_protocol (err _) = err unknown_service_protocol

-- What is done with the description; `again` is the call for the name by convention.
unfoldable pub checked :
    String
    → String
    → Option ServiceModel
    → Result RouteError ServiceModel
    → Result RouteError ServiceModel
checked service protocol none again = err unknown_service
checked service protocol (some m) again =
    if contains protocol (service_protocols m)
    then ok (service_model m service)
    else if ends_with (String.◌++◌ "-" protocol) service
    then err unknown_service_protocol
    else or_unknown_protocol again

module _ (load_service_model : String → Option ServiceModel) where
  unfoldable pub load_service : ℕ → String → Option String → Result RouteError ServiceModel
  load_service zero service protocol = err out_of_fuel
  load_service (suc n) service none = elim (load_service_model service) [
    | none ↦ err unknown_service
    | some m ↦ ok (service_model m service)
  ]
  load_service (suc n) service (some protocol) =
      let again = load_service n (by_convention service protocol) (some protocol) in
      checked service protocol (load_service_model service) again

-- A call by convention does not call again, so two calls are enough.
abbrev pub load :
    (String → Option ServiceModel) → String → Option String → Result RouteError ServiceModel
load load_service_model service protocol = load_service load_service_model 2 service protocol

ends_with_self : (s : String) → ends_with s s ≡ true
unfolding ends_with
ends_with_self String.[] = ground (arith, eq_iff "" "")
ends_with_self (String.◌∷◌ c s) = ground (arith, eq_iff (String.◌∷◌ c s) (String.◌∷◌ c s))

ends_with-append : (s t : String) → ends_with t (String.◌++◌ s t) ≡ true
unfolding ends_with
ends_with-append String.[] t = rw nil-append (ends_with_self t)
ends_with-append (String.◌∷◌ c s) t = rw (cons-append c s t) (ground (arith, ends_with-append s t))

-- Where the name follows the convention, the second call is not made.
checked-convention :
    (service protocol : String) (m : Option ServiceModel) (a b : Result RouteError ServiceModel)
    → checked (by_convention service protocol) protocol m a
      ≡ checked (by_convention service protocol) protocol m b
unfolding checked by_convention
checked-convention service protocol none a b = refl
checked-convention service protocol (some m) a b =
    elim (Bool-cases (contains protocol (service_protocols m))) [
      | inl e ↦ rw e refl
      | inr e ↦ rw (e, ends_with-append service (String.◌++◌ "-" protocol)) refl
    ]

-- More than two calls make no difference.
pub load_service_enough :
    (load_service_model : String → Option ServiceModel) (n : ℕ) (service : String)
    (protocol : Option String)
    → load_service load_service_model (suc (suc n)) service protocol
      ≡ load load_service_model service protocol
unfolding load_service
load_service_enough f n service none = refl
load_service_enough f n service (some protocol) =
    let name = by_convention service protocol in
    ap (checked service protocol (f service)) (
      checked-convention service protocol (f name)
        (load_service f n (by_convention name protocol) (some protocol))
        (load_service f 0 (by_convention name protocol) (some protocol)))

or_unknown_protocol-ok :
    (again : Result RouteError ServiceModel) (r : ServiceModel)
    → or_unknown_protocol again ≡ ok r
    → again ≡ ok r
unfolding or_unknown_protocol
or_unknown_protocol-ok (ok m) r h = h
or_unknown_protocol-ok (err unknown_service) r h = ground arith
or_unknown_protocol-ok (err unknown_service_protocol) r h = ground arith
or_unknown_protocol-ok (err attribute_error) r h = ground arith
or_unknown_protocol-ok (err protocol_error) r h = ground arith
or_unknown_protocol-ok (err out_of_fuel) r h = ground arith

service_protocols-model :
    (m : ServiceModel) (service : String)
    → service_protocols (service_model m service) ≡ service_protocols m
unfolding service_protocols service_model
service_protocols-model m service = refl

checked-declares :
    (service protocol : String) (m : Option ServiceModel) (r : ServiceModel)
    (again : Result RouteError ServiceModel)
    → (again ≡ ok r → contains protocol (service_protocols r) ≡ true)
    → checked service protocol m again ≡ ok r
    → contains protocol (service_protocols r) ≡ true
unfolding checked
checked-declares service protocol none r again ih h = ground arith
checked-declares service protocol (some m) r again ih h =
    elim (Bool-cases (contains protocol (service_protocols m))) [
      | inl e ↦ ground (arith, service_protocols-model m service)
      | inr e ↦ ground (arith, service_protocols-model m service, or_unknown_protocol-ok again r)
    ]

-- A model that is loaded for a protocol declares the protocol.
pub load_service-declares :
    (load_service_model : String → Option ServiceModel) (n : ℕ) (service protocol : String)
    (m : ServiceModel)
    → load_service load_service_model n service (some protocol) ≡ ok m
    → contains protocol (service_protocols m) ≡ true
unfolding load_service
load_service-declares f zero service protocol m h = ground arith
load_service-declares f (suc n) service protocol m h =
    checked-declares service protocol (f service) m
      (load_service f n (by_convention service protocol) (some protocol))
      (load_service-declares f n (by_convention service protocol) protocol m) h
