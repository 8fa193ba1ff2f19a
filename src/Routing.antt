-- ===== src/Routing.antt =====
-- How the service of a request is found: localstack-core/localstack/aws/spec.py and
-- localstack-core/localstack/aws/protocol/service_router.py. Service models are data of botocore.
pub mod Catalog
pub mod Indicators
pub mod Loading
pub mod Protocols
pub mod Rules
pub mod Service
pub mod Forms
pub mod Targets
pub mod Uniques
mod Tests
use localstack_bb.Base.{
  ℕ, String, Bool, true, false, ◌&&◌, Option, none, some, List, [], ◌∷◌, str_eq,
}
use localstack_bb.Base.Dict.{Dict}

pub record ServiceModelIdentifier : Type 0 where
  pub name : String
  pub protocol : Option String
  pub protocols : Option (List String)

-- What the router reads of a model of botocore.
pub record ServiceModel : Type 0 where
  pub service_name : String
  pub protocol : String
  pub protocols : Option (List String)
  pub signing_name : String
  pub endpoint_prefix : String
  pub target_prefix : Option String
  pub operation_names : List String
  pub api_version : String

-- What the router reads of a request. `mimetype` is in lower case, as werkzeug gives it; `values` is
-- absent where the form cannot be parsed, which raises RequestEntityTooLarge.
pub record Request : Type 0 where
  pub x_amz_target : Option String
  pub authorization : Option String
  pub smithy_protocol : String
  pub mimetype : String
  pub has_action : Bool
  pub host : String
  pub path : String
  pub shallow : Bool
  pub values : Option (Dict String)

pub data RouteError : Type 0 where
  unknown_service unknown_service_protocol attribute_error protocol_error out_of_fuel : RouteError

abbrev pub option_eq : Option String → Option String → Bool
option_eq none none = true
option_eq (some a) (some b) = str_eq a b
option_eq _ _ = false

unfoldable pub texts_eq : List String → List String → Bool
texts_eq [] [] = true
texts_eq (a ∷ xs) (b ∷ ys) = str_eq a b && texts_eq xs ys
texts_eq _ _ = false

abbrev pub lists_eq : Option (List String) → Option (List String) → Bool
lists_eq none none = true
lists_eq (some a) (some b) = texts_eq a b
lists_eq _ _ = false

-- Equality of the named tuples, as a set has it.
abbrev pub same_identifier : ServiceModelIdentifier → ServiceModelIdentifier → Bool
same_identifier a b =
    str_eq a.name b.name && (option_eq a.protocol b.protocol && lists_eq a.protocols b.protocols)

abbrev pub named : String → ServiceModelIdentifier
named name = record { name = name; protocol = none; protocols = none }
