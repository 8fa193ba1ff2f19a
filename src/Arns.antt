-- ===== src/Arns.antt =====
-- localstack-core/localstack/utils/aws/arns.py: partitions and the generic builder of ARNs. A pattern
-- is its pieces between the places `%s`: the literals of the source are `regional`, with four places,
-- and `global`, with three, which leaves out the region; `prefix` and `suffix` stand around the name in
-- the resource.
pub mod Builders
pub mod Fields
mod Tests
use mathlib.Core.Option
use Prim.Native.String
use text.Mathlib.Text.{starts_with}
use localstack_bb.Base.{
  ℕ, zero, suc, String, Bool, true, false, ◌&&◌, not, Option, none, some, List, [], ◌∷◌,
  if◌then◌else◌, str_eq, length, ◌==◌,
}
use localstack_bb.Base.Text.{contains, no_colon}

infixr 60 ◌⊕◌
abbrev pub ◌⊕◌ : String → String → String
s ⊕ t = String.◌++◌ s t

abbrev pub default_partition : String
default_partition = "aws"

abbrev pub region_prefix_to_partition : List (String × String)
region_prefix_to_partition =
    ("cn-", "aws-cn")
    ∷ ("us-gov-", "aws-us-gov")
    ∷ ("us-iso-", "aws-iso")
    ∷ ("us-isob-", "aws-iso-b")
    ∷ ("eusc-", "aws-eusc")
    ∷ []

abbrev pub partition_names : List String
partition_names =
    "aws-cn" ∷ "aws-us-gov" ∷ "aws-iso" ∷ "aws-iso-b" ∷ "aws-eusc" ∷ default_partition ∷ []

unfoldable pub partition_by_prefix : String → List (String × String) → String
partition_by_prefix region [] = default_partition
partition_by_prefix region ((prefix, partition) ∷ rest) =
    if starts_with region prefix then partition else partition_by_prefix region rest

-- `get_partition`, where no region is the empty text.
unfoldable pub get_partition : String → String
get_partition region =
    if str_eq region ""
    then default_partition
    else (if contains region partition_names
        then region
        else partition_by_prefix region region_prefix_to_partition)

-- `pattern.split("%s")`
abbrev pub Pattern : Type 0
Pattern = List String

abbrev pub regional : (service prefix suffix : String) → Pattern
regional service prefix suffix = "arn:" ∷ (":" ⊕ service ⊕ ":") ∷ ":" ∷ (":" ⊕ prefix) ∷ suffix ∷ []

abbrev pub global : (service prefix suffix : String) → Pattern
global service prefix suffix = "arn:" ∷ (":" ⊕ service ⊕ "::") ∷ (":" ⊕ prefix) ∷ suffix ∷ []

-- `f"arn:{partition}:{service}:{region}:{account}:{resource}"`
abbrev pub format_arn : (partition service region account resource : String) → String
format_arn partition service region account resource =
    "arn" ⊕ ":" ⊕ partition ⊕ ":" ⊕ service ⊕ ":" ⊕ region ⊕ ":" ⊕ account ⊕ ":" ⊕ resource

-- `pattern % values`, which raises a TypeError where the values are too few or too many.
unfoldable pub fill : Pattern → List String → Option String
fill (p ∷ []) [] = some p
fill (p ∷ q ∷ ps) (v ∷ vs) = Option.map (λ rest. p ⊕ v ⊕ rest) (fill (q ∷ ps) vs)
fill _ _ = none

unfoldable pub apply_pattern : Pattern → (name account_id region_name : String) → Option String
apply_pattern pattern name account_id region_name =
    let partition = get_partition region_name in
    if length pattern == 4
    then fill pattern (partition ∷ account_id ∷ name ∷ [])
    else fill pattern (partition ∷ region_name ∷ account_id ∷ name ∷ [])

-- `_resource_arn`: a name with a colon is taken to be an ARN, unless colons are allowed.
unfoldable pub resource_arn :
    Bool → Pattern → (name account_id region_name : String) → Option String
resource_arn allow_colons pattern name account_id region_name =
    if not (no_colon name) && not allow_colons
    then some name
    else apply_pattern pattern name account_id region_name
