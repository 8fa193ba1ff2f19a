-- ===== src/Arns/Fields.antt =====
-- The fields of a built ARN, as its splits at the colons give them.
use mathlib.Core.Option
use text.Mathlib.Text.{starts_with}
use text.Mathlib.TextLemmas.{nil-append, append_assoc}
use localstack_bb.Base.{
  ℕ, zero, suc, String, ◌≡◌, ◌∙◌, refl, sym, ap, Bool, true, none, some, List, [], ◌∷◌, All, str_eq,
  Bool-cases, inl, inr,
}
use localstack_bb.Base.Text.{contains, no_colon, split_once, split_once-append}
use localstack_bb.Arns.{
  default_partition, ◌⊕◌, Pattern, regional, global, fill, get_partition, partition_by_prefix,
  region_prefix_to_partition, partition_names, format_arn, apply_pattern, resource_arn,
}

-- The parts of a text at its first `n` colons.
unfoldable pub split_fields : ℕ → String → List String
split_fields zero s = s ∷ []
split_fields (suc n) s =
    (split_once s).0 ∷ elim (split_once s).1 [ none ↦ [] | some rest ↦ split_fields n rest ]

split_fields-append :
    (n : ℕ) (s t : String)
    → no_colon s ≡ true
    → split_fields (suc n) (s ⊕ ":" ⊕ t) ≡ s ∷ split_fields n t
unfolding split_fields
split_fields-append n s t h = rw (split_once-append s t h) refl

-- What holds of the known partitions, and of a region that is named like one, holds of the partition.
partition_by_prefix_by :
    (q : String → Bool) (region : String) (prefixes : List (String × String))
    → q default_partition ≡ true
    → All (λ p. q p.1 ≡ true) prefixes
    → q (partition_by_prefix region prefixes) ≡ true
unfolding partition_by_prefix
partition_by_prefix_by q region [] d a = d
partition_by_prefix_by q region ((prefix, partition) ∷ rest) d a =
    elim (Bool-cases (starts_with region prefix)) [
      | inl e ↦ rw e a.0
      | inr e ↦ rw e (partition_by_prefix_by q region rest d a.1)
    ]

get_partition_by :
    (q : String → Bool) (region : String)
    → q default_partition ≡ true
    → All (λ p. q p.1 ≡ true) region_prefix_to_partition
    → (contains region partition_names ≡ true → q region ≡ true)
    → q (get_partition region) ≡ true
unfolding get_partition
get_partition_by q region d a named = elim (Bool-cases (str_eq region "")) [
  | inl e ↦ rw e d
  | inr e ↦ elim (Bool-cases (contains region partition_names)) [
    | inl f ↦ rw (e, f) (named f)
    | inr f ↦ rw (e, f) (partition_by_prefix_by q region region_prefix_to_partition d a)
  ]
]

-- The partition of every region is one of the known ones.
pub get_partition_known : (region : String) → contains (get_partition region) partition_names ≡ true
unfolding contains
get_partition_known region =
    get_partition_by (λ p. contains p partition_names) region refl
      (refl, (refl, (refl, (refl, (refl, tt))))) (λ h. h)

get_partition-no_colon :
    (region : String) → no_colon region ≡ true → no_colon (get_partition region) ≡ true
unfolding no_colon
get_partition-no_colon region h =
    get_partition_by no_colon region refl (refl, (refl, (refl, (refl, (refl, tt))))) (λ _. h)

format_arn_fields :
    (p s r a x : String)
    → no_colon p ≡ true
    → no_colon s ≡ true
    → no_colon r ≡ true
    → no_colon a ≡ true
    → split_fields 5 (format_arn p s r a x) ≡ "arn" ∷ p ∷ s ∷ r ∷ a ∷ x ∷ []
unfolding no_colon split_fields
format_arn_fields p s r a x hp hs hr ha =
    split_fields-append 4 "arn" (p ⊕ ":" ⊕ s ⊕ ":" ⊕ r ⊕ ":" ⊕ a ⊕ ":" ⊕ x) refl
    ∙ ap (λ t. "arn" ∷ t)
        (split_fields-append 3 p (s ⊕ ":" ⊕ r ⊕ ":" ⊕ a ⊕ ":" ⊕ x) hp
          ∙ ap (λ t. p ∷ t)
              (split_fields-append 2 s (r ⊕ ":" ⊕ a ⊕ ":" ⊕ x) hs
                ∙ ap (λ t. s ∷ t)
                    (split_fields-append 1 r (a ⊕ ":" ⊕ x) hr
                      ∙ ap (λ t. r ∷ t) (split_fields-append 0 a x ha))))

-- What a pattern is for: a service with ARNs by region, or without a region.
pub data Kind : Type 0 where
  by_region whole : (service prefix suffix : String) → Kind

abbrev pub pattern_of : Kind → Pattern
pattern_of (by_region service prefix suffix) = regional service prefix suffix
pattern_of (whole service prefix suffix) = global service prefix suffix

-- The fields that the ARN of a pattern should have.
abbrev pub expected_fields : Kind → (name account_id region_name : String) → List String
expected_fields (by_region service prefix suffix) name account_id region_name =
    "arn"
    ∷ get_partition region_name
    ∷ service
    ∷ region_name
    ∷ account_id
    ∷ (prefix ⊕ name ⊕ suffix)
    ∷ []
expected_fields (whole service prefix suffix) name account_id region_name =
    "arn" ∷ get_partition region_name ∷ service ∷ "" ∷ account_id ∷ (prefix ⊕ name ⊕ suffix) ∷ []

abbrev pub service_of : Kind → String
service_of (by_region service prefix suffix) = service
service_of (whole service prefix suffix) = service

apply_pattern-regional :
    (service prefix suffix name account_id region_name : String)
    → apply_pattern (regional service prefix suffix) name account_id region_name
      ≡ some (
          format_arn
            (get_partition region_name)
            service
            region_name
            account_id
            (prefix ⊕ name ⊕ suffix))
unfolding apply_pattern fill
apply_pattern-regional service prefix suffix name account_id region_name =
    simp (append_assoc) (ap some (append_assoc "arn" ":" _))

apply_pattern-global :
    (service prefix suffix name account_id region_name : String)
    → apply_pattern (global service prefix suffix) name account_id region_name
      ≡ some (format_arn (get_partition region_name) service "" account_id (prefix ⊕ name ⊕ suffix))
unfolding apply_pattern fill
apply_pattern-global service prefix suffix name account_id region_name =
    let rest = account_id ⊕ ":" ⊕ prefix ⊕ name ⊕ suffix in
    simp (append_assoc) (
      ap some (append_assoc "arn" ":" _)
      ∙ ap (λ t. some ("arn" ⊕ ":" ⊕ get_partition region_name ⊕ ":" ⊕ service ⊕ t))
          (append_assoc ":" ":" rest)
      ∙ ap (λ t. some ("arn" ⊕ ":" ⊕ get_partition region_name ⊕ ":" ⊕ service ⊕ ":" ⊕ t))
          (sym (nil-append (":" ⊕ rest))))

apply_pattern_fields :
    (kind : Kind) (name account_id region_name : String)
    → no_colon (service_of kind) ≡ true
    → no_colon account_id ≡ true
    → no_colon region_name ≡ true
    → Option.map (split_fields 5) (apply_pattern (pattern_of kind) name account_id region_name)
      ≡ some (expected_fields kind name account_id region_name)
unfolding no_colon
apply_pattern_fields (by_region service prefix suffix) name account_id region_name s a r =
    rw (apply_pattern-regional service prefix suffix name account_id region_name) (
      ap some (
        format_arn_fields (get_partition region_name) service region_name account_id
          (prefix ⊕ name ⊕ suffix) (get_partition-no_colon region_name r) s r a))
apply_pattern_fields (whole service prefix suffix) name account_id region_name s a r =
    rw (apply_pattern-global service prefix suffix name account_id region_name) (
      ap some (
        format_arn_fields (get_partition region_name) service "" account_id (prefix ⊕ name ⊕ suffix)
          (get_partition-no_colon region_name r) s refl a))

-- The ARN built for a name without a colon splits at its first five colons into "arn", the partition
-- of the region, the service, the region or nothing, the account and the resource, if the service,
-- the account and the region have no colon.
pub resource_arn_fields :
    (allow_colons : Bool) (kind : Kind) (name account_id region_name : String)
    → no_colon name ≡ true
    → no_colon (service_of kind) ≡ true
    → no_colon account_id ≡ true
    → no_colon region_name ≡ true
    → Option.map
        (split_fields 5)
        (resource_arn allow_colons (pattern_of kind) name account_id region_name)
      ≡ some (expected_fields kind name account_id region_name)
unfolding resource_arn
resource_arn_fields allow_colons kind name account_id region_name n s a r =
    rw n (apply_pattern_fields kind name account_id region_name s a r)
