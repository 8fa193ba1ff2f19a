-- ===== src/Arns/Tests.antt =====
-- Some ARNs, built.
use mathlib.Core.Option
use localstack_bb.Base.{◌≡◌, refl, String, true, false, some}
use localstack_bb.Base.Text.{no_colon, contains}
use localstack_bb.Arns.{
  resource_arn, apply_pattern, fill, get_partition, partition_by_prefix, partition_names,
}
use localstack_bb.Arns.Builders.{event_bus_arn, kms_alias_arn}
use localstack_bb.Arns.Fields.{
  split_fields, by_region, pattern_of, expected_fields, get_partition_known, resource_arn_fields,
}

abbrev account : String
account = "000000000000"

built :
    event_bus_arn "orders" account "us-gov-west-1"
    ≡ some "arn:aws-us-gov:events:us-gov-west-1:000000000000:event-bus/orders"
unfolding resource_arn apply_pattern fill get_partition partition_by_prefix no_colon contains
built = refl

alias :
    kms_alias_arn "mine" account "eu-west-1" ≡ some "arn:aws:kms:eu-west-1:000000000000:alias/mine"
unfolding built
alias = refl

get_partition_known_example : contains (get_partition "cn-north-1") partition_names ≡ true
get_partition_known_example = get_partition_known "cn-north-1"

plain : no_colon "orders" ≡ true
unfolding no_colon
plain = refl

account_plain : no_colon account ≡ true
unfolding no_colon
account_plain = refl

region_plain : no_colon "us-gov-west-1" ≡ true
unfolding no_colon
region_plain = refl

service_plain : no_colon "events" ≡ true
unfolding no_colon
service_plain = refl

resource_arn_fields_example :
    Option.map (split_fields 5) (
      resource_arn false
        (pattern_of (by_region "events" "event-bus/" ""))
        "orders"
        account
        "us-gov-west-1")
    ≡ some (expected_fields (by_region "events" "event-bus/" "") "orders" account "us-gov-west-1")
resource_arn_fields_example =
    resource_arn_fields false (by_region "events" "event-bus/" "") "orders" account "us-gov-west-1"
      plain service_plain account_plain region_plain
