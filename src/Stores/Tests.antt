-- ===== src/Stores/Tests.antt =====
-- The stores of a small service, run.
use localstack_bb.Base.{ℕ, String, ◌≡◌, ◌≢◌, refl, true, false, [], ◌∷◌, arith, eq_iff, inl}
use localstack_bb.Base.Dict
use localstack_bb.Base.Result.{Result, ok, err}
use localstack_bb.Base.Text.{is_decimal, contains}
use localstack_bb.Stores.{
  scalar, factory, Config, Error, invalid_region, invalid_account, World, new_bundle, get_store,
  account_getitem, region_getitem, add_bundle, add_store, make_store, starts_with_digits,
  iter_stores,
}
use localstack_bb.Stores.Attributes.{
  local_get, local_set, cross_region_get, cross_region_set, cross_account_get, cross_account_set,
}
use localstack_bb.Stores.Clear.{account_reset, region_reset}
use localstack_bb.Stores.Shape.{IsWellFormed, new_bundle-IsWellFormed, get_store-IsWellFormed}
use localstack_bb.Stores.Access.{Holds}
use localstack_bb.Stores.Sharing.{cross_region_shared, cross_account_shared}
use localstack_bb.Stores.Isolation.{
  cross_region_isolated, local_isolated, local_get-set, get_store_again,
}
use localstack_bb.Stores.View.{opened_fields, fields_at, opened_fields-get_store}
use localstack_bb.Stores.Defaults.{region_reset_defaults}
use localstack_bb.Stores.History.{Reach, here, next, open_store, reset_all, Reach-IsWellFormed}

abbrev config : Config
config = record {
  allow_nonstandard_regions = false;
  valid_regions_for_service = λ _. "us-east-1" ∷ "eu-west-1" ∷ [];
}

abbrev empty_world : World ℕ
empty_world = new_bundle "transfer" true

abbrev empty_world-IsWellFormed : IsWellFormed empty_world
empty_world-IsWellFormed = new_bundle-IsWellFormed "transfer" true

abbrev alice : String
alice = "000000000001"

abbrev bob : String
bob = "000000000002"

-- Opening a store unfolds all that a run takes.
open_at : World ℕ → String → String → Result Error ℕ × World ℕ
unfolding get_store account_getitem region_getitem new_bundle add_bundle add_store make_store
    starts_with_digits is_decimal contains Dict.lookup Dict.insert cross_region_set
    cross_account_set local_set
open_at w a r = get_store config a r w

abbrev one_store : World ℕ
one_store = (get_store config alice "us-east-1" empty_world).1

abbrev two_stores : World ℕ
two_stores = (get_store config alice "eu-west-1" one_store).1

abbrev three_stores : World ℕ
three_stores = (get_store config bob "us-east-1" two_stores).1

abbrev three_stores-IsWellFormed : IsWellFormed three_stores
three_stores-IsWellFormed =
    get_store-IsWellFormed
      (get_store-IsWellFormed
        (get_store-IsWellFormed empty_world-IsWellFormed config alice "us-east-1") config alice
        "eu-west-1")
      config bob "us-east-1"

first_store : (get_store config alice "us-east-1" empty_world).0 ≡ ok 3
unfolding open_at
first_store = refl

-- The account pattern is not anchored at its end, so thirteen digits pass.
thirteen_digits : (get_store config "0000000000015" "us-east-1" empty_world).0 ≡ ok 3
unfolding open_at
thirteen_digits = refl

wrong_region : (get_store config alice "moon-1" empty_world).0 ≡ err (invalid_region "moon-1")
unfolding open_at
wrong_region = refl

wrong_account : (get_store config "bob" "us-east-1" empty_world).0 ≡ err (invalid_account "bob")
unfolding open_at
wrong_account = refl

all_stores :
    iter_stores three_stores
    ≡ (alice, "us-east-1", 3) ∷ (alice, "eu-west-1", 4) ∷ (bob, "us-east-1", 7) ∷ []
unfolding open_at iter_stores
all_stores = refl

alice_holds : Holds three_stores alice "us-east-1" 3
unfolding open_at
alice_holds = record { bundle = 1; at_account = refl; at_region = refl }

alice_holds_too : Holds three_stores alice "eu-west-1" 4
unfolding open_at
alice_holds_too = record { bundle = 1; at_account = refl; at_region = refl }

bob_holds : Holds three_stores bob "us-east-1" 7
unfolding open_at
bob_holds = record { bundle = 5; at_account = refl; at_region = refl }

second_after_write :
    (get_store config alice "eu-west-1" (cross_region_set "TOPICS" 7 3 one_store).1).0 ≡ ok 4
unfolding open_at
second_after_write = refl

third_after_write :
    (get_store config bob "eu-west-1" (cross_account_set "ARNS" 7 3 one_store).1).0 ≡ ok 6
unfolding open_at
third_after_write = refl

cross_region_shared_example :
    (cross_region_get "TOPICS"
      (scalar 0)
      4
      (get_store config alice "eu-west-1" (cross_region_set "TOPICS" 7 3 one_store).1).1).0
    ≡ ok 7
cross_region_shared_example =
    cross_region_shared empty_world-IsWellFormed config alice "us-east-1" 3 first_store "TOPICS"
      (scalar 0) 7 "eu-west-1" 4 second_after_write

cross_account_shared_example :
    (cross_account_get "ARNS"
      (scalar 0)
      6
      (get_store config bob "eu-west-1" (cross_account_set "ARNS" 7 3 one_store).1).1).0
    ≡ ok 7
cross_account_shared_example =
    cross_account_shared empty_world-IsWellFormed config alice "us-east-1" 3 first_store "ARNS"
      (scalar 0) 7 bob "eu-west-1" 6 third_after_write

alice_ne_bob : alice ≢ bob
alice_ne_bob = ground (arith, eq_iff alice bob)

cross_region_isolated_example :
    (cross_region_get "TOPICS" (scalar 0) 7 (cross_region_set "TOPICS" 9 3 three_stores).1).0
    ≡ (cross_region_get "TOPICS" (scalar 0) 7 three_stores).0
cross_region_isolated_example =
    cross_region_isolated three_stores-IsWellFormed alice_holds bob_holds "TOPICS" "TOPICS"
      (scalar 0) 9 alice_ne_bob

local_isolated_example :
    (local_get "queues" (factory (λ _. 0)) 7 (local_set "queues" 9 3 three_stores)).0
    ≡ (local_get "queues" (factory (λ _. 0)) 7 three_stores).0
local_isolated_example =
    local_isolated three_stores-IsWellFormed alice_holds bob_holds "queues" "queues"
      (factory (λ _. 0)) 9 (inl alice_ne_bob)

names_differ : ◌≢◌ {A = String} "servers" "users"
names_differ = ground (arith, eq_iff "servers" "users")

local_get-set_example :
    ((local_get "servers" (scalar 0) 3 (local_set "servers" 5 3 one_store)).0 ≡ 5)
    × ((local_get "users" (scalar 0) 3 (local_set "servers" 5 3 one_store)).0
        ≡ (local_get "users" (scalar 0) 3 one_store).0)
local_get-set_example = local_get-set "servers" "users" (scalar 0) 5 3 one_store names_differ

get_store_again_example : get_store config alice "us-east-1" one_store ≡ (ok 3, one_store)
get_store_again_example = get_store_again config alice "us-east-1" 3 empty_world first_store

region_reset_defaults_example :
    ((local_get "queues" (scalar 0) 4 (region_reset false 1 three_stores)).0 ≡ 0)
    × ((cross_region_get "queues" (scalar 0) 4 (region_reset false 1 three_stores)).0 ≡ ok 0)
    × ((region_reset false 1 three_stores).root ≡ three_stores.root)
unfolding alice_holds_too
region_reset_defaults_example =
    region_reset_defaults "queues" (scalar 0) three_stores-IsWellFormed alice_holds_too false

opened_and_reset : Reach config empty_world (account_reset one_store)
opened_and_reset = next (next here (open_store alice "us-east-1" empty_world)) (reset_all one_store)

Reach-IsWellFormed_example : IsWellFormed (account_reset one_store)
Reach-IsWellFormed_example =
    Reach-IsWellFormed config "transfer" true (account_reset one_store) opened_and_reset

opened_fields-get_store_example :
    opened_fields (get_store config bob "eu-west-1" three_stores)
    ≡ fields_at config bob "eu-west-1" three_stores
opened_fields-get_store_example =
    opened_fields-get_store config bob "eu-west-1" three_stores-IsWellFormed
