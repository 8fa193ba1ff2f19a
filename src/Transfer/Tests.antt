-- ===== src/Transfer/Tests.antt =====
-- The Transfer provider, run on the stores of two accounts.
use localstack_bb.Base.{String, ◌≡◌, ◌≢◌, refl, inl, true, false, [], ◌∷◌, arith, eq_iff}
use localstack_bb.Base.Dict
use localstack_bb.Base.Result.{ok, err}
use localstack_bb.Base.Text.{is_decimal, is_hex_digit, contains}
use localstack_bb.Stores.{
  Config, get_store, account_getitem, region_getitem, add_bundle, add_store, make_store, new_bundle,
  starts_with_digits,
}
use localstack_bb.Stores.Attributes.{local_get, local_set}
use localstack_bb.Transfer.{
  TransferStore, RequestContext, validation_exception, online, is_server_id, generate_server_id,
  create_server_in, create_user_in, describe_server_in, list_users_in, delete_user_in,
}
use localstack_bb.Transfer.Backend.{
  Backend, create_server, describe_server, create_user, list_users, delete_user,
}
use localstack_bb.Transfer.Servers.{
  IsUuid, only_uuid_chars, count_digits, is_server_id-generate_server_id, describe-create_server,
}
use localstack_bb.Transfer.Clients.{delete-create_user}
use localstack_bb.Transfer.Requests.{
  handle, handle_isolated, serve, create_server_request, list_users_request, create_user_request,
}
use localstack_bb.Transfer.Safety.{AllKeyed, invalid_server_id}
use localstack_bb.Transfer.OnStores.{
  Live, access, commit, transfer_stores, no_stores, served-AllKeyed,
}

abbrev config : Config
config = record {
  allow_nonstandard_regions = false;
  valid_regions_for_service = λ _. "us-east-1" ∷ "eu-west-1" ∷ [];
}

abbrev stores : Backend
stores = transfer_stores config

abbrev here : RequestContext
here = record { account_id = "000000000001"; region = "us-east-1" }

abbrev there : RequestContext
there = record { account_id = "000000000002"; region = "us-east-1" }

abbrev uuid : String
uuid = "6f1c2a3b-0d4e-4f5a-8b6c-7d8e9f0a1b2c"

abbrev server : String
server = "s-6f1c2a3b0d4e4f5a8"

-- What a run of the provider on the stores takes.
run_all : Live → Live
unfolding create_server describe_server create_user list_users delete_user create_server_in
    create_user_in describe_server_in list_users_in delete_user_in access commit get_store
    account_getitem region_getitem add_bundle add_store make_store new_bundle starts_with_digits
    is_decimal is_hex_digit contains local_get local_set Dict.lookup Dict.insert Dict.remove
    Dict.has Dict.values is_server_id generate_server_id handle
run_all s = s

abbrev with_server : Live
with_server = (create_server stores here uuid no_stores).1

abbrev with_user : Live
with_user = (create_user stores here "role" server "bob" with_server).1

abbrev first_store : TransferStore
first_store = record { servers = []; users = [] }

generated : generate_server_id uuid ≡ server
unfolding run_all
generated = refl

-- `$` also matches before a newline at the end.
newline_accepted : is_server_id "s-6f1c2a3b0d4e4f5a8\n" ≡ true
unfolding run_all
newline_accepted = refl

opened : access config "000000000001" "us-east-1" no_stores ≡ ok first_store
unfolding run_all
opened = refl

abbrev server_known : TransferStore
server_known = (create_server_in here server first_store).1

opened_with_server : access config "000000000001" "us-east-1" with_server ≡ ok server_known
unfolding run_all
opened_with_server = refl

uuid-IsUuid : IsUuid uuid
unfolding run_all only_uuid_chars count_digits
uuid-IsUuid = record { form = refl; digits = refl }

is_server_id-generate_server_id_example : is_server_id (generate_server_id uuid) ≡ true
is_server_id-generate_server_id_example = is_server_id-generate_server_id uuid uuid-IsUuid

describe-create_server_example :
    ((create_server stores here uuid no_stores).0 ≡ ok (generate_server_id uuid))
    × ((describe_server stores here
          (generate_server_id uuid)
          (create_server stores here uuid no_stores).1).0
        ≡ ok (record {
          server_id = generate_server_id uuid;
          arn = "arn:aws:transfer:us-east-1:000000000001:server/s-6f1c2a3b0d4e4f5a8";
          state = online;
        }))
unfolding run_all
describe-create_server_example =
    describe-create_server stores here uuid no_stores first_store uuid-IsUuid opened

bob_created :
    (create_user stores here "role" server "bob" with_server).0
    ≡ ok (record { server_id = server; user_name = "bob" })
unfolding run_all
bob_created = refl

none_listed :
    (list_users stores here server with_server).0 ≡ ok (record { server_id = server; users = [] })
unfolding run_all
none_listed = refl

delete-create_user_example :
    ((delete_user stores here server "bob" with_user).0 ≡ ok tt)
    × ((list_users stores here server (delete_user stores here server "bob" with_user).1).0
        ≡ (list_users stores here server with_server).0)
delete-create_user_example =
    delete-create_user stores here "role" server "bob" with_server server_known opened_with_server
      (record { server_id = server; user_name = "bob" }) bob_created

accounts_differ : ◌≢◌ {A = String} "000000000001" "000000000002"
accounts_differ = ground (arith, eq_iff "000000000001" "000000000002")

handle_isolated_example :
    (handle stores there
      (list_users_request server)
      (handle stores here (create_user_request "role" server "bob") with_server).1).0
    ≡ (handle stores there (list_users_request server) with_server).0
handle_isolated_example =
    handle_isolated stores here there (create_user_request "role" server "bob")
      (list_users_request server) with_server (inl accounts_differ)

invalid_server_id_example :
    (describe_server stores here "s-1" no_stores ≡ (err validation_exception, no_stores))
    × (create_user stores here "role" "s-1" "bob" no_stores ≡ (err validation_exception, no_stores))
    × (list_users stores here "s-1" no_stores ≡ (err validation_exception, no_stores))
    × (delete_user stores here "s-1" "bob" no_stores ≡ (err validation_exception, no_stores))
unfolding is_server_id is_hex_digit
invalid_server_id_example = invalid_server_id stores here "role" "s-1" "bob" no_stores refl

served-AllKeyed_example : AllKeyed stores (
    serve stores
      ((here, create_server_request uuid) ∷ (here, create_user_request "role" server "bob") ∷ [])
      no_stores)
served-AllKeyed_example =
    served-AllKeyed config
      ((here, create_server_request uuid) ∷ (here, create_user_request "role" server "bob") ∷ [])
