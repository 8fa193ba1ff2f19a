-- ===== src/Transfer.antt =====
-- localstack-core/localstack/services/transfer/provider.py and models.py: the Transfer provider, over
-- the store of the request's account and region.
pub mod Backend
pub mod Servers
pub mod Users
pub mod Runs
pub mod Clients
pub mod Keyed
pub mod Requests
pub mod Safety
pub mod OnStores
mod Tests
use Prim.Native.Char.{Char, code}
use Prim.Native.String
use localstack_bb.Base.{
  ℕ, String, Bool, true, false, ◌&&◌, not, Option, none, some, List, [], ◌∷◌, map, if◌then◌else◌,
  ◌==◌,
}
use localstack_bb.Base.Dict
use localstack_bb.Base.Dict.{Dict}
use localstack_bb.Base.Result.{Result, ok, err}
use localstack_bb.Base.Text.{is_hex_digit}
use localstack_bb.Stores

pub data State : Type 0 where
  offline online starting stopping start_failed stop_failed : State

-- The fields of `ServerInstance` that a provider may leave out are optional.
pub record ServerInstance : Type 0 where
  pub account_id : Option String
  pub region_name : Option String
  pub server_id : String
  pub state : State
  pub arn : String

pub record UserInstance : Type 0 where
  pub user_name : String
  pub server_id : String
  pub role : String
  pub arn : String

pub record TransferStore : Type 0 where
  pub servers : Dict ServerInstance
  pub users : Dict (Dict UserInstance)

pub record RequestContext : Type 0 where
  pub account_id : String
  pub region : String

-- `resource` and `resource_type` are the attributes of the modelled exceptions.
pub data Error : Type 0 where
  validation_exception : Error
  resource_not_found : (message resource resource_type : String) → Error
  resource_exists : (message resource resource_type : String) → Error
  store_error : Stores.Error → Error

pub record DescribedServer : Type 0 where
  pub server_id : String
  pub arn : String
  pub state : State

pub record CreateUserResponse : Type 0 where
  pub server_id : String
  pub user_name : String

pub record ListedUser : Type 0 where
  pub arn : String
  pub user_name : String
  pub role : String

pub record ListUsersResponse : Type 0 where
  pub server_id : String
  pub users : List ListedUser

infixl 60 ◌⊕◌
abbrev pub ◌⊕◌ : String → String → String
s ⊕ t = String.◌++◌ s t

-- What `$` accepts: the end, or a newline at the end.
unfoldable pub at_dollar : String → Bool
at_dollar String.[] = true
at_dollar (String.◌∷◌ c String.[]) = code c == 10
at_dollar (String.◌∷◌ c (String.◌∷◌ _ _)) = false

unfoldable pub hex_run : ℕ → String → Bool
unfolding at_dollar
hex_run ℕ.zero s = at_dollar s
hex_run (ℕ.suc n) String.[] = false
hex_run (ℕ.suc n) (String.◌∷◌ c s) = is_hex_digit c && hex_run n s

-- `_validate_server_id`: does `^s-[0-9a-f]{17}$` match?
unfoldable pub is_server_id : String → Bool
unfolding hex_run
is_server_id (String.◌∷◌ c (String.◌∷◌ d s)) = (code c == b's') && (code d == b'-') && hex_run 17 s
is_server_id _ = false

-- `.replace('-', '')` and `[:n]`
unfoldable pub without_dashes : String → String
without_dashes String.[] = ""
without_dashes (String.◌∷◌ c s) =
    let rest = without_dashes s in if code c == b'-' then rest else String.◌∷◌ c rest

unfoldable pub first_chars : ℕ → String → String
first_chars ℕ.zero s = ""
first_chars (ℕ.suc n) String.[] = ""
first_chars (ℕ.suc n) (String.◌∷◌ c s) = String.◌∷◌ c (first_chars n s)

-- `_generate_server_id`, from the text of a fresh UUID
unfoldable pub generate_server_id : String → String
unfolding without_dashes first_chars
generate_server_id uuid = "s-" ⊕ first_chars 17 (without_dashes uuid)

unfoldable pub described : ServerInstance → DescribedServer
described server = record { server_id = server.server_id; arn = server.arn; state = server.state }

unfoldable pub listed : UserInstance → ListedUser
listed user = record { arn = user.arn; user_name = user.user_name; role = user.role }

-- `users.get(server_id, {})`
unfoldable pub users_of : String → Dict (Dict UserInstance) → Dict UserInstance
users_of id users = elim (Dict.lookup id users) [ none ↦ [] | some mine ↦ mine ]

module _ (ctx : RequestContext) where
  abbrev pub server_arn : String → String
  server_arn id = "arn:aws:transfer:" ⊕ ctx.region ⊕ ":" ⊕ ctx.account_id ⊕ ":server/" ⊕ id

  abbrev pub user_arn : String → String → String
  user_arn id name =
      "arn:aws:transfer:" ⊕ ctx.region ⊕ ":" ⊕ ctx.account_id ⊕ ":user/" ⊕ id ⊕ "/" ⊕ name

  abbrev pub new_server : String → ServerInstance
  new_server id = record {
    account_id = none;
    region_name = none;
    server_id = id;
    state = online;
    arn = server_arn id;
  }

  abbrev pub new_user : String → String → String → UserInstance
  new_user role id name = record {
    user_name = name;
    server_id = id;
    role = role;
    arn = user_arn id name;
  }

  -- The part of each handler that has the store in hand: the response, and the store as it is left.
  unfoldable pub create_server_in : String → TransferStore → Result Error String × TransferStore
  create_server_in id store =
      (ok id, record store { servers = Dict.insert id (new_server id) store.servers })

  unfoldable pub create_user_in :
      String → String → String → TransferStore → Result Error CreateUserResponse × TransferStore
  create_user_in role id name store =
      if not (Dict.has id store.servers)
      then (err (resource_not_found "Unknown server" id "Server"), store)
      else (let users =
            if Dict.has id store.users then store.users else Dict.insert id [] store.users in
          let mine = users_of id users in
          if Dict.has name mine
          then (
            err (resource_exists "User already exists" (name ⊕ "@" ⊕ id) "User"),
            record store { users = users },
          )
          else (
            ok (record { server_id = id; user_name = name }),
            record store {
              users = Dict.insert id (Dict.insert name (new_user role id name) mine) users;
            },
          ))

-- The same of the handlers that do not read the context any further.
unfoldable pub describe_server_in :
    String → TransferStore → Result Error DescribedServer × TransferStore
unfolding described
describe_server_in id store = elim (Dict.lookup id store.servers) [
  | none ↦ (err (resource_not_found "Unknown server" id "Server"), store)
  | some server ↦ (ok (described server), store)
]

unfoldable pub list_users_in :
    String → TransferStore → Result Error ListUsersResponse × TransferStore
unfolding users_of
list_users_in id store =
    if not (Dict.has id store.servers)
    then (err (resource_not_found "Unknown server" id "Server"), store)
    else (
      ok (record { server_id = id; users = map listed (Dict.values (users_of id store.users)) }),
      store,
    )

unfoldable pub delete_user_in :
    String → String → TransferStore → Result Error (Unit {0}) × TransferStore
unfolding users_of
delete_user_in id name store =
    if not (Dict.has id store.servers)
    then (err (resource_not_found "Unknown server" id "Server"), store)
    else if not (Dict.has name (users_of id store.users))
    then (err (resource_not_found "Unknown user" name "User"), store)
    else (
      ok tt,
      record store {
        users = Dict.insert id (Dict.remove name (users_of id store.users)) store.users;
      },
    )
