-- ===== src/Transfer/Backend.antt =====
-- What the Transfer provider uses of the stores, and the handlers over it.
use localstack_bb.Base.{String, ◌≡◌, ◌≢◌, ◌⊎◌, not, if◌then◌else◌}
use localstack_bb.Base.Result.{Result, ok, err}
use localstack_bb.Stores
use localstack_bb.Transfer.{
  TransferStore, RequestContext, Error, validation_exception, store_error, DescribedServer,
  CreateUserResponse, ListUsersResponse, is_server_id, generate_server_id, create_server_in,
  create_user_in, describe_server_in, list_users_in, delete_user_in,
}

-- The stores of the service: what is seen of the store of an account and region, and the state after
-- that store was changed in place. Stores of different keys do not share these attributes.
pub record Backend : Type 1 where
  pub State : Type 0
  pub access : String → String → State → Result Stores.Error TransferStore
  pub commit : String → String → TransferStore → State → State
  pub access-commit_self :
      (account region : String) (old new : TransferStore) (s : State)
      → access account region s ≡ ok old
      → access account region (commit account region new s) ≡ ok new
  pub access-commit_ne :
      (account region account' region' : String) (new : TransferStore) (s : State)
      → (account ≢ account') ⊎ (region ≢ region')
      → access account' region' (commit account region new s) ≡ access account' region' s

module _ (b : Backend) (ctx : RequestContext) where
  -- A handler's body on the store of the request.
  unfoldable pub with_store :
      {A : Type 0}
      → (TransferStore → Result Error A × TransferStore)
      → b.State
      → Result Error A × b.State
  with_store body s = elim (b.access ctx.account_id ctx.region s) [
    | err e ↦ (err (store_error e), s)
    | ok store ↦
        let (response, store') = body store in
        (response, b.commit ctx.account_id ctx.region store' s)
  ]

  -- `_validate_server_id` comes before the store is opened.
  unfoldable pub validated :
      {A : Type 0}
      → String
      → (b.State → Result Error A × b.State)
      → b.State
      → Result Error A × b.State
  validated id rest s = if not (is_server_id id) then (err validation_exception, s) else rest s

  unfoldable pub create_server : String → b.State → Result Error String × b.State
  unfolding with_store
  create_server uuid = with_store (create_server_in ctx (generate_server_id uuid))

  unfoldable pub describe_server : String → b.State → Result Error DescribedServer × b.State
  unfolding with_store validated
  describe_server id = validated id (with_store (describe_server_in id))

  unfoldable pub create_user :
      String → String → String → b.State → Result Error CreateUserResponse × b.State
  unfolding with_store validated
  create_user role id name = validated id (with_store (create_user_in ctx role id name))

  unfoldable pub list_users : String → b.State → Result Error ListUsersResponse × b.State
  unfolding with_store validated
  list_users id = validated id (with_store (list_users_in id))

  unfoldable pub delete_user : String → String → b.State → Result Error (Unit {0}) × b.State
  unfolding with_store validated
  delete_user id name = validated id (with_store (delete_user_in id name))
