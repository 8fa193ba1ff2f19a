-- ===== src/Transfer/Clients.antt =====
-- What a client sees of the users of a server.
use localstack_bb.Base.{String, ◌≡◌, true, [], ◌∷◌, ◌++◌, ◌∙◌, sym}
use localstack_bb.Base.Result.{ok, err}
use localstack_bb.Transfer.{
  TransferStore, RequestContext, resource_exists, ListUsersResponse, CreateUserResponse,
  is_server_id, user_arn, listed, create_user_in, list_users_in, delete_user_in, ◌⊕◌,
}
use localstack_bb.Transfer.Backend.{Backend, create_user, list_users, delete_user}
use localstack_bb.Transfer.Runs.{validated_run, validated-eq-ok}
use localstack_bb.Transfer.Users.{list-create_user_in, create_user_in_again, delete-create_user_in}

module _ (b : Backend) (ctx : RequestContext) (role id name : String) (s : b.State)
    (store : TransferStore) (opened : b.access ctx.account_id ctx.region s ≡ ok store) where
  abbrev created_state : b.State
  created_state = (create_user b ctx role id name s).1

  abbrev created_store : TransferStore
  created_store = (create_user_in ctx role id name store).1

  -- The answer and the store of a successful creation.
  create_user_run :
      (resp : CreateUserResponse)
      → (create_user b ctx role id name s).0 ≡ ok resp
      → (is_server_id id ≡ true)
        × ((create_user_in ctx role id name store).0 ≡ ok resp)
        × (b.access ctx.account_id ctx.region created_state ≡ ok created_store)
  unfolding create_user
  create_user_run resp e =
      let valid = validated-eq-ok b ctx (create_user_in ctx role id name) id s resp e in
      let r = validated_run b ctx (create_user_in ctx role id name) id s store opened valid in
      (valid, sym r.0 ∙ e, r.1)

  -- If a user is created and the users of the server were listed before without an error, then the
  -- user is listed last, behind those that were listed before.
  pub list-create_user :
      (resp : CreateUserResponse) (before : ListUsersResponse)
      → (create_user b ctx role id name s).0 ≡ ok resp
      → (list_users b ctx id s).0 ≡ ok before
      → (list_users b ctx id created_state).0
        ≡ ok (record {
          server_id = id;
          users =
              before.users
              ++ record { arn = user_arn ctx id name; user_name = name; role = role } ∷ [];
        })
  unfolding list_users listed
  list-create_user resp before c l =
      let run = create_user_run resp c in
      let old = validated_run b ctx (list_users_in id) id s store opened run.0 in
      let new = validated_run b ctx (list_users_in id) id created_state created_store run.2 run.0 in
      new.0 ∙ list-create_user_in ctx role id name store resp before run.1 (sym old.0 ∙ l)

  -- After a user was created, creating it again is refused, whatever the role, and the list of
  -- users stays.
  pub create_user_again :
      (resp : CreateUserResponse) (role' : String)
      → (create_user b ctx role id name s).0 ≡ ok resp
      → ((create_user b ctx role' id name created_state).0
          ≡ err (resource_exists "User already exists" (name ⊕ "@" ⊕ id) "User"))
        × ((list_users b ctx id (create_user b ctx role' id name created_state).1).0
            ≡ (list_users b ctx id created_state).0)
  unfolding create_user list_users
  create_user_again resp role' c =
      let run = create_user_run resp c in
      let body = create_user_in ctx role' id name in
      let again = validated_run b ctx body id created_state created_store run.2 run.0 in
      let before =
        validated_run b ctx (list_users_in id) id created_state created_store run.2 run.0 in
      let after =
        validated_run b ctx (list_users_in id) id _ (body created_store).1 again.1 run.0 in
      let facts = create_user_in_again ctx role id name store resp role' run.1 in
      (again.0 ∙ facts.0, after.0 ∙ facts.1 ∙ sym before.0)

  -- Deleting a user that was just created succeeds, and the list of users is as before its
  -- creation.
  pub delete-create_user :
      (resp : CreateUserResponse)
      → (create_user b ctx role id name s).0 ≡ ok resp
      → ((delete_user b ctx id name created_state).0 ≡ ok tt)
        × ((list_users b ctx id (delete_user b ctx id name created_state).1).0
            ≡ (list_users b ctx id s).0)
  unfolding delete_user list_users
  delete-create_user resp c =
      let run = create_user_run resp c in
      let gone =
        validated_run b ctx (delete_user_in id name) id created_state created_store run.2 run.0 in
      let before = validated_run b ctx (list_users_in id) id s store opened run.0 in
      let after =
        validated_run b ctx (list_users_in id) id _ (delete_user_in id name created_store).1 gone.1
          run.0 in
      let facts = delete-create_user_in ctx role id name store resp run.1 in
      (gone.0 ∙ facts.0, after.0 ∙ facts.1 ∙ sym before.0)
