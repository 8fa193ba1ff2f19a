-- ===== src/Transfer/Users.antt =====
-- What the handlers for users do to the store of an account and region.
use localstack_bb.Base.{
  String, ◌≡◌, true, false, [], ◌∷◌, ◌++◌, arith, eq_iff, str_eq, str_eq_self, if◌then◌else◌,
  map-append,
}
use localstack_bb.Base.Dict
use localstack_bb.Base.Dict.{
  Dict, lookup-insert, values-insert_new, remove-insert_new, has-insert, has-remove,
}
use localstack_bb.Base.Result.{ok, err}
use localstack_bb.Transfer.{
  TransferStore, UserInstance, RequestContext, resource_exists, ListUsersResponse,
  CreateUserResponse, new_user, users_of, listed, create_user_in, list_users_in, delete_user_in,
  ◌⊕◌,
}

pub users_of-insert :
    (id j : String) (mine : Dict UserInstance) (users : Dict (Dict UserInstance))
    → users_of j (Dict.insert id mine users) ≡ (if str_eq id j then mine else users_of j users)
unfolding users_of
users_of-insert id j mine users = ground (arith, lookup-insert id j mine users)

abbrev pub setdefault : String → Dict (Dict UserInstance) → Dict (Dict UserInstance)
setdefault id users = if Dict.has id users then users else Dict.insert id [] users

pub users_of-setdefault :
    (id j : String) (users : Dict (Dict UserInstance))
    → users_of j (setdefault id users) ≡ users_of j users
unfolding users_of Dict.has
users_of-setdefault id j users = ground (arith, lookup-insert id j [] users, eq_iff id j)

-- The store alone: what a successful creation found and left.
pub record Created (ctx : RequestContext) (role id name : String) (store after : TransferStore)
    : Type 0 where
  pub server : Dict.has id store.servers ≡ true
  pub fresh : Dict.has name (users_of id store.users) ≡ false
  pub same_servers : after.servers ≡ store.servers
  pub users :
      users_of id after.users
      ≡ Dict.insert name (new_user ctx role id name) (users_of id store.users)

module _ (ctx : RequestContext) (role id name : String) (store : TransferStore) where
  abbrev after_create : TransferStore
  after_create = (create_user_in ctx role id name store).1

  pub create_user_in-Created :
      (resp : CreateUserResponse)
      → (create_user_in ctx role id name store).0 ≡ ok resp
      → Created ctx role id name store after_create
  unfolding create_user_in
  create_user_in-Created resp c =
      let d = users_of-setdefault id id store.users in
      let new = Dict.insert name (new_user ctx role id name) (users_of id store.users) in
      ground (arith, d, users_of-insert id id new (setdefault id store.users), str_eq_self id)

  pub list-create_user_in :
      (resp : CreateUserResponse) (before : ListUsersResponse)
      → (create_user_in ctx role id name store).0 ≡ ok resp
      → (list_users_in id store).0 ≡ ok before
      → (list_users_in id after_create).0
        ≡ ok (record {
          server_id = id;
          users = before.users ++ listed (new_user ctx role id name) ∷ [];
        })
  unfolding list_users_in
  list-create_user_in resp before c l =
      let m = create_user_in-Created resp c in
      let mine = users_of id store.users in
      let u = new_user ctx role id name in
      ground (
        arith,
        m,
        values-insert_new name u mine m.fresh,
        map-append listed (Dict.values mine) (u ∷ []),
      )

  pub create_user_in_again :
      (resp : CreateUserResponse) (role' : String)
      → (create_user_in ctx role id name store).0 ≡ ok resp
      → ((create_user_in ctx role' id name after_create).0
          ≡ err (resource_exists "User already exists" (name ⊕ "@" ⊕ id) "User"))
        × ((list_users_in id (create_user_in ctx role' id name after_create).1).0
            ≡ (list_users_in id after_create).0)
  unfolding create_user_in list_users_in
  create_user_in_again resp role' c =
      let m = create_user_in-Created resp c in
      let mine = users_of id store.users in
      let u = new_user ctx role id name in
      ground (
        arith,
        m,
        users_of-setdefault id id after_create.users,
        has-insert name name u mine,
        str_eq_self name,
      )

  pub delete-create_user_in :
      (resp : CreateUserResponse)
      → (create_user_in ctx role id name store).0 ≡ ok resp
      → ((delete_user_in id name after_create).0 ≡ ok tt)
        × ((list_users_in id (delete_user_in id name after_create).1).0
            ≡ (list_users_in id store).0)
  unfolding delete_user_in list_users_in
  delete-create_user_in resp c =
      let m = create_user_in-Created resp c in
      let mine = users_of id store.users in
      let u = new_user ctx role id name in
      ground (
        arith,
        m,
        has-insert name name u mine,
        str_eq_self name,
        str_eq_self id,
        remove-insert_new name u mine m.fresh,
        users_of-insert id id (Dict.remove name (users_of id after_create.users))
            after_create.users,
      )
