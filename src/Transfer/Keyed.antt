-- ===== src/Transfer/Keyed.antt =====
-- How the dictionaries of a store agree with what they hold.
use localstack_bb.Base.{String, ◌≡◌, true, some, [], arith, eq_iff}
use localstack_bb.Base.Dict
use localstack_bb.Base.Dict.{Dict, lookup-insert, lookup-remove, has-insert}
use localstack_bb.Transfer.{
  TransferStore, ServerInstance, UserInstance, RequestContext, new_server, new_user, users_of,
  create_server_in, create_user_in, delete_user_in,
}
use localstack_bb.Transfer.Users.{setdefault, users_of-setdefault, users_of-insert}

-- Each server and user is kept under its own id and name, and only known servers have users.
pub record IsKeyed (store : TransferStore) : Type 0 where
  pub servers :
      (id : String) (server : ServerInstance)
      → Dict.lookup id store.servers ≡ some server
      → server.server_id ≡ id
  pub users :
      (id name : String) (user : UserInstance)
      → Dict.lookup name (users_of id store.users) ≡ some user
      → (user.user_name ≡ name) × (user.server_id ≡ id)
  pub known : (id : String) → Dict.has id store.users ≡ true → Dict.has id store.servers ≡ true

abbrev pub empty_store : TransferStore
empty_store = record { servers = []; users = [] }

pub empty_store-IsKeyed : IsKeyed empty_store
unfolding Dict.has users_of Dict.lookup
empty_store-IsKeyed = record {
  servers = λ id server h. cc;
  users = λ id name user h. cc;
  known = λ id h. cc;
}

module _ (ctx : RequestContext) {store : TransferStore} (v : IsKeyed store) where
  pub create_server_in-IsKeyed : (id : String) → IsKeyed (create_server_in ctx id store).1
  unfolding create_server_in
  create_server_in-IsKeyed id = record {
    servers = λ k server h. ground (
      arith,
      lookup-insert id k (new_server ctx id) store.servers,
      eq_iff id k,
      v.servers k server,
    );
    users = v.users;
    known = λ k h. ground (arith, has-insert id k (new_server ctx id) store.servers, v.known k);
  }

  module _ (role id name : String) where
    pub create_user_in-IsKeyed : IsKeyed (create_user_in ctx role id name store).1
    unfolding create_user_in
    create_user_in-IsKeyed =
        let mine = users_of id store.users in
        let user = new_user ctx role id name in
        let mine' = Dict.insert name user mine in
        let users = setdefault id store.users in
        record {
          servers = λ k server h. ground (arith, v.servers k server);
          users = λ k n u h. ground (
            arith,
            users_of-setdefault id k store.users,
            users_of-setdefault id id store.users,
            users_of-insert id k mine' users,
            lookup-insert name n user mine,
            eq_iff id k,
            eq_iff name n,
            v.users k n u,
          );
          known = λ k h. ground (
            arith,
            users_of-setdefault id id store.users,
            has-insert id k [] store.users,
            has-insert id k mine' users,
            eq_iff id k,
            v.known k,
          );
        }

pub delete_user_in-IsKeyed :
    {store : TransferStore} (v : IsKeyed store) (id name : String)
    → IsKeyed (delete_user_in id name store).1
unfolding delete_user_in
delete_user_in-IsKeyed {store} v id name =
    let mine = users_of id store.users in
    record {
      servers = λ k server h. ground (arith, v.servers k server);
      users = λ k n u h. ground (
        arith,
        users_of-insert id k (Dict.remove name mine) store.users,
        lookup-remove name n mine,
        eq_iff id k,
        v.users k n u,
      );
      known = λ k h.
          ground
            (arith, has-insert id k (Dict.remove name mine) store.users, eq_iff id k, v.known k);
    }
