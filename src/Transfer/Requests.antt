-- ===== src/Transfer/Requests.antt =====
-- The operations of the provider as requests, and what holds of all of them.
use localstack_bb.Base.{String, ◌≡◌, ◌≢◌, ◌⊎◌, inl, inr, refl, List, [], ◌∷◌, arith, Bool-cases}
use localstack_bb.Base.Result.{Result, ok, err}
use localstack_bb.Stores
use localstack_bb.Transfer.{
  TransferStore, RequestContext, Error, DescribedServer, CreateUserResponse, ListUsersResponse,
  is_server_id, generate_server_id, create_server_in, create_user_in, describe_server_in,
  list_users_in, delete_user_in,
}
use localstack_bb.Transfer.Backend.{
  Backend, with_store, validated, create_server, describe_server, create_user, list_users,
  delete_user,
}
use localstack_bb.Transfer.Runs.{with_store_ne}

pub data Request : Type 0 where
  create_server_request : (uuid : String) → Request
  describe_server_request : (id : String) → Request
  create_user_request : (role id name : String) → Request
  list_users_request : (id : String) → Request
  delete_user_request : (id name : String) → Request

pub data Response : Type 0 where
  server_created : String → Response
  server_described : DescribedServer → Response
  user_created : CreateUserResponse → Response
  users_listed : ListUsersResponse → Response
  user_deleted : Response

abbrev pub answer : {A S : Type 0} → (A → Response) → Result Error A × S → Result Error Response × S
answer f (ok a, s) = (ok (f a), s)
answer f (err e, s) = (err e, s)

module _ (b : Backend) where
  unfoldable pub handle : RequestContext → Request → b.State → Result Error Response × b.State
  handle ctx (create_server_request uuid) s = answer server_created (create_server b ctx uuid s)
  handle ctx (describe_server_request id) s = answer server_described (describe_server b ctx id s)
  handle ctx (create_user_request role id name) s =
      answer user_created (create_user b ctx role id name s)
  handle ctx (list_users_request id) s = answer users_listed (list_users b ctx id s)
  handle ctx (delete_user_request id name) s =
      answer (λ _. user_deleted) (delete_user b ctx id name s)

  unfoldable pub serve : List (RequestContext × Request) → b.State → b.State
  serve [] s = s
  serve ((ctx, q) ∷ rest) s = serve rest (handle ctx q s).1

  pub state-answer :
      {A : Type 0} (f : A → Response) (p : Result Error A × b.State) → (answer f p).1 ≡ p.1
  state-answer f (ok a, s) = refl
  state-answer f (err e, s) = refl

  answer_ap :
      {A : Type 0} (f : A → Response) (p q : Result Error A × b.State)
      → p.0 ≡ q.0
      → (answer f p).0 ≡ (answer f q).0
  answer_ap f (ok x, s) (ok y, t) e = cc
  answer_ap f (ok x, s) (err y, t) e = cc
  answer_ap f (err x, s) (ok y, t) e = cc
  answer_ap f (err x, s) (err y, t) e = cc

  module _ (ctx : RequestContext) {A : Type 0}
      (body : TransferStore → Result Error A × TransferStore) where
    -- A handler sees no more of the state than the store of its request.
    with_store_sees :
        (s s' : b.State)
        → b.access ctx.account_id ctx.region s ≡ b.access ctx.account_id ctx.region s'
        → (with_store b ctx body s).0 ≡ (with_store b ctx body s').0
    unfolding with_store
    with_store_sees s s' e = go (b.access ctx.account_id ctx.region s') refl
      where
        go :
            (found : Result Stores.Error TransferStore)
            → b.access ctx.account_id ctx.region s' ≡ found
            → (with_store b ctx body s).0 ≡ (with_store b ctx body s').0
        go (err x) f = rw (e, f, with_store)
        go (ok x) f = rw (e, f, with_store)

    validated_sees :
        (id : String) (s s' : b.State)
        → b.access ctx.account_id ctx.region s ≡ b.access ctx.account_id ctx.region s'
        → (validated b ctx id (with_store b ctx body) s).0
          ≡ (validated b ctx id (with_store b ctx body) s').0
    unfolding validated
    validated_sees id s s' e = ground (arith, with_store_sees s s' e)

    validated_ne :
        (id : String) (ctx' : RequestContext) (s : b.State)
        → (ctx.account_id ≢ ctx'.account_id) ⊎ (ctx.region ≢ ctx'.region)
        → b.access ctx'.account_id ctx'.region (validated b ctx id (with_store b ctx body) s).1
          ≡ b.access ctx'.account_id ctx'.region s
    unfolding validated
    validated_ne id ctx' s ne = elim (Bool-cases (is_server_id id)) [
      | inl valid ↦ rw valid (with_store_ne b ctx body ctx' s ne)
      | inr wrong ↦ rw wrong
    ]

  pub handle_sees :
      (ctx : RequestContext) (q : Request) (s s' : b.State)
      → b.access ctx.account_id ctx.region s ≡ b.access ctx.account_id ctx.region s'
      → (handle ctx q s).0 ≡ (handle ctx q s').0
  unfolding handle create_server describe_server create_user list_users delete_user
  handle_sees ctx (create_server_request uuid) s s' e =
      answer_ap server_created _ _
        (with_store_sees ctx (create_server_in ctx (generate_server_id uuid)) s s' e)
  handle_sees ctx (describe_server_request id) s s' e =
      answer_ap server_described _ _ (validated_sees ctx (describe_server_in id) id s s' e)
  handle_sees ctx (create_user_request role id name) s s' e =
      answer_ap user_created _ _ (validated_sees ctx (create_user_in ctx role id name) id s s' e)
  handle_sees ctx (list_users_request id) s s' e =
      answer_ap users_listed _ _ (validated_sees ctx (list_users_in id) id s s' e)
  handle_sees ctx (delete_user_request id name) s s' e =
      answer_ap (λ _. user_deleted) _ _ (validated_sees ctx (delete_user_in id name) id s s' e)

  access-handle_ne :
      (ctx ctx' : RequestContext) (q : Request) (s : b.State)
      → (ctx.account_id ≢ ctx'.account_id) ⊎ (ctx.region ≢ ctx'.region)
      → b.access ctx'.account_id ctx'.region (handle ctx q s).1
        ≡ b.access ctx'.account_id ctx'.region s
  unfolding handle create_server describe_server create_user list_users delete_user
  access-handle_ne ctx ctx' (create_server_request uuid) s ne =
      rw state-answer
        (with_store_ne b ctx (create_server_in ctx (generate_server_id uuid)) ctx' s ne)
  access-handle_ne ctx ctx' (describe_server_request id) s ne =
      rw state-answer (validated_ne ctx (describe_server_in id) id ctx' s ne)
  access-handle_ne ctx ctx' (create_user_request role id name) s ne =
      rw state-answer (validated_ne ctx (create_user_in ctx role id name) id ctx' s ne)
  access-handle_ne ctx ctx' (list_users_request id) s ne =
      rw state-answer (validated_ne ctx (list_users_in id) id ctx' s ne)
  access-handle_ne ctx ctx' (delete_user_request id name) s ne =
      rw state-answer (validated_ne ctx (delete_user_in id name) id ctx' s ne)

  -- No request changes what a request of another account or of another region is answered.
  pub handle_isolated :
      (ctx ctx' : RequestContext) (q q' : Request) (s : b.State)
      → (ctx.account_id ≢ ctx'.account_id) ⊎ (ctx.region ≢ ctx'.region)
      → (handle ctx' q' (handle ctx q s).1).0 ≡ (handle ctx' q' s).0
  handle_isolated ctx ctx' q q' s ne =
      handle_sees ctx' q' (handle ctx q s).1 s (access-handle_ne ctx ctx' q s ne)
