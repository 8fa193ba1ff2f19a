-- ===== src/Transfer/Safety.antt =====
-- Well-formed stores under any requests, and the errors of the provider.
use localstack_bb.Base.{
  String, ◌≡◌, ◌≢◌, ◌⊎◌, inl, inr, refl, ◌∙◌, sym, true, false, List, [], ◌∷◌, arith, Bool-cases,
  String-cases,
}
use localstack_bb.Base.Dict
use localstack_bb.Base.Result.{Result, ok, err}
use localstack_bb.Stores
use localstack_bb.Transfer.{
  TransferStore, RequestContext, Error, validation_exception, resource_not_found, is_server_id,
  generate_server_id, create_server_in, create_user_in, describe_server_in, list_users_in,
  delete_user_in,
}
use localstack_bb.Transfer.Backend.{
  Backend, with_store, validated, create_server, describe_server, create_user, list_users,
  delete_user,
}
use localstack_bb.Transfer.Runs.{validated_run}
use localstack_bb.Transfer.Keyed.{
  IsKeyed, create_server_in-IsKeyed, create_user_in-IsKeyed, delete_user_in-IsKeyed,
}
use localstack_bb.Transfer.Requests.{
  Request, create_server_request, describe_server_request, create_user_request, list_users_request,
  delete_user_request, handle, serve, state-answer,
}

module _ (b : Backend) where
  -- Every store that is seen is keyed.
  pub record AllKeyed (s : b.State) : Type 0 where
    pub keyed :
        (account region : String) (store : TransferStore)
        → b.access account region s ≡ ok store
        → IsKeyed store

  module _ (ctx : RequestContext) {A : Type 0}
      (body : TransferStore → Result Error A × TransferStore)
      (keeps : (store : TransferStore) → IsKeyed store → IsKeyed (body store).1) where
    commit-AllKeyed :
        (s : b.State) (x : TransferStore)
        → AllKeyed s
        → b.access ctx.account_id ctx.region s ≡ ok x
        → AllKeyed (b.commit ctx.account_id ctx.region (body x).1 s)
    commit-AllKeyed s x v f = record {
      keyed = λ account region store h.
          let there = b.access-commit_self ctx.account_id ctx.region x (body x).1 s f in
          let kept = keeps x (v.keyed ctx.account_id ctx.region x f) in
          let apart = λ (ne : (ctx.account_id ≢ account) ⊎ (ctx.region ≢ region)).
            v.keyed account region store (
              sym (b.access-commit_ne ctx.account_id ctx.region account region (body x).1 s ne)
              ∙ h) in
          elim (String-cases ctx.account_id account) [
            | inl e ↦ elim (String-cases ctx.region region) [
              | inl e' ↦ let same : (body x).1 ≡ store = cc (e, e', there, h) in rw same at kept
              | inr ne ↦ apart (inr ne)
            ]
            | inr ne ↦ apart (inl ne)
          ];
    }

    with_store-AllKeyed : (s : b.State) → AllKeyed s → AllKeyed (with_store b ctx body s).1
    unfolding with_store
    with_store-AllKeyed s v = go (b.access ctx.account_id ctx.region s) refl
      where
        go :
            (found : Result Stores.Error TransferStore)
            → b.access ctx.account_id ctx.region s ≡ found
            → AllKeyed (with_store b ctx body s).1
        go (err x) f = rw (f, with_store) v
        go (ok x) f = rw (f, with_store) (commit-AllKeyed s x v f)

    validated-AllKeyed :
        (id : String) (s : b.State)
        → AllKeyed s
        → AllKeyed (validated b ctx id (with_store b ctx body) s).1
    unfolding validated
    validated-AllKeyed id s v = elim (Bool-cases (is_server_id id)) [
      | inl valid ↦ rw valid (with_store-AllKeyed s v)
      | inr wrong ↦ rw wrong v
    ]

  describe_server_in-same :
      (id : String) (store : TransferStore) → (describe_server_in id store).1 ≡ store
  unfolding describe_server_in
  describe_server_in-same id store = ground arith

  list_users_in-same : (id : String) (store : TransferStore) → (list_users_in id store).1 ≡ store
  unfolding list_users_in
  list_users_in-same id store = ground arith

  pub handle-AllKeyed :
      (ctx : RequestContext) (q : Request) (s : b.State)
      → AllKeyed s
      → AllKeyed (handle b ctx q s).1
  unfolding handle create_server describe_server create_user list_users delete_user
  handle-AllKeyed ctx (create_server_request uuid) s v = rw state-answer (
      with_store-AllKeyed ctx (create_server_in ctx (generate_server_id uuid))
        (λ store k. create_server_in-IsKeyed ctx k (generate_server_id uuid)) s v)
  handle-AllKeyed ctx (describe_server_request id) s v = rw state-answer (
      validated-AllKeyed ctx (describe_server_in id)
        (λ store k. rw (describe_server_in-same id store) k) id s v)
  handle-AllKeyed ctx (create_user_request role id name) s v = rw state-answer (
      validated-AllKeyed ctx (create_user_in ctx role id name)
        (λ store k. create_user_in-IsKeyed ctx k role id name) id s v)
  handle-AllKeyed ctx (list_users_request id) s v = rw state-answer (
      validated-AllKeyed ctx (list_users_in id) (λ store k. rw (list_users_in-same id store) k) id s
        v)
  handle-AllKeyed ctx (delete_user_request id name) s v = rw state-answer (
      validated-AllKeyed ctx (delete_user_in id name) (λ store k. delete_user_in-IsKeyed k id name)
        id s v)

  -- Whatever the requests, failing or not: in every account and region each server and each user is
  -- kept under its own id and name, and only known servers have users.
  pub serve-AllKeyed :
      (requests : List (RequestContext × Request)) (s : b.State)
      → AllKeyed s
      → AllKeyed (serve b requests s)
  unfolding serve
  serve-AllKeyed [] s v = v
  serve-AllKeyed ((ctx, q) ∷ rest) s v =
      serve-AllKeyed rest (handle b ctx q s).1 (handle-AllKeyed ctx q s v)

  module _ (ctx : RequestContext) (role id name : String) (s : b.State) where
    -- An id of the wrong form is refused by every operation that takes one, and nothing changes.
    pub invalid_server_id :
        is_server_id id ≡ false
        → (describe_server b ctx id s ≡ (err validation_exception, s))
          × (create_user b ctx role id name s ≡ (err validation_exception, s))
          × (list_users b ctx id s ≡ (err validation_exception, s))
          × (delete_user b ctx id name s ≡ (err validation_exception, s))
    unfolding describe_server create_user list_users delete_user validated
    invalid_server_id wrong = (rw wrong, rw wrong, rw wrong, rw wrong)

    abbrev unknown : Error
    unknown = resource_not_found "Unknown server" id "Server"

    -- Where the store of the account and region is read without an error, a well-formed id that it
    -- does not have is not found by any operation that takes one.
    pub unknown_server :
        (store : TransferStore)
        → b.access ctx.account_id ctx.region s ≡ ok store
        → is_server_id id ≡ true
        → Dict.has id store.servers ≡ false
        → ((describe_server b ctx id s).0 ≡ err unknown)
          × ((create_user b ctx role id name s).0 ≡ err unknown)
          × ((list_users b ctx id s).0 ≡ err unknown)
          × ((delete_user b ctx id name s).0 ≡ err unknown)
    unfolding describe_server create_user list_users delete_user describe_server_in create_user_in
        list_users_in delete_user_in Dict.has
    unknown_server store f valid missing =
        let r₁ = (validated_run b ctx (describe_server_in id) id s store f valid).0 in
        let r₂ = (validated_run b ctx (create_user_in ctx role id name) id s store f valid).0 in
        let r₃ = (validated_run b ctx (list_users_in id) id s store f valid).0 in
        let r₄ = (validated_run b ctx (delete_user_in id name) id s store f valid).0 in
        (r₁ ∙ ground arith, r₂ ∙ ground arith, r₃ ∙ ground arith, r₄ ∙ ground arith)
