-- ===== src/Transfer/Runs.antt =====
-- A handler's run, in terms of its body on the store of the request.
use localstack_bb.Base.{String, ◌≡◌, ◌≢◌, ◌⊎◌, true, arith, refl}
use localstack_bb.Base.Result.{Result, ok, err}
use localstack_bb.Stores
use localstack_bb.Transfer.{TransferStore, RequestContext, Error, is_server_id}
use localstack_bb.Transfer.Backend.{Backend, with_store, validated}

module _ (b : Backend) (ctx : RequestContext) {A : Type 0}
    (body : TransferStore → Result Error A × TransferStore) where
  -- What a run on an opened store answers, and the store that it leaves.
  pub with_store_run :
      (s : b.State) (store : TransferStore)
      → b.access ctx.account_id ctx.region s ≡ ok store
      → ((with_store b ctx body s).0 ≡ (body store).0)
        × (b.access ctx.account_id ctx.region (with_store b ctx body s).1 ≡ ok (body store).1)
  unfolding with_store
  with_store_run s store opened =
      rw (opened, with_store)
        (refl, b.access-commit_self ctx.account_id ctx.region store (body store).1 s opened)

  pub validated_run :
      (id : String) (s : b.State) (store : TransferStore)
      → b.access ctx.account_id ctx.region s ≡ ok store
      → is_server_id id ≡ true
      → ((validated b ctx id (with_store b ctx body) s).0 ≡ (body store).0)
        × (b.access ctx.account_id ctx.region (validated b ctx id (with_store b ctx body) s).1
            ≡ ok (body store).1)
  unfolding validated
  validated_run id s store opened valid = rw valid (with_store_run s store opened)

  pub validated-eq-ok :
      (id : String) (s : b.State) (x : A)
      → (validated b ctx id (with_store b ctx body) s).0 ≡ ok x
      → is_server_id id ≡ true
  unfolding validated
  validated-eq-ok id s x e = ground arith

  -- A store of another account or region is not touched.
  pub with_store_ne :
      (ctx' : RequestContext) (s : b.State)
      → (ctx.account_id ≢ ctx'.account_id) ⊎ (ctx.region ≢ ctx'.region)
      → b.access ctx'.account_id ctx'.region (with_store b ctx body s).1
        ≡ b.access ctx'.account_id ctx'.region s
  unfolding with_store
  with_store_ne ctx' s ne = go (b.access ctx.account_id ctx.region s) refl
    where
      go :
          (found : Result Stores.Error TransferStore)
          → b.access ctx.account_id ctx.region s ≡ found
          → b.access ctx'.account_id ctx'.region (with_store b ctx body s).1
            ≡ b.access ctx'.account_id ctx'.region s
      go (err e) f = rw (f, with_store)
      go (ok store) f =
          rw (f, with_store)
            (b.access-commit_ne ctx.account_id ctx.region ctx'.account_id ctx'.region (body store).1
              s ne)
