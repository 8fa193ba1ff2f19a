-- ===== src/Transfer/OnStores.antt =====
-- The Transfer provider's stores, `transfer_stores`: an account bundle whose stores have the local
-- attributes `servers` and `users`.
use localstack_bb.Base.{
  ℕ, String, ◌≡◌, ◌≢◌, ◌⊎◌, refl, ap, ◌∙◌, sym, subst, true, none, some, List, [], arith,
}
use localstack_bb.Base.Dict
use localstack_bb.Base.Dict.{Dict, lookup-insert}
use localstack_bb.Base.Result.{Result, ok, err}
use localstack_bb.Stores
use localstack_bb.Stores.{Config, Default, factory, World, new_bundle, get_store, local_name}
use localstack_bb.Stores.Attributes.{local_get, local_set}
use localstack_bb.Stores.Shape.{IsWellFormed, new_bundle-IsWellFormed, get_store-IsWellFormed}
use localstack_bb.Stores.Frame.{IsWellFormed-SameShape, local_set-SameShape}
use localstack_bb.Stores.Access.{Holds, get_store-Holds}
use localstack_bb.Stores.View.{
  fields_at, opened_fields, get_store-fields_at, opened_fields-get_store, local_set-fields_at_self,
  local_set-fields_at_ne,
}
use localstack_bb.Transfer.{TransferStore, ServerInstance, UserInstance, RequestContext}
use localstack_bb.Transfer.Keyed.{empty_store, empty_store-IsKeyed}
use localstack_bb.Transfer.Requests.{Request, serve}
use localstack_bb.Transfer.Safety.{AllKeyed, serve-AllKeyed}
use localstack_bb.Transfer.Backend.{Backend}

-- The values of the two attributes.
pub data Attribute : Type 0 where
  servers_attribute : Dict ServerInstance → Attribute
  users_attribute : Dict (Dict UserInstance) → Attribute

abbrev pub as_servers : Attribute → Dict ServerInstance
as_servers (servers_attribute d) = d
as_servers (users_attribute d) = []

abbrev pub as_users : Attribute → Dict (Dict UserInstance)
as_users (servers_attribute d) = []
as_users (users_attribute d) = d

abbrev pub no_servers : Default Attribute
no_servers = factory (λ _. servers_attribute [])

abbrev pub no_users : Default Attribute
no_users = factory (λ _. users_attribute [])

-- The two attributes of a store, each read through its descriptor.
unfoldable pub read_store : ℕ → World Attribute → TransferStore
read_store o w = record {
  servers = as_servers (local_get "servers" no_servers o w).0;
  users = as_users (local_get "users" no_users o w).0;
}

unfoldable pub write_store : ℕ → TransferStore → World Attribute → World Attribute
write_store o new w =
    local_set "users" (users_attribute new.users) o
      (local_set "servers" (servers_attribute new.servers) o w)

abbrev pub read_opened : Result Stores.Error ℕ × World Attribute → Result Stores.Error TransferStore
read_opened (ok o, w) = ok (read_store o w)
read_opened (err e, w) = err e

abbrev pub write_opened : TransferStore → Result Stores.Error ℕ × World Attribute → World Attribute
write_opened new (ok o, w) = write_store o new w
write_opened new (err e, w) = w

-- The attributes that a dict of fields holds.
decode : Dict Attribute → TransferStore
decode fields = record {
  servers = elim (Dict.lookup (local_name "servers") fields) [ none ↦ [] | some a ↦ as_servers a ];
  users = elim (Dict.lookup (local_name "users") fields) [ none ↦ [] | some a ↦ as_users a ];
}

abbrev decoded : Result Stores.Error (Dict Attribute) → Result Stores.Error TransferStore
decoded (ok fields) = ok (decode fields)
decoded (err e) = err e

read_opened-decoded :
    (p : Result Stores.Error ℕ × World Attribute) → read_opened p ≡ decoded (opened_fields p)
unfolding read_store decode local_get
read_opened-decoded (ok o, w) = ground arith
read_opened-decoded (err e, w) = refl

-- A heap of stores of the right shape.
pub record Live : Type 0 where
  pub world : World Attribute
  pub shape : IsWellFormed world

module _ (cfg : Config) where
  unfoldable pub access : String → String → Live → Result Stores.Error TransferStore
  unfolding read_store
  access account region s = read_opened (get_store cfg account region s.world)

  pub write_opened-IsWellFormed :
      (new : TransferStore) (p : Result Stores.Error ℕ × World Attribute)
      → IsWellFormed p.1
      → IsWellFormed (write_opened new p)
  unfolding write_store
  write_opened-IsWellFormed new (ok o, w) v =
      IsWellFormed-SameShape (local_set-SameShape "users" _ o _)
        (IsWellFormed-SameShape (local_set-SameShape "servers" _ o w) v)
  write_opened-IsWellFormed new (err e, w) v = v

  unfoldable pub commit : String → String → TransferStore → Live → Live
  unfolding write_store
  commit account region new s = record {
    world = write_opened new (get_store cfg account region s.world);
    shape =
        write_opened-IsWellFormed new (get_store cfg account region s.world)
          (get_store-IsWellFormed s.shape cfg account region);
  }

  access-view :
      (account region : String) (s : Live)
      → access account region s ≡ decoded (fields_at cfg account region s.world)
  unfolding access
  access-view account region s =
      read_opened-decoded (get_store cfg account region s.world)
      ∙ ap decoded (opened_fields-get_store cfg account region s.shape)

  -- The view of the world that a change leaves, at the key of the change and at the others.
  module _ {w : World Attribute} (v : IsWellFormed w) {account region : String} {o : ℕ}
      (h : Holds w account region o) (new : TransferStore) where
    abbrev servers_written : World Attribute
    servers_written = local_set "servers" (servers_attribute new.servers) o w

    servers_written-IsWellFormed : IsWellFormed servers_written
    servers_written-IsWellFormed = IsWellFormed-SameShape (local_set-SameShape "servers" _ o w) v

    servers_written-Holds : Holds servers_written account region o
    unfolding local_set
    servers_written-Holds = record {
      bundle = h.bundle;
      at_account = h.at_account;
      at_region = h.at_region;
    }

    write_store-view_self :
        (fields : Dict Attribute)
        → fields_at cfg account region w ≡ ok fields
        → decoded (fields_at cfg account region (write_store o new w)) ≡ ok new
    unfolding write_store decode
    write_store-view_self fields e =
        let servers = servers_attribute new.servers in
        let users = users_attribute new.users in
        let s₁ = local_set-fields_at_self cfg v h "servers" servers fields e in
        let between = Dict.insert (local_name "servers") servers fields in
        let s₂ =
          local_set-fields_at_self cfg servers_written-IsWellFormed servers_written-Holds "users"
            users between s₁ in
        ground (
          arith,
          s₂,
          lookup-insert (local_name "users") (local_name "servers") users between,
          lookup-insert (local_name "users") (local_name "users") users between,
          lookup-insert (local_name "servers") (local_name "servers") servers fields,
        )

    write_store-view_ne :
        (account' region' : String)
        → (account ≢ account') ⊎ (region ≢ region')
        → fields_at cfg account' region' (write_store o new w) ≡ fields_at cfg account' region' w
    unfolding write_store
    write_store-view_ne account' region' ne =
        local_set-fields_at_ne cfg servers_written-IsWellFormed servers_written-Holds "users" _
          account' region' ne
        ∙ local_set-fields_at_ne cfg v h "servers" _ account' region' ne

  module _ (account region : String) (new : TransferStore) (s : Live) where
    opened-IsWellFormed : IsWellFormed (get_store cfg account region s.world).1
    opened-IsWellFormed = get_store-IsWellFormed s.shape cfg account region

    -- A store that was opened, with its place and its fields.
    module _ (p : Result Stores.Error ℕ × World Attribute)
        (e : get_store cfg account region s.world ≡ p) where
      result-IsWellFormed : IsWellFormed p.1
      result-IsWellFormed = subst (λ q. IsWellFormed q.1) e opened-IsWellFormed

      result-view :
          (account' region' : String)
          → fields_at cfg account' region' p.1 ≡ fields_at cfg account' region' s.world
      result-view account' region' =
          subst (λ q. fields_at cfg account' region' q.1 ≡ fields_at cfg account' region' s.world) e
            (get_store-fields_at cfg account region s.shape account' region')

      result-Holds : (o : ℕ) → p.0 ≡ ok o → Holds p.1 account region o
      result-Holds o found =
          subst (λ q. Holds q.1 account region o) e
            (get_store-Holds s.shape cfg account region o (ap (λ q. q.0) e ∙ found))

      result-fields : fields_at cfg account region p.1 ≡ opened_fields p
      result-fields =
          result-view account region
          ∙ sym (opened_fields-get_store cfg account region s.shape)
          ∙ ap opened_fields e

    commit-view_self :
        (p : Result Stores.Error ℕ × World Attribute) (old : TransferStore)
        → get_store cfg account region s.world ≡ p
        → read_opened p ≡ ok old
        → decoded (fields_at cfg account region (write_opened new p)) ≡ ok new
    commit-view_self (ok o, w) old e r =
        write_store-view_self (result-IsWellFormed (ok o, w) e) (result-Holds (ok o, w) e o refl)
          new (w.stores o).fields (result-fields (ok o, w) e)
    commit-view_self (err x, w) old e r = absurd (cc)

    commit-view_ne :
        (p : Result Stores.Error ℕ × World Attribute) (account' region' : String)
        → get_store cfg account region s.world ≡ p
        → (account ≢ account') ⊎ (region ≢ region')
        → fields_at cfg account' region' (write_opened new p)
          ≡ fields_at cfg account' region' s.world
    commit-view_ne (ok o, w) account' region' e ne =
        write_store-view_ne (result-IsWellFormed (ok o, w) e) (result-Holds (ok o, w) e o refl) new
          account' region' ne
        ∙ result-view (ok o, w) e account' region'
    commit-view_ne (err x, w) account' region' e ne = result-view (err x, w) e account' region'

  -- What is written back to the store of an account and region, where that store is read without
  -- an error, is what is then read there.
  pub access-commit_self :
      (account region : String) (old new : TransferStore) (s : Live)
      → access account region s ≡ ok old
      → access account region (commit account region new s) ≡ ok new
  unfolding commit
  access-commit_self account region old new s h =
      access-view account region (commit account region new s)
      ∙ commit-view_self account region new s (get_store cfg account region s.world) old refl
          (unfold access in h)

  -- What is written back to one store is not seen in the store of another account or of another
  -- region.
  pub access-commit_ne :
      (account region account' region' : String) (new : TransferStore) (s : Live)
      → (account ≢ account') ⊎ (region ≢ region')
      → access account' region' (commit account region new s) ≡ access account' region' s
  unfolding commit
  access-commit_ne account region account' region' new s ne =
      access-view account' region' (commit account region new s)
      ∙ ap decoded (
          commit-view_ne account region new s (get_store cfg account region s.world) account'
            region' refl ne)
      ∙ sym (access-view account' region' s)

  -- The stores meet what the provider assumes of them.
  abbrev pub transfer_stores : Backend
  transfer_stores = record {
    State = Live;
    access = access;
    commit = commit;
    access-commit_self = access-commit_self;
    access-commit_ne = access-commit_ne;
  }

-- `AccountRegionBundle("transfer", TransferStore)`
abbrev pub no_stores : Live
no_stores = record {
  world = new_bundle "transfer" true;
  shape = new_bundle-IsWellFormed "transfer" true;
}

-- Before any request every account and region shows an empty store.
access-no_stores :
    (cfg : Config) (account region : String) (store : TransferStore)
    → access cfg account region no_stores ≡ ok store
    → empty_store ≡ store
unfolding fields_at new_bundle decode Dict.lookup
access-no_stores cfg account region store h =
    ground (arith, access-view cfg account region no_stores)

pub no_stores-AllKeyed : (cfg : Config) → AllKeyed (transfer_stores cfg) no_stores
no_stores-AllKeyed cfg = record {
  keyed = λ account region store h.
      rw (access-no_stores cfg account region store h) at empty_store-IsKeyed;
}

-- Whatever the requests, on the stores as the service starts with them, the dictionaries of every
-- account and region agree with what they hold.
pub served-AllKeyed :
    (cfg : Config) (requests : List (RequestContext × Request))
    → AllKeyed (transfer_stores cfg) (serve (transfer_stores cfg) requests no_stores)
served-AllKeyed cfg requests =
    serve-AllKeyed (transfer_stores cfg) requests no_stores (no_stores-AllKeyed cfg)
