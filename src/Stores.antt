-- ===== src/Stores.antt =====
-- localstack-core/localstack/services/stores.py: the stores of a service, one for each account and
-- region, on a heap of shared objects. An address names a dict of shared attributes, a store or a
-- region bundle; `next` is the first free one.
pub mod Attributes
pub mod Clear
pub mod Shape
pub mod Frame
pub mod Access
pub mod Sharing
pub mod Isolation
pub mod Reset
pub mod Defaults
pub mod History
pub mod View
mod Tests
use Prim.Native.String
use localstack_bb.Base.{
  ℕ, ◌+◌, String, Bool, true, false, ◌&&◌, not, Option, none, some, List, [], ◌∷◌, ◌++◌,
  if◌then◌else◌,
}
use localstack_bb.Base.Dict
use localstack_bb.Base.Dict.{Dict}
use localstack_bb.Base.Heap.{update}
use localstack_bb.Base.Result.{Result, ok, err}
use localstack_bb.Base.Text.{is_decimal, contains}

-- The default of an attribute: a scalar, or a callable that makes a fresh value.
pub data Default (V : Type 0) : Type 0 where
  scalar : V → Default V
  factory : (Unit {0} → V) → Default V

abbrev pub default_value : {V : Type 0} → Default V → V
default_value (scalar v) = v
default_value (factory f) = f tt

-- `ValueError` for a region or an account, `AttributeError` for a store without a bundle.
pub data Error : Type 0 where
  invalid_region : String → Error
  invalid_account : String → Error
  no_association : Error

-- A store: `fields` are the entries of its `__dict__` other than these.
pub record Store (V : Type 0) : Type 0 where
  pub global : Option ℕ
  pub universal : Option ℕ
  pub service_name : Option String
  pub account_id : Option String
  pub region_name : Option String
  pub fields : Dict V

pub record RegionBundle : Type 0 where
  pub account_id : String
  pub service_name : String
  pub validate : Bool
  pub valid_regions : List String
  pub global : ℕ
  pub universal : ℕ
  pub regions : Dict ℕ

pub record AccountRegionBundle : Type 0 where
  pub service_name : String
  pub validate : Bool
  pub universal : ℕ
  pub accounts : Dict ℕ

pub record World (V : Type 0) : Type 0 where
  pub next : ℕ
  pub dicts : ℕ → Dict V
  pub stores : ℕ → Store V
  pub bundles : ℕ → RegionBundle
  pub root : AccountRegionBundle

-- What the code reads of the configuration and of botocore's list of regions.
pub record Config : Type 0 where
  pub allow_nonstandard_regions : Bool
  pub valid_regions_for_service : String → List String

abbrev pub local_attr_prefix : String
local_attr_prefix = "attr_"

abbrev pub local_name : String → String
local_name name = String.◌++◌ local_attr_prefix name

-- `re.match(r"\d{12}", account_id)`: the pattern is not anchored at the end.
unfoldable pub starts_with_digits : ℕ → String → Bool
starts_with_digits ℕ.zero s = true
starts_with_digits (ℕ.suc n) String.[] = false
starts_with_digits (ℕ.suc n) (String.◌∷◌ c s) = is_decimal c && starts_with_digits n s

abbrev pub is_account_id : String → Bool
is_account_id account = starts_with_digits 12 account

abbrev pub no_bundle : RegionBundle
no_bundle = record {
  account_id = "";
  service_name = "";
  validate = true;
  valid_regions = [];
  global = 0;
  universal = 0;
  regions = [];
}

-- The inner loop of `iter_stores`.
unfoldable pub region_stores : String → Dict ℕ → List (String × String × ℕ)
region_stores account [] = []
region_stores account ((region, o) ∷ rest) = (account, region, o) ∷ region_stores account rest

module _ {V : Type 0} where
  -- `AccountRegionBundle(service_name, store, validate)` on an empty heap; a bare `Store()`.
  abbrev pub bare_store : Store V
  bare_store = record {
    global = none;
    universal = none;
    service_name = none;
    account_id = none;
    region_name = none;
    fields = [];
  }

  unfoldable pub new_bundle : String → Bool → World V
  new_bundle service validate = record {
    next = 1;
    dicts = λ _. [];
    stores = λ _. bare_store;
    bundles = λ _. no_bundle;
    root = record { service_name = service; validate = validate; universal = 0; accounts = [] };
  }

  -- The new store of a region, with references to the bundle's shared dicts.
  unfoldable pub make_store : RegionBundle → String → Store V
  make_store b region = record {
    global = some b.global;
    universal = some b.universal;
    service_name = some b.service_name;
    account_id = some b.account_id;
    region_name = some region;
    fields = [];
  }

  unfoldable pub add_store : ℕ → String → World V → World V
  unfolding make_store
  add_store b region w = record w {
    next = w.next + 1;
    stores = update w.stores w.next (make_store (w.bundles b) region);
    bundles =
        update w.bundles b
          (record (w.bundles b) { regions = Dict.insert region w.next (w.bundles b).regions });
  }

  -- `RegionBundle.__getitem__`
  unfoldable pub region_getitem : Config → ℕ → String → World V → Result Error ℕ × World V
  region_getitem cfg b region w =
      if not cfg.allow_nonstandard_regions
        && ((w.bundles b).validate && not (contains region (w.bundles b).valid_regions))
      then (err (invalid_region region), w)
      else elim (Dict.lookup region (w.bundles b).regions) [
        | some o ↦ (ok o, w)
        | none ↦ (ok w.next, add_store b region w)
      ]

  -- `RegionBundle.__init__`, as the account bundle calls it: the bundle and its `_global`.
  unfoldable pub add_bundle : Config → String → World V → World V
  add_bundle cfg account w = record w {
    next = w.next + 2;
    dicts = update w.dicts (w.next + 1) [];
    bundles = update w.bundles w.next (record {
      account_id = account;
      service_name = w.root.service_name;
      validate = w.root.validate;
      valid_regions = cfg.valid_regions_for_service w.root.service_name;
      global = w.next + 1;
      universal = w.root.universal;
      regions = [];
    });
    root = record (w.root) { accounts = Dict.insert account w.next w.root.accounts };
  }

  -- `AccountRegionBundle.__getitem__`
  unfoldable pub account_getitem : Config → String → World V → Result Error ℕ × World V
  account_getitem cfg account w =
      if w.root.validate && not (is_account_id account)
      then (err (invalid_account account), w)
      else elim (Dict.lookup account w.root.accounts) [
        | some b ↦ (ok b, w)
        | none ↦ (ok w.next, add_bundle cfg account w)
      ]

  abbrev get_region : Config → String → Result Error ℕ → World V → Result Error ℕ × World V
  get_region cfg region (ok b) w = region_getitem cfg b region w
  get_region cfg region (err e) w = (err e, w)

  -- `bundle[account][region]`
  unfoldable pub get_store : Config → String → String → World V → Result Error ℕ × World V
  get_store cfg account region w =
      let (b, w') = account_getitem cfg account w in get_region cfg region b w'

  -- `iter_stores`
  unfoldable pub account_stores : World V → Dict ℕ → List (String × String × ℕ)
  account_stores w [] = []
  account_stores w ((account, b) ∷ rest) =
      region_stores account (w.bundles b).regions ++ account_stores w rest

  unfoldable pub iter_stores : World V → List (String × String × ℕ)
  unfolding account_stores region_stores
  iter_stores w = account_stores w w.root.accounts
