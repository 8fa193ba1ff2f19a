-- ===== src/Stores/View.antt =====
-- An abstract view of the stores of a service: the fields that each account and region shows.
use localstack_bb.Base.{
  ℕ, String, ◌≡◌, ◌≢◌, ◌⊎◌, inl, inr, refl, ap, ◌∙◌, Bool, false, ◌&&◌, not, Option, none, some,
  List, [], arith, eq_iff, if◌then◌else◌, Option-cases,
}
use localstack_bb.Base.Dict
use localstack_bb.Base.Dict.{Dict, lookup-insert}
use localstack_bb.Base.Result.{Result, ok, err}
use localstack_bb.Base.Text.{contains}
use localstack_bb.Stores.{
  Config, Error, invalid_region, invalid_account, World, is_account_id, starts_with_digits,
  local_name, make_store, add_bundle, account_getitem, add_store, region_getitem, get_region,
  get_store,
}
use localstack_bb.Stores.Attributes.{local_set}
use localstack_bb.Stores.Shape.{
  IsWellFormed, account_getitem-IsWellFormed, account_getitem-lookup, account_getitem-cases,
  region_getitem-cases,
}
use localstack_bb.Stores.Access.{Holds}
use localstack_bb.Stores.Sharing.{Place-Holds}

-- What decides on a region and finds its store: the account's bundle, or what a new one would be.
pub record Regions : Type 0 where
  pub validate : Bool
  pub valid_regions : List String
  pub regions : Dict ℕ

-- The fields of the store that a key returns.
abbrev pub opened_fields : {V : Type 0} → Result Error ℕ × World V → Result Error (Dict V)
opened_fields (ok o, w) = ok (w.stores o).fields
opened_fields (err e, w) = err e

module _ {V : Type 0} (cfg : Config) where
  abbrev regions_of : World V → Option ℕ → Regions
  regions_of w none = record {
    validate = w.root.validate;
    valid_regions = cfg.valid_regions_for_service w.root.service_name;
    regions = [];
  }
  regions_of w (some b) = record {
    validate = (w.bundles b).validate;
    valid_regions = (w.bundles b).valid_regions;
    regions = (w.bundles b).regions;
  }

  abbrev fields_of : World V → Option ℕ → Dict V
  fields_of w none = []
  fields_of w (some o) = (w.stores o).fields

  abbrev region_fields : String → World V → Regions → Result Error (Dict V)
  region_fields region w rs =
      if not cfg.allow_nonstandard_regions
        && (rs.validate && not (contains region rs.valid_regions))
      then err (invalid_region region)
      else ok (fields_of w (Dict.lookup region rs.regions))

  -- The fields of the store of an account and region, which are none before it is opened.
  unfoldable pub fields_at : String → String → World V → Result Error (Dict V)
  fields_at account region w =
      if w.root.validate && not (is_account_id account)
      then err (invalid_account account)
      else region_fields region w (regions_of w (Dict.lookup account w.root.accounts))

  -- Opening an account's bundle, or a region in it, changes no view.
  add_bundle-fields_at :
      (a : String) {w : World V}
      → IsWellFormed w
      → Dict.lookup a w.root.accounts ≡ none
      → (account region : String)
      → fields_at account region (add_bundle cfg a w) ≡ fields_at account region w
  unfolding fields_at add_bundle Dict.lookup
  add_bundle-fields_at a {w} v new account region =
      let new_lookup = lookup-insert a account w.next w.root.accounts in
      elim (Option-cases (Dict.lookup account w.root.accounts)) [
        | inl missing ↦ ground (arith, missing, new_lookup, eq_iff a account)
        | inr (c, found) ↦
            ground (arith, found, new_lookup, eq_iff a account, v.bundle_at account c found)
      ]

  module _ (a : String) (b : ℕ) (r : String) {w : World V} (v : IsWellFormed w) where
    add_store-fields_of :
        (account region : String) (c : ℕ)
        → Dict.lookup account w.root.accounts ≡ some c
        → Dict.lookup r (w.bundles b).regions ≡ none
        → fields_of (add_store b r w) (Dict.lookup region ((add_store b r w).bundles c).regions)
          ≡ fields_of w (Dict.lookup region (w.bundles c).regions)
    unfolding add_store make_store
    add_store-fields_of account region c here new =
        let new_lookup = lookup-insert r region w.next (w.bundles c).regions in
        elim (Option-cases (Dict.lookup region (w.bundles c).regions)) [
          | inl missing ↦ ground (arith, missing, new_lookup, eq_iff r region)
          | inr (o, found) ↦
              ground (
                arith,
                found,
                new_lookup,
                eq_iff r region,
                v.store_at account c region o here found,
              )
        ]

    add_store-fields_at :
        Dict.lookup r (w.bundles b).regions ≡ none
        → (account region : String)
        → fields_at account region (add_store b r w) ≡ fields_at account region w
    unfolding fields_at add_store starts_with_digits contains Dict.lookup
    add_store-fields_at new account region =
        elim (Option-cases (Dict.lookup account w.root.accounts)) [
          | inl missing ↦ rw missing
          | inr (c, found) ↦ ground (arith, found, add_store-fields_of account region c found new)
        ]

  -- Opening a store changes no view.
  pub account_getitem-fields_at :
      (a : String) {w : World V}
      → IsWellFormed w
      → (account region : String)
      → fields_at account region (account_getitem cfg a w).1 ≡ fields_at account region w
  account_getitem-fields_at a {w} v account region = elim (account_getitem-cases cfg a w) [
    | inl same ↦ ap (λ x. fields_at account region x) same
    | inr (new, grown) ↦
        ap (λ x. fields_at account region x) grown ∙ add_bundle-fields_at a v new account region
  ]

  region_getitem-fields_at :
      (b : ℕ) (r : String) {w : World V}
      → IsWellFormed w
      → (account region : String)
      → fields_at account region (region_getitem cfg b r w).1 ≡ fields_at account region w
  region_getitem-fields_at b r {w} v account region = elim (region_getitem-cases cfg b r w) [
    | inl same ↦ ap (λ x. fields_at account region x) same
    | inr (new, grown) ↦
        ap (λ x. fields_at account region x) grown ∙ add_store-fields_at "" b r v new account region
  ]

  get_region-fields_at :
      (r : String) (found : Result Error ℕ) {w : World V}
      → IsWellFormed w
      → (account region : String)
      → fields_at account region (get_region cfg r found w).1 ≡ fields_at account region w
  get_region-fields_at r (ok b) v account region = region_getitem-fields_at b r v account region
  get_region-fields_at r (err e) v account region = refl

  pub get_store-fields_at :
      (a r : String) {w : World V}
      → IsWellFormed w
      → (account region : String)
      → fields_at account region (get_store cfg a r w).1 ≡ fields_at account region w
  unfolding get_store
  get_store-fields_at a r {w} v account region =
      get_region-fields_at r (account_getitem cfg a w).0 (account_getitem-IsWellFormed v cfg a)
        account region
      ∙ account_getitem-fields_at a v account region

  -- The store that is opened shows the fields of its account and region.
  opened_fields-region :
      (b : ℕ) (r : String) (w : World V)
      → opened_fields (region_getitem cfg b r w) ≡ region_fields r w (regions_of w (some b))
  unfolding region_getitem add_store make_store
  opened_fields-region b r w = ground arith

  account_getitem-accepts :
      (a : String) (b : ℕ) (w : World V)
      → (account_getitem cfg a w).0 ≡ ok b
      → ((account_getitem cfg a w).1.root.validate && not (is_account_id a)) ≡ false
  unfolding account_getitem add_bundle
  account_getitem-accepts a b w e = ground arith

  fields_at-of_bundle :
      (a r : String) (b : ℕ) (w : World V)
      → (w.root.validate && not (is_account_id a)) ≡ false
      → Dict.lookup a w.root.accounts ≡ some b
      → region_fields r w (regions_of w (some b)) ≡ fields_at a r w
  unfolding fields_at
  fields_at-of_bundle a r b w accepts here = rw (accepts, here)

  fields_at-of_error :
      (a r : String) (e : Error) (w : World V)
      → (account_getitem cfg a w).0 ≡ err e
      → err e ≡ fields_at a r w
  unfolding account_getitem fields_at
  fields_at-of_error a r e w h = ground arith

  opened_fields-get_region :
      (a r : String) {w : World V}
      → IsWellFormed w
      → (found : Result Error ℕ) → (account_getitem cfg a w).0 ≡ found
      → opened_fields (get_region cfg r found (account_getitem cfg a w).1) ≡ fields_at a r w
  opened_fields-get_region a r {w} v (ok b) e =
      let w' = (account_getitem cfg a w).1 in
      opened_fields-region b r w'
      ∙ fields_at-of_bundle a r b w' (account_getitem-accepts a b w e)
          (account_getitem-lookup v cfg a b e)
      ∙ account_getitem-fields_at a v a r
  opened_fields-get_region a r {w} v (err x) e = fields_at-of_error a r x w e

  -- In a well-formed world, a store that is opened has the fields that the view by account and
  -- region shows, and is refused where the view is.
  pub opened_fields-get_store :
      (a r : String) {w : World V}
      → IsWellFormed w
      → opened_fields (get_store cfg a r w) ≡ fields_at a r w
  unfolding get_store
  opened_fields-get_store a r {w} v =
      opened_fields-get_region a r v (account_getitem cfg a w).0 refl

  -- A write to a local attribute is seen in the view of its account and region, and in no other.
  module _ {w : World V} (v : IsWellFormed w) {a r : String} {o : ℕ} (h : Holds w a r o)
      (name : String) (u : V) where
    pub local_set-fields_at_self :
        (fields : Dict V)
        → fields_at a r w ≡ ok fields
        → fields_at a r (local_set name u o w) ≡ ok (Dict.insert (local_name name) u fields)
    unfolding fields_at local_set
    local_set-fields_at_self fields e = ground (arith, h.at_account, h.at_region)

    local_set-fields_of :
        (account region : String) (c : ℕ)
        → (a ≢ account) ⊎ (r ≢ region)
        → Dict.lookup account w.root.accounts ≡ some c
        → fields_of (local_set name u o w) (Dict.lookup region (w.bundles c).regions)
          ≡ fields_of w (Dict.lookup region (w.bundles c).regions)
    unfolding local_set
    local_set-fields_of account region c ne here =
        elim (Option-cases (Dict.lookup region (w.bundles c).regions)) [
          | inl missing ↦ rw missing
          | inr (p, found) ↦
              let mine = Place-Holds v h in
              let other = v.store_at account c region p here found in
              let place = v.bundle_at account c here in
              ground (arith, found, mine.link, mine.place, other, place)
        ]

    pub local_set-fields_at_ne :
        (account region : String)
        → (a ≢ account) ⊎ (r ≢ region)
        → fields_at account region (local_set name u o w) ≡ fields_at account region w
    unfolding fields_at local_set Dict.lookup
    local_set-fields_at_ne account region ne =
        elim (Option-cases (Dict.lookup account w.root.accounts)) [
          | inl missing ↦ ground (arith, missing)
          | inr (c, found) ↦ ground (arith, found, local_set-fields_of account region c ne found)
        ]
