-- ===== src/Stores/Reset.antt =====
-- What `reset` leaves of the attributes, also in a store that a client has kept.
use text.Mathlib.Text.{starts_with}
use text.Mathlib.TextEquality.{starts_with_iff}
use text.Mathlib.TextLemmas.{prefix-append}
use native.Mathlib.Decide.{ℕ_discrete}
use localstack_bb.Base.{
  ℕ, String, ◌≡◌, ◌≢◌, refl, Bool, true, none, some, List, [], ◌∷◌, arith, eq_iff, ap, str_eq,
  if◌then◌else◌, inl, inr, Bool-cases, ◌∙◌,
}
use localstack_bb.Base.Dict
use localstack_bb.Base.Dict.{Dict}
use localstack_bb.Stores.{World, local_name, local_attr_prefix}
use localstack_bb.Stores.Clear.{
  drop_local, clear_dict, clear_locals, reset_store, reset_stores, clear_regions, region_reset,
  region_resets,
}
use localstack_bb.Stores.Frame.{reset_stores-SameShape}

starts_with-local_name : (name : String) → starts_with (local_name name) local_attr_prefix ≡ true
starts_with-local_name name =
    (starts_with_iff (local_name name) local_attr_prefix).1 (prefix-append local_attr_prefix name)

module _ {V : Type 0} where
  -- Dropping the local attributes keeps every other entry.
  pub lookup-drop_local :
      (k : String) (fields : Dict V)
      → Dict.lookup k (drop_local fields)
        ≡ (if starts_with k local_attr_prefix then none else Dict.lookup k fields)
  unfolding drop_local Dict.lookup
  lookup-drop_local k [] = ground arith
  lookup-drop_local k ((j, v) ∷ fields) = ground (arith, lookup-drop_local k fields, eq_iff j k)

  -- No local attribute of the store is set.
  pub record NoLocals (o : ℕ) (w : World V) : Type 0 where
    pub missing : (name : String) → Dict.lookup (local_name name) (w.stores o).fields ≡ none

  reset_store-NoLocals : (flag : Bool) (o : ℕ) (w : World V) → NoLocals o (reset_store flag o w)
  unfolding reset_store clear_dict clear_locals
  reset_store-NoLocals flag o w = record {
    missing = λ name. ground (
      arith,
      lookup-drop_local (local_name name) (w.stores o).fields,
      starts_with-local_name name,
    );
  }

  reset_store-keeps_NoLocals :
      (flag : Bool) (p o : ℕ) (w : World V) → NoLocals o w → NoLocals o (reset_store flag p w)
  unfolding reset_store clear_dict clear_locals
  reset_store-keeps_NoLocals flag p o w h = record {
    missing = λ name.
        ground (arith, lookup-drop_local (local_name name) (w.stores o).fields, h.missing name);
  }

  -- A shared dict that is empty stays so.
  reset_store-keeps_empty :
      (flag : Bool) (p g : ℕ) (w : World V) → w.dicts g ≡ [] → (reset_store flag p w).dicts g ≡ []
  unfolding reset_store clear_dict clear_locals
  reset_store-keeps_empty flag p g w h = ground arith

  module _ (flag : Bool) (o g : ℕ) where
    pub reset_stores-keeps_NoLocals :
        (os : List ℕ) (w : World V) → NoLocals o w → NoLocals o (reset_stores flag os w)
    unfolding reset_stores
    reset_stores-keeps_NoLocals [] w h = h
    reset_stores-keeps_NoLocals (p ∷ os) w h =
        reset_stores-keeps_NoLocals os (reset_store flag p w)
          (reset_store-keeps_NoLocals flag p o w h)

    pub reset_stores-keeps_empty :
        (os : List ℕ) (w : World V) → w.dicts g ≡ [] → (reset_stores flag os w).dicts g ≡ []
    unfolding reset_stores
    reset_stores-keeps_empty [] w h = h
    reset_stores-keeps_empty (p ∷ os) w h =
        reset_stores-keeps_empty os (reset_store flag p w) (reset_store-keeps_empty flag p g w h)

    pub reset_stores-NoLocals :
        (region : String) (d : Dict ℕ) (w : World V)
        → Dict.lookup region d ≡ some o
        → NoLocals o (reset_stores flag (Dict.values d) w)
    unfolding Dict.lookup Dict.values reset_stores
    reset_stores-NoLocals region [] w h = absurd (cc)
    reset_stores-NoLocals region ((j, p) ∷ d) w h = elim (Bool-cases (str_eq j region)) [
      | inl e ↦
          let same : p ≡ o = ground arith in
          reset_stores-keeps_NoLocals (Dict.values d) (reset_store flag p w)
            (rw same (reset_store-NoLocals flag o w))
      | inr e ↦ reset_stores-NoLocals region d (reset_store flag p w) (rw e at h)
    ]

  module _ (flag : Bool) (b : ℕ) (w : World V) where
    pub region_reset-bundles : (c : ℕ) → b ≢ c → (region_reset flag b w).bundles c ≡ w.bundles c
    unfolding region_reset clear_regions clear_dict
    region_reset-bundles c ne =
        let s = reset_stores-SameShape flag (Dict.values (w.bundles b).regions) w in
        ground (arith, ap (λ f. f c) s.bundles)

    -- References stay, and so does the account bundle.
    pub region_reset-links :
        (o : ℕ)
        → ((region_reset flag b w).root ≡ w.root)
          × (((region_reset flag b w).stores o).global ≡ (w.stores o).global)
          × (((region_reset flag b w).stores o).universal ≡ (w.stores o).universal)
          × ((region_reset flag b w).next ≡ w.next)
    unfolding region_reset clear_regions clear_dict
    region_reset-links o =
        let s = reset_stores-SameShape flag (Dict.values (w.bundles b).regions) w in
        (s.root, s.globals o, s.universals o, s.next)

    region_reset-keeps_NoLocals : (o : ℕ) → NoLocals o w → NoLocals o (region_reset flag b w)
    unfolding region_reset clear_regions clear_dict
    region_reset-keeps_NoLocals o h =
        let k = reset_stores-keeps_NoLocals flag o 0 (Dict.values (w.bundles b).regions) w h in
        record { missing = k.missing }

    region_reset-keeps_empty : (g : ℕ) → w.dicts g ≡ [] → (region_reset flag b w).dicts g ≡ []
    unfolding region_reset clear_regions clear_dict
    region_reset-keeps_empty g h =
        let k = reset_stores-keeps_empty flag 0 g (Dict.values (w.bundles b).regions) w h in
        ground (arith, k)

    pub region_reset-NoLocals :
        (region : String) (o : ℕ)
        → Dict.lookup region (w.bundles b).regions ≡ some o
        → NoLocals o (region_reset flag b w)
    unfolding region_reset clear_regions clear_dict
    region_reset-NoLocals region o h =
        let k = reset_stores-NoLocals flag o 0 region (w.bundles b).regions w h in
        record { missing = k.missing }

    pub region_reset-empty : (region_reset flag b w).dicts (w.bundles b).global ≡ []
    unfolding region_reset clear_regions clear_dict
    region_reset-empty =
        let s = reset_stores-SameShape flag (Dict.values (w.bundles b).regions) w in
        ground (arith, ap (λ f. (f b).global) s.bundles)

  -- What the loop over the accounts clears, for one registered store.
  region_resets-keeps :
      (o g : ℕ) (d : Dict ℕ) (w : World V)
      → NoLocals o w
      → w.dicts g ≡ []
      → NoLocals o (region_resets d w) × ((region_resets d w).dicts g ≡ [])
  unfolding region_resets
  region_resets-keeps o g [] w h e = (h, e)
  region_resets-keeps o g ((a, b) ∷ d) w h e =
      region_resets-keeps o g d (region_reset true b w) (region_reset-keeps_NoLocals true b w o h)
        (region_reset-keeps_empty true b w g e)

  pub region_resets-clears :
      (account region : String) (b o : ℕ) (d : Dict ℕ) (w : World V)
      → Dict.lookup account d ≡ some b
      → Dict.lookup region (w.bundles b).regions ≡ some o
      → NoLocals o (region_resets d w) × ((region_resets d w).dicts (w.bundles b).global ≡ [])
  unfolding region_resets Dict.lookup
  region_resets-clears account region b o [] w h k = absurd (cc)
  region_resets-clears account region b o ((a, c) ∷ d) w h k = elim (ℕ_discrete c b) [
    | yes e ↦ rw e (
        region_resets-keeps o (w.bundles b).global d (region_reset true b w)
          (region_reset-NoLocals true b w region o k) (region_reset-empty true b w))
    | no ne ↦
        let same = region_reset-bundles true c w b ne in
        let later : Dict.lookup account d ≡ some b = ground arith in
        rw same at
          (region_resets-clears account region b o d (region_reset true c w) later (rw same k))
  ]

  pub region_resets-links :
      (d : Dict ℕ) (o : ℕ) (w : World V)
      → ((region_resets d w).root ≡ w.root)
        × (((region_resets d w).stores o).global ≡ (w.stores o).global)
        × (((region_resets d w).stores o).universal ≡ (w.stores o).universal)
        × ((region_resets d w).next ≡ w.next)
  unfolding region_resets
  region_resets-links [] o w = (refl, refl, refl, refl)
  region_resets-links ((a, b) ∷ d) o w =
      let h = region_resets-links d o (region_reset true b w) in
      let k = region_reset-links true b w o in (h.0 ∙ k.0, h.1 ∙ k.1, h.2 ∙ k.2, h.3 ∙ k.3)
