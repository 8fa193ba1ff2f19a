-- ===== src/Routing/Catalog.antt =====
-- ServiceCatalog with the index built from the models, and load_service
-- (localstack-core/localstack/aws/spec.py). The loader of botocore is a parameter.
use localstack_bb.Base.{
  String, ◌≡◌, refl, sym, ap, ◌∙◌, Bool, false, ◌||◌, Option, none, some, List, [], ◌∷◌, ◌++◌,
  arith, str_eq, if◌then◌else◌, eq_iff, Bool-cases, inl, inr, append_assoc, append-nil,
}
use localstack_bb.Base.Text.{contains}
use localstack_bb.Base.Dict.{Dict, lookup}
use localstack_bb.Routing.{ServiceModelIdentifier, ServiceModel}

unfoldable pub is_protocol_in_service_model_identifier : String → ServiceModelIdentifier → Bool
is_protocol_in_service_model_identifier protocol i =
    elim i.protocols [ none ↦ false | some ps ↦ contains protocol ps ]
    || elim i.protocol [ none ↦ false | some p ↦ str_eq protocol p ]

abbrev pub nonempty : List String → Option (List String)
nonempty [] = none
nonempty (p ∷ ps) = some (p ∷ ps)

-- An empty list of protocols counts as none.
unfoldable pub get_service_model_identifier : ServiceModel → ServiceModelIdentifier
get_service_model_identifier m = record {
  name = m.service_name;
  protocol = some m.protocol;
  protocols = elim m.protocols [ none ↦ none | some ps ↦ nonempty ps ];
}

abbrev pub Index : Type 0
Index = Dict (List ServiceModelIdentifier)

-- `result[key].append(identifier)` on a defaultdict.
unfoldable pub append_to : String → ServiceModelIdentifier → Index → Index
append_to k i [] = (k, i ∷ []) ∷ []
append_to k i ((j, is) ∷ index) =
    let rest = append_to k i index in
    if str_eq j k then (j, is ++ i ∷ []) ∷ index else (j, is) ∷ rest

unfoldable pub append_keys : List String → ServiceModelIdentifier → Index → Index
append_keys [] i index = index
append_keys (k ∷ ks) i index = append_keys ks i (append_to k i index)

-- The loops over the models of `_services`, in its order; `keys` gives the keys of a model.
unfoldable pub index_by : (ServiceModel → List String) → List ServiceModel → Index → Index
index_by keys [] index = index
index_by keys (m ∷ ms) index =
    index_by keys ms (append_keys (keys m) (get_service_model_identifier m) index)

-- Models without a target prefix, or with an empty one, are not in the index.
unfoldable pub target_prefixes : ServiceModel → List String
target_prefixes m = elim m.target_prefix [ none ↦ [] | some p ↦ if str_eq p "" then [] else p ∷ [] ]

unfoldable pub target_prefix_index : List ServiceModel → Index
target_prefix_index ms = index_by target_prefixes ms []

unfoldable pub signing_name_index : List ServiceModel → Index
signing_name_index ms = index_by (λ m. m.signing_name ∷ []) ms []

unfoldable pub operations_index : List ServiceModel → Index
operations_index ms = index_by (λ m. m.operation_names) ms []

unfoldable pub endpoint_prefix_index : List ServiceModel → Index
endpoint_prefix_index ms = index_by (λ m. m.endpoint_prefix ∷ []) ms []

abbrev pub or_none : Option (List ServiceModelIdentifier) → List ServiceModelIdentifier
or_none none = []
or_none (some is) = is

-- `index.get(key, [])`
unfoldable pub entries_at : String → Index → List ServiceModelIdentifier
entries_at k index = or_none (lookup k index)

unfoldable pub by_target_prefix : String → List ServiceModel → List ServiceModelIdentifier
by_target_prefix p ms = entries_at p (target_prefix_index ms)

unfoldable pub by_signing_name : String → List ServiceModel → List ServiceModelIdentifier
by_signing_name n ms = entries_at n (signing_name_index ms)

unfoldable pub by_operation : String → List ServiceModel → List ServiceModelIdentifier
by_operation o ms = entries_at o (operations_index ms)

-- How often each model is listed under a key: once for each time that it has the key.
unfoldable pub occurrences :
    String → List String → ServiceModelIdentifier → List ServiceModelIdentifier
occurrences k [] i = []
occurrences k (j ∷ js) i = let rest = occurrences k js i in if str_eq j k then i ∷ rest else rest

-- The search that the index saves: through all models in their order.
unfoldable pub listed :
    (ServiceModel → List String) → String → List ServiceModel → List ServiceModelIdentifier
listed keys k [] = []
listed keys k (m ∷ ms) = occurrences k (keys m) (get_service_model_identifier m) ++ listed keys k ms

lookup-append_to :
    (k j : String) (i : ServiceModelIdentifier) (index : Index)
    → lookup k (append_to j i index)
      ≡ (if str_eq j k then some (or_none (lookup k index) ++ i ∷ []) else lookup k index)
unfolding append_to lookup
lookup-append_to k j i [] = ground arith
lookup-append_to k j i ((l, xs) ∷ index) =
    ground (arith, eq_iff l j, eq_iff l k, eq_iff j k, lookup-append_to k j i index)

entries_at-append_to :
    (k j : String) (i : ServiceModelIdentifier) (index : Index)
    → entries_at k (append_to j i index) ≡ entries_at k index ++ occurrences k (j ∷ []) i
unfolding entries_at occurrences
entries_at-append_to k j i index = elim (Bool-cases (str_eq j k)) [
  | inl e ↦ rw (lookup-append_to k j i index) (rw e refl)
  | inr e ↦ rw (lookup-append_to k j i index) (rw e (sym (append-nil _)))
]

occurrences-append :
    (k j : String) (js : List String) (i : ServiceModelIdentifier)
    → occurrences k (j ∷ []) i ++ occurrences k js i ≡ occurrences k (j ∷ js) i
unfolding occurrences
occurrences-append k j js i = elim (Bool-cases (str_eq j k)) [
  | inl e ↦ rw e refl
  | inr e ↦ rw e refl
]

entries_at-append_keys :
    (k : String) (js : List String) (i : ServiceModelIdentifier) (index : Index)
    → entries_at k (append_keys js i index) ≡ entries_at k index ++ occurrences k js i
unfolding append_keys
entries_at-append_keys k [] i index = unfold occurrences in sym (append-nil (entries_at k index))
entries_at-append_keys k (j ∷ js) i index =
    entries_at-append_keys k js i (append_to j i index)
    ∙ ap (λ (xs : List ServiceModelIdentifier). xs ++ occurrences k js i)
        (entries_at-append_to k j i index)
    ∙ append_assoc (entries_at k index) (occurrences k (j ∷ []) i) (occurrences k js i)
    ∙ ap (λ (xs : List ServiceModelIdentifier). entries_at k index ++ xs)
        (occurrences-append k j js i)

index_by-listed :
    (keys : ServiceModel → List String) (k : String) (ms : List ServiceModel) (index : Index)
    → entries_at k (index_by keys ms index) ≡ entries_at k index ++ listed keys k ms
unfolding index_by listed
index_by-listed keys k [] index = sym (append-nil (entries_at k index))
index_by-listed keys k (m ∷ ms) index =
    index_by-listed keys k ms (append_keys (keys m) (get_service_model_identifier m) index)
    ∙ ap (λ (xs : List ServiceModelIdentifier). xs ++ listed keys k ms)
        (entries_at-append_keys k (keys m) (get_service_model_identifier m) index)
    ∙ append_assoc (entries_at k index) (occurrences k (keys m) (get_service_model_identifier m))
        (listed keys k ms)

-- Each look-up in the index of the catalog gives what a search through all the models gives, in
-- their order.
pub by_index-listed :
    (k : String) (ms : List ServiceModel)
    → (by_target_prefix k ms ≡ listed target_prefixes k ms)
      × (by_signing_name k ms ≡ listed (λ m. m.signing_name ∷ []) k ms)
      × (by_operation k ms ≡ listed (λ m. m.operation_names) k ms)
      × (entries_at k (endpoint_prefix_index ms) ≡ listed (λ m. m.endpoint_prefix ∷ []) k ms)
unfolding by_target_prefix by_signing_name by_operation target_prefix_index signing_name_index
    operations_index endpoint_prefix_index listed entries_at lookup
by_index-listed k ms = (
  index_by-listed target_prefixes k ms [],
  index_by-listed (λ m. m.signing_name ∷ []) k ms [],
  index_by-listed (λ m. m.operation_names) k ms [],
  index_by-listed (λ m. m.endpoint_prefix ∷ []) k ms [],
)
