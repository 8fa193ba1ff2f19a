-- ===== src/Collections/Paths.antt =====
-- A value that is set at a path and read there.
use localstack_bb.Base.{
  String, ◌≡◌, ◌∙◌, refl, ap, sym, true, false, none, some, List, [], ◌∷◌, arith, str_eq, eq_iff,
  All, Bool-cases, inl, inr,
}
use localstack_bb.Base.Result.{Result, ok, err, ◌>>=◌}
use localstack_bb.Collections.Json.{
  Value, dict, list, string, Entries, entry, no_entries, entry_of, put_entry, truthy, read_index,
  get_path, get_safe, set_path, set_safe_mutable, child_of, set_inner, set_last, get_node, or_value,
  PathError,
}

entry_of-put_entry : (k : String) (v : Value) (e : Entries) → entry_of k (put_entry k v e) ≡ some v
unfolding entry_of put_entry
entry_of-put_entry k v no_entries = ground (arith, eq_iff k k)
entry_of-put_entry k v (entry j w e) = ground (arith, entry_of-put_entry k v e)

-- A node that is a key: it is not the root and not a number.
pub record IsKey (node : String) : Type 0 where
  pub not_root : str_eq node "$" ≡ false
  pub not_index : read_index node ≡ none

set_last-dict :
    (k : String) (v cur after : Value)
    → set_last k v cur ≡ ok after
    → (e : Entries) × (after ≡ dict (put_entry k v e))
set_last-dict k v (dict e) after h = (e, cc)
set_last-dict k v _ after h = cc

-- What a set of an inner node leaves: a dict with the child that the rest of the loop left.
stored-dict :
    (k : String) (e : Entries) (r : Result PathError Value) (after : Value)
    → (r >>= λ child. ok (dict (put_entry k child e))) ≡ ok after
    → (child : Value) × ((r ≡ ok child) × (after ≡ dict (put_entry k child e)))
stored-dict k e (ok child) after h = (child, (refl, cc))
stored-dict k e (err x) after h = cc

pub record StoredChild (k : String) (set : Value → Result PathError Value) (after : Value)
    : Type 0 where
  pub entries : Entries
  pub before : Value
  pub child : Value
  pub set_child : set before ≡ ok child
  pub at : after ≡ dict (put_entry k child entries)

set_inner-dict :
    (k : String) (set : Value → Result PathError Value) (cur after : Value)
    → set_inner k set cur ≡ ok after
    → StoredChild k set after
set_inner-dict k set (dict e) after h =
    let (child, (c, a)) = stored-dict k e (set (child_of (entry_of k e))) after h in
    record { entries = e; before = child_of (entry_of k e); child = child; set_child = c; at = a }
set_inner-dict k set (list vs) after h = ground arith
set_inner-dict k set (string s) after h = ground arith
set_inner-dict k set _ after h = cc

get_key_node :
    (k : String) (v : Value) (e : Entries) → IsKey k → get_node k (dict (put_entry k v e)) ≡ ok v
get_key_node k v e key = rw (key.not_root, key.not_index, get_node, entry_of-put_entry k v e) refl

get_path-key :
    (k : String) (ks : List String) (v : Value) (e : Entries) (after : Value)
    → IsKey k
    → after ≡ dict (put_entry k v e)
    → get_path (k ∷ ks) after ≡ get_path ks v
unfolding get_path
get_path-key k ks v e after key a =
    ap (get_path (k ∷ ks)) a ∙ ap (λ r. r >>= get_path ks) (get_key_node k v e key)

-- Along keys, what was set is read, and the value that was set in is a dict with entries.
set_path-get_path :
    (value : Value) (k : String) (ks : List String) (cur after : Value)
    → All IsKey (k ∷ ks)
    → set_path value (k ∷ ks) cur ≡ ok after
    → (get_path (k ∷ ks) after ≡ ok value)
      × ((v : Value) × ((e : Entries) × (after ≡ dict (put_entry k v e))))
unfolding set_path get_path
set_path-get_path value k [] cur after (key, _) h =
    let h' : set_last k value cur ≡ ok after = ground (arith, key.not_root) in
    let (e, a) = set_last-dict k value cur after h' in
    (get_path-key k [] value e after key a, (value, (e, a)))
set_path-get_path value k (next ∷ ks) cur after (key, keys) h =
    let h' : set_inner k (set_path value (next ∷ ks)) cur ≡ ok after =
      ground (arith, key.not_root) in
    let s = set_inner-dict k (set_path value (next ∷ ks)) cur after h' in
    (
      get_path-key k (next ∷ ks) s.child s.entries after key s.at
          ∙ (set_path-get_path value next ks s.before s.child keys s.set_child).0,
      (s.child, (s.entries, s.at)),
    )

get_safe_full :
    (k : String) (v : Value) (e : Entries) (path : List String) (default : Value)
    → get_safe (dict (put_entry k v e)) ("$" ∷ path) default
      ≡ (get_path path (dict (put_entry k v e)) >>= λ u. ok (or_value u default))
unfolding get_safe put_entry get_path
get_safe_full k v no_entries path default = refl
get_safe_full k v (entry j w e) path default = elim (Bool-cases (str_eq j k)) [
  | inl h ↦ rw h refl
  | inr h ↦ rw h refl
]

-- A true value that was set at a path of keys below the root is read there, whatever the default.
pub set_safe_mutable-get_safe :
    (value default : Value) (k : String) (ks : List String) (dictionary after : Value)
    → All IsKey (k ∷ ks)
    → truthy value ≡ true
    → set_safe_mutable dictionary ("$" ∷ k ∷ ks) value ≡ ok after
    → get_safe after ("$" ∷ k ∷ ks) default ≡ ok value
unfolding set_safe_mutable set_path
set_safe_mutable-get_safe value default k ks (dict d) after keys t h =
    let (g, (v, (e, a))) = set_path-get_path value k ks (dict d) after keys h in
    ap (λ u. get_safe u ("$" ∷ k ∷ ks) default) a
    ∙ get_safe_full k v e (k ∷ ks) default
    ∙ ap (λ u. get_path (k ∷ ks) u >>= λ r. ok (or_value r default)) (sym a)
    ∙ ap (λ r. r >>= λ u. ok (or_value u default)) g
    ∙ rw (t, or_value) refl
set_safe_mutable-get_safe value default k ks _ after keys t h = cc
