-- ===== src/Base/Dict.antt =====
-- A Python dict with text keys: an association list in insertion order.
use Prim.Native.String.{String}
use mathlib.Core.Path.{◌≡◌, refl}
use mathlib.Core.Bool.{Bool, true, false, ◌||◌}
use mathlib.Core.List.{List, [], ◌∷◌, ◌++◌}
use mathlib.Core.Option.{Option, none, some}
use native.Mathlib.Omega.{arith}
use text.Mathlib.TextEquality.{eq_iff}
use localstack_bb.Base.Tests.{str_eq, if◌then◌else◌}

abbrev pub Dict {ℓ} : Type ℓ → Type ℓ
Dict V = List (String × V)

module _ {ℓ} {V : Type ℓ} where
  -- `d.get(k)`
  unfoldable pub lookup : String → Dict V → Option V
  lookup k [] = none
  lookup k ((j, v) ∷ d) = if str_eq j k then some v else lookup k d

  -- `d[k] = v`: an old key keeps its place, a new one comes last.
  unfoldable pub insert : String → V → Dict V → Dict V
  insert k v [] = (k, v) ∷ []
  insert k v ((j, w) ∷ d) = if str_eq j k then (j, v) ∷ d else (j, w) ∷ insert k v d

  -- `d.pop(k, None)`
  unfoldable pub remove : String → Dict V → Dict V
  remove k [] = []
  remove k ((j, w) ∷ d) = let rest = remove k d in if str_eq j k then rest else (j, w) ∷ rest

  -- `k in d`
  unfoldable pub has : String → Dict V → Bool
  unfolding lookup
  has k d = elim (lookup k d) [ none ↦ false | some _ ↦ true ]

  unfoldable pub keys : Dict V → List String
  keys [] = []
  keys ((k, _) ∷ d) = k ∷ keys d

  unfoldable pub values : Dict V → List V
  values [] = []
  values ((_, v) ∷ d) = v ∷ values d

  pub lookup-insert :
      (k j : String) (v : V) (d : Dict V)
      → lookup j (insert k v d) ≡ (if str_eq k j then some v else lookup j d)
  unfolding lookup insert
  lookup-insert k j v [] = refl
  lookup-insert k j v ((i, w) ∷ d) =
      ground (arith, eq_iff k j, eq_iff i k, eq_iff i j, lookup-insert k j v d)

  pub lookup-remove :
      (k j : String) (d : Dict V)
      → lookup j (remove k d) ≡ (if str_eq k j then none else lookup j d)
  unfolding lookup remove
  lookup-remove k j [] = ground arith
  lookup-remove k j ((i, w) ∷ d) =
      ground (arith, eq_iff k j, eq_iff i k, eq_iff i j, lookup-remove k j d)

  -- Writing a present key keeps the list of keys; a new key comes last.
  pub keys-insert :
      (k : String) (v : V) (d : Dict V)
      → keys (insert k v d) ≡ (if has k d then keys d else keys d ++ k ∷ [])
  unfolding keys insert has
  keys-insert k v [] = refl
  keys-insert k v ((i, w) ∷ d) = ground (arith, keys-insert k v d)

  -- A new key's value comes last, and taking the key out again gives back the dict.
  pub values-insert_new :
      (k : String) (v : V) (d : Dict V)
      → has k d ≡ false
      → values (insert k v d) ≡ values d ++ v ∷ []
  unfolding values insert has
  values-insert_new k v [] h = refl
  values-insert_new k v ((i, w) ∷ d) h = ground (arith, values-insert_new k v d)

  pub remove_missing : (k : String) (d : Dict V) → has k d ≡ false → remove k d ≡ d
  unfolding remove has
  remove_missing k [] h = refl
  remove_missing k ((i, w) ∷ d) h = ground (arith, remove_missing k d)

  pub remove-insert_new :
      (k : String) (v : V) (d : Dict V) → has k d ≡ false → remove k (insert k v d) ≡ d
  unfolding remove insert has
  remove-insert_new k v [] h = ground (arith, eq_iff k k)
  remove-insert_new k v ((i, w) ∷ d) h = ground (arith, remove-insert_new k v d, remove_missing k d)

  pub has-insert :
      (k j : String) (v : V) (d : Dict V) → has j (insert k v d) ≡ (str_eq k j || has j d)
  unfolding has
  has-insert k j v d = ground (arith, lookup-insert k j v d)

  pub has-remove : (k : String) (d : Dict V) → has k (remove k d) ≡ false
  unfolding has
  has-remove k d = ground (arith, lookup-remove k k d, eq_iff k k)
