-- ===== src/Cbor/RoundTrip.antt =====
-- The parser on what the serializer wrote of lists and dicts
-- (localstack-core/localstack/aws/protocol/parser.py and serializer.py).
use localstack_bb.Base.{
  suc, ◌≡◌, refl, ap, subst, Bool, Option, some, [], ◌++◌, arith, Option-cases, inl, inr,
}
use localstack_bb.Cbor.{Item, array, dict, Items, nil, cons, Entries, empty, entry}
use localstack_bb.Cbor.Stream.{Bytes}
use localstack_bb.Cbor.Parser.{FromTimestamp}
use localstack_bb.Cbor.Serializer.{
  Platform, iterate, count, count_entries, each, each_pair, serialize_pair, serialize_list,
  serialize_entries,
}
use localstack_bb.Cbor.Reads.{Reads}
use localstack_bb.Cbor.Nested.{ReadsItems, ReadsItems-nil, ReadsItems-cons, Reads-array}
use localstack_bb.Cbor.Dicts.{ReadsEntries, ReadsEntries-empty, ReadsEntries-entry, Reads-dict}
use localstack_bb.Cbor.Wire.{
  wire_each, wire_pairs, wire_pair, wire_list, wire_entries, IsGood, AreGood, ArePairsGood,
}
use localstack_bb.Cbor.Leaves.{Agree}

module _ (platform : Platform) (from : FromTimestamp) where
  each_agrees :
      (f : Item → Option Bytes) (g : Item → Option Item)
      → Agree platform from f g
      → (xs : Items) (bs : Bytes) → each f xs ≡ some bs
      → (ys : Items) × (wire_each g xs ≡ some ys)
        × (count ys ≡ count xs)
        × (AreGood platform from ys → ReadsItems from bs ys)
  unfolding each wire_each
  each_agrees f g agree nil bs h = (
    nil,
    refl,
    refl,
    λ good. subst (λ b. ReadsItems from b nil) {x = []} (ground arith) (ReadsItems-nil from),
  )
  each_agrees f g agree (cons x xs) bs h = elim (Option-cases (f x)) [
    | inl e ↦ absurd (ground arith)
    | inr (start, e) ↦ elim (Option-cases (each f xs)) [
      | inl d ↦ absurd (ground arith)
      | inr (rest, d) ↦
          let (y, w, one) = agree x start e in
          let (ys, ws, n, more) = each_agrees f g agree xs rest d in
          (
            cons y ys,
            rw (w) (rw ws refl),
            ap suc n,
            λ (good, goods).
                subst (λ b. ReadsItems from b (cons y ys)) {x = start ++ rest} (ground arith)
                  (ReadsItems-cons from start rest y ys (one good) (more goods)),
          )
    ]
  ]

  abbrev pub AgreePair :
      (Item → Item → Option Bytes) → (Item → Item → Option (Item × Item)) → Type 0
  AgreePair f g =
      (k v : Item) (bs : Bytes)
      → f k v ≡ some bs
      → (j : Item) × (w : Item) × (g k v ≡ some (j, w))
        × (IsGood platform from j
            → IsGood platform from w
            → (start : Bytes) × (rest : Bytes) × (start ++ rest ≡ bs)
              × Reads from start j
              × Reads from rest w)

  pairs_agree :
      (f : Item → Item → Option Bytes) (g : Item → Item → Option (Item × Item))
      → AgreePair f g
      → (es : Entries) (bs : Bytes) → each_pair f es ≡ some bs
      → (gs : Entries) × (wire_pairs g es ≡ some gs)
        × (count_entries gs ≡ count_entries es)
        × (ArePairsGood platform from gs → ReadsEntries from bs gs)
  unfolding each_pair wire_pairs
  pairs_agree f g agree empty bs h = (
    empty,
    refl,
    refl,
    λ good.
        subst (λ b. ReadsEntries from b empty) {x = []} (ground arith) (ReadsEntries-empty from),
  )
  pairs_agree f g agree (entry k v es) bs h = elim (Option-cases (f k v)) [
    | inl e ↦ absurd (ground arith)
    | inr (first, e) ↦ elim (Option-cases (each_pair f es)) [
      | inl d ↦ absurd (ground arith)
      | inr (rest, d) ↦
          let (j, w, p, one) = agree k v first e in
          let (gs, ps, n, more) = pairs_agree f g agree es rest d in
          (
            entry j w gs,
            rw p (rw ps refl),
            ap suc n,
            λ (good_key, good_value, goods).
                let (ks, vs, same, key, value) = one good_key good_value in
                let whole : (ks ++ vs) ++ rest ≡ bs = ground arith in
                subst (λ b. ReadsEntries from b (entry j w gs)) whole
                  (ReadsEntries-entry from ks vs rest j w gs key value (more goods)),
          )
    ]
  ]

  pub pair_agrees :
      (f g : Item → Option Bytes) (a b : Item → Option Item)
      → Agree platform from f a
      → Agree platform from g b
      → AgreePair (serialize_pair f g) (wire_pair a b)
  unfolding serialize_pair wire_pair
  pair_agrees f g a b key value k v bs h = elim (Option-cases (f k)) [
    | inl e ↦ absurd (ground arith)
    | inr (start, e) ↦ elim (Option-cases (g v)) [
      | inl d ↦ absurd (ground arith)
      | inr (rest, d) ↦
          let (j, p, one) = key k start e in
          let (w, q, other) = value v rest d in
          (
            j,
            w,
            rw p (rw q refl),
            λ good_key good_value. (start, rest, ground arith, one good_key, other good_value),
          )
    ]
  ]

  pub list_agrees :
      (indefinite : Bool) (f : Item → Option Bytes) (g : Item → Option Item)
      → Agree platform from f g
      → Agree platform from (serialize_list indefinite f) (wire_list g)
  unfolding serialize_list wire_list
  list_agrees indefinite f g agree v bs h = elim (Option-cases (iterate v)) [
    | inl e ↦ absurd (ground arith)
    | inr (xs, e) ↦ elim (Option-cases (each f xs)) [
      | inl d ↦ absurd (ground arith)
      | inr (body, d) ↦
          let (ys, ws, n, reads) = each_agrees f g agree xs body d in
          (
            array ys,
            rw e (rw ws refl),
            λ good. Reads-array from indefinite body bs ys (reads good) (rw n (ground arith)),
          )
    ]
  ]

  pub dict_agrees :
      (indefinite : Bool) (f : Item → Item → Option Bytes) (g : Item → Item → Option (Item × Item))
      (es : Entries) (bs : Bytes)
      → AgreePair f g
      → serialize_entries indefinite f es ≡ some bs
      → (i : Item) × (wire_entries g es ≡ some i) × (IsGood platform from i → Reads from bs i)
  unfolding serialize_entries wire_entries
  dict_agrees indefinite f g es bs agree h = elim (Option-cases (each_pair f es)) [
    | inl d ↦ absurd (ground arith)
    | inr (body, d) ↦
        let (gs, ws, n, reads) = pairs_agree f g agree es body d in
        (
          dict gs,
          rw ws refl,
          λ (distinct, good).
              Reads-dict from indefinite body bs gs distinct (reads good) (rw n (ground arith)),
        )
  ]
