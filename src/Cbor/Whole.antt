-- ===== src/Cbor/Whole.antt =====
-- Every shape, serialized and parsed
-- (localstack-core/localstack/aws/protocol/parser.py and serializer.py).
use localstack_bb.Base.{
  ℕ, ◌+◌, ◌*◌, ◌<◌, String, ◌≡◌, refl, sym, subst, Bool, Option, some, ◌++◌, arith, str_eq, length,
  length-append, Bool-cases, Option-cases, inl, inr,
}
use localstack_bb.Base.Result.{ok}
use localstack_bb.Cbor.{Item, str}
use localstack_bb.Cbor.Stream.{Bytes}
use localstack_bb.Cbor.Parser.{FromTimestamp, parse_data_item, parse}
use localstack_bb.Cbor.Serializer.{
  Shape, integer_shape, long_shape, blob_shape, string_shape, boolean_shape, float_shape,
  double_shape, timestamp_shape, list_shape, map_shape, structure_shape, Members, no_members,
  member, ◌>>=◌, Platform, serialize_type_string, entries_of, without_none, name_or, serialize_pair,
  serialize_data_item, serialize_member,
}
use localstack_bb.Cbor.Reads.{Reads}
use localstack_bb.Cbor.Wire.{wire, wire_member, IsGood}
use localstack_bb.Cbor.Leaves.{
  Agree, integer_agrees, blob_agrees, string_agrees, boolean_agrees, float_agrees, double_agrees,
  timestamp_agrees, str_is_read,
}
use localstack_bb.Cbor.RoundTrip.{AgreePair, pair_agrees, list_agrees, dict_agrees}
use Prim.Native.Nat.{◌^◌}

module _ (platform : Platform) (from : FromTimestamp) (indefinite : Bool)
    (single_fits : (b s : ℕ) → platform.pack_single b ≡ some s → s < 256 ^ 4) where
  member_agrees :
      (f : Item → Option Bytes) (g : Item → Option Item)
      → Agree platform from f g
      → (name : String) (v : Item) (bs : Bytes)
      → serialize_pair serialize_type_string f (str name) v ≡ some bs
      → (j : Item) × (w : Item) × (◌>>=◌ {B = Item × Item} (g v) (λ i. some (str name, i))
          ≡ some (j, w))
        × (IsGood platform from j
            → IsGood platform from w
            → (start : Bytes) × (rest : Bytes) × (start ++ rest ≡ bs)
              × Reads from start j
              × Reads from rest w)
  unfolding serialize_pair
  member_agrees f g agree name v bs h = elim (Option-cases (serialize_type_string (str name))) [
    | inl e ↦ absurd (ground arith)
    | inr (start, e) ↦ elim (Option-cases (f v)) [
      | inl d ↦ absurd (ground arith)
      | inr (rest, d) ↦
          let (w, q, reads) = agree v rest d in
          (
            str name,
            w,
            rw q refl,
            λ good_key good_value. (
              start,
              rest,
              ground arith,
              str_is_read platform from name start e good_key,
              reads good_value,
            ),
          )
    ]
  ]

  mutual
    unfolding serialize_data_item wire serialize_pair

    agrees :
        (s : Shape)
        → Agree platform from (serialize_data_item platform indefinite s) (wire platform s)
    agrees integer_shape v bs h = integer_agrees platform from v bs h
    agrees long_shape v bs h = integer_agrees platform from v bs h
    agrees blob_shape v bs h = blob_agrees platform from v bs h
    agrees string_shape v bs h = string_agrees platform from v bs h
    agrees boolean_shape v bs h = boolean_agrees platform from v bs h
    agrees float_shape v bs h = float_agrees platform from single_fits v bs h
    agrees double_shape v bs h = double_agrees platform from v bs h
    agrees timestamp_shape v bs h = timestamp_agrees platform from v bs h
    agrees (list_shape s) v bs h =
        list_agrees platform from indefinite (serialize_data_item platform indefinite s)
          (wire platform s) (agrees s) v bs h
    agrees (map_shape k s) v bs h = elim (Option-cases (entries_of v)) [
      | inl e ↦ absurd (ground arith)
      | inr (es, e) ↦ rw e (
          dict_agrees platform from indefinite _ _ es bs
            (pair_agrees platform from _ _ _ _ (agrees k) (agrees s)) (rw e at h))
    ]
    agrees (structure_shape ms) v bs h = elim (Option-cases (entries_of v)) [
      | inl e ↦ absurd (ground arith)
      | inr (es, e) ↦ rw e (
          dict_agrees platform from indefinite _ _ (without_none es) bs (members_agree ms)
            (rw e at h))
    ]

    members_agree :
        (ms : Members)
        → AgreePair platform from
            (serialize_member platform indefinite ms)
            (wire_member platform ms)
    members_agree no_members k v bs h = absurd (ground arith)
    members_agree (member name other s ms) (str j) v bs h = elim (Bool-cases (str_eq name j)) [
      | inl e ↦ rw e (
          member_agrees (serialize_data_item platform indefinite s) (wire platform s) (agrees s)
            (name_or other name) v bs (rw e at h))
      | inr e ↦ rw e (members_agree ms (str j) v bs (rw e at h))
    ]
    members_agree (member name other s ms) _ v bs h = absurd (ground arith)

  -- Whatever the serializer writes is of a value that the shape describes.
  pub serialize_data_item-wire :
      (s : Shape) (v : Item) (bs : Bytes)
      → serialize_data_item platform indefinite s v ≡ some bs
      → (i : Item) × (wire platform s v ≡ some i)
  serialize_data_item-wire s v bs h = let (i, w, reads) = agrees s v bs h in (i, w)

  -- What the serializer writes of a value of any shape is read back, whatever follows it, as the
  -- value that the shape describes, and the rest is left: if a reader can have that value back, and
  -- a float that is packed to single precision has 32 bits.
  pub parse-serialize_data_item :
      (s : Shape) (v i : Item) (bs rest : Bytes)
      → serialize_data_item platform indefinite s v ≡ some bs
      → wire platform s v ≡ some i
      → IsGood platform from i
      → parse from (bs ++ rest) ≡ ok (i, rest)
  unfolding parse
  parse-serialize_data_item s v i bs rest h w good =
      let (j, u, reads) = agrees s v bs h in
      let same : j ≡ i = cc in
      subst (λ x. parse_data_item from (3 * length (bs ++ rest) + 1) (bs ++ rest) ≡ ok (x, rest))
        same
        (reads (subst (IsGood platform from) (sym same) good) _
          (omega (arith, length-append bs rest)) rest)
