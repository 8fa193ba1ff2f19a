-- ===== src/Cbor/Leaves.antt =====
-- The parser on what the serializer wrote of a value that has no others in it
-- (localstack-core/localstack/aws/protocol/parser.py and serializer.py).
use localstack_bb.Base.{
  ℕ, ◌<◌, String, ◌≡◌, refl, subst, true, false, Option, some, [], ◌∷◌, ◌++◌, arith, ◌==◌,
  if◌then◌else◌, length, Bool-cases, Option-cases, inl, inr,
}
use localstack_bb.Base.Int.{pos, negsuc}
use localstack_bb.Cbor.{Item, int, blob, str, array, dict, bool, float, datetime, null}
use localstack_bb.Cbor.Utf8.{encode}
use localstack_bb.Cbor.Stream.{Bytes, widen}
use localstack_bb.Cbor.Parser.{FromTimestamp}
use localstack_bb.Cbor.Serializer.{
  Platform, head, serialize_type_integer, with_length, serialize_type_blob, serialize_type_string,
  truthy, serialize_type_boolean, infinity, minus_infinity, is_special_number,
  get_bytes_for_special_numbers, serialize_special_or, float_bits, serialize_type_float,
  serialize_type_double, serialize_type_timestamp, get_initial_byte, big_endian,
}
use localstack_bb.Cbor.Reads.{
  Reads, Reads-unsigned, Reads-negative, Reads-blob, Reads-str, Reads-bool, Reads-half,
  Reads-single, Reads-double, Reads-datetime,
}
use localstack_bb.Cbor.Wire.{
  wire_integer, wire_blob, wire_string, special_value, wire_float, wire_double, wire_timestamp,
  IsGood,
}
use Prim.Native.Nat.{◌^◌}

module _ (platform : Platform) (from : FromTimestamp) where
  -- Where the serializer `f` writes bytes, the description `g` has a value, which is read from them.
  abbrev pub Agree : (Item → Option Bytes) → (Item → Option Item) → Type 0
  Agree f g =
      (v : Item) (bs : Bytes)
      → f v ≡ some bs
      → (i : Item) × (g v ≡ some i) × (IsGood platform from i → Reads from bs i)

  as_is_read : (cs bs : Bytes) (i : Item) → cs ≡ bs → Reads from cs i → Reads from bs i
  as_is_read cs bs i e reads = subst (λ b. Reads from b i) e reads

  pub integer_agrees : Agree serialize_type_integer wire_integer
  unfolding serialize_type_integer wire_integer
  integer_agrees (int (pos n)) bs h = (int (pos n), refl, λ g. Reads-unsigned from n bs h)
  integer_agrees (int (negsuc n)) bs h = (int (negsuc n), refl, λ g. Reads-negative from n bs h)
  integer_agrees (bool true) bs h = (int (pos 1), refl, λ g. Reads-unsigned from 1 bs h)
  integer_agrees (bool false) bs h = (int (pos 0), refl, λ g. Reads-unsigned from 0 bs h)
  integer_agrees (blob _) bs h = absurd (ground arith)
  integer_agrees (str _) bs h = absurd (ground arith)
  integer_agrees (array _) bs h = absurd (ground arith)
  integer_agrees (dict _) bs h = absurd (ground arith)
  integer_agrees (float _) bs h = absurd (ground arith)
  integer_agrees (datetime _) bs h = absurd (ground arith)
  integer_agrees null bs h = absurd (ground arith)

  length_first :
      (k : ℕ) (body bs : Bytes)
      → with_length k body ≡ some bs
      → (start : Bytes) × (head k (length body) ≡ some start) × (start ++ body ≡ bs)
  unfolding with_length
  length_first k body bs h = elim (Option-cases (head k (length body))) [
    | inl e ↦ absurd (ground arith)
    | inr (start, e) ↦ (start, e, ground arith)
  ]

  blob_is_read :
      (body bs : Bytes)
      → with_length 2 body ≡ some bs
      → length body < 2 ^ 63
      → Reads from bs (blob body)
  blob_is_read body bs h g =
      let (start, e, same) = length_first 2 body bs h in
      as_is_read (start ++ body) bs (blob body) same (Reads-blob from start body e g)

  pub blob_agrees : Agree serialize_type_blob wire_blob
  unfolding serialize_type_blob wire_blob
  blob_agrees (blob b) bs h = (blob b, refl, λ g. blob_is_read b bs h g)
  blob_agrees (str s) bs h = (blob (encode s), refl, λ g. blob_is_read (encode s) bs h g)
  blob_agrees (int _) bs h = absurd (ground arith)
  blob_agrees (array _) bs h = absurd (ground arith)
  blob_agrees (dict _) bs h = absurd (ground arith)
  blob_agrees (bool _) bs h = absurd (ground arith)
  blob_agrees (float _) bs h = absurd (ground arith)
  blob_agrees (datetime _) bs h = absurd (ground arith)
  blob_agrees null bs h = absurd (ground arith)

  pub str_is_read :
      (s : String) (bs : Bytes)
      → serialize_type_string (str s) ≡ some bs
      → length (encode s) < 2 ^ 63
      → Reads from bs (str s)
  unfolding serialize_type_string
  str_is_read s bs h g =
      let (start, e, same) = length_first 3 (encode s) bs h in
      as_is_read (start ++ encode s) bs (str s) same (Reads-str from start s e g)

  pub string_agrees : Agree serialize_type_string wire_string
  unfolding serialize_type_string wire_string
  string_agrees (str s) bs h = (str s, refl, λ g. str_is_read s bs h g)
  string_agrees (blob _) bs h = absurd (ground arith)
  string_agrees (int _) bs h = absurd (ground arith)
  string_agrees (array _) bs h = absurd (ground arith)
  string_agrees (dict _) bs h = absurd (ground arith)
  string_agrees (bool _) bs h = absurd (ground arith)
  string_agrees (float _) bs h = absurd (ground arith)
  string_agrees (datetime _) bs h = absurd (ground arith)
  string_agrees null bs h = absurd (ground arith)

  pub boolean_agrees : Agree serialize_type_boolean (λ v. some (bool (truthy v)))
  unfolding serialize_type_boolean
  boolean_agrees v bs h = (
    bool (truthy v),
    refl,
    λ g.
        as_is_read (get_initial_byte 7 (if truthy v then 21 else 20) ∷ []) bs (bool (truthy v))
          (ground arith) (Reads-bool from (truthy v)),
  )

  special_is_read : (b : ℕ) → Reads from (get_bytes_for_special_numbers b) (float (special_value b))
  unfolding get_bytes_for_special_numbers special_value
  special_is_read b = elim (Bool-cases (b == infinity)) [
    | inl e ↦ rw e (unfold widen in Reads-half from 0x7c00 (omega arith))
    | inr e ↦ rw e (elim (Bool-cases (b == minus_infinity)) [
      | inl f ↦ rw f (unfold widen in Reads-half from 0xfc00 (omega arith))
      | inr f ↦ rw f (unfold widen in Reads-half from 0x7e00 (omega arith))
    ])
  ]

  special_or :
      (b : ℕ) (other : Option Bytes) (bs : Bytes) (i : Item)
      → serialize_special_or b other ≡ some bs
      → (is_special_number b ≡ false → other ≡ some bs → Reads from bs i)
      → Reads from bs (if is_special_number b then float (special_value b) else i)
  unfolding serialize_special_or
  special_or b other bs i h k = elim (Bool-cases (is_special_number b)) [
    | inl e ↦ rw e (
        as_is_read (get_bytes_for_special_numbers b) bs (float (special_value b)) (ground arith)
          (special_is_read b))
    | inr e ↦ rw e (k e (ground arith))
  ]

  pub double_agrees : Agree (serialize_type_double platform) (wire_double platform)
  unfolding serialize_type_double wire_double
  double_agrees v bs h = elim (Option-cases (float_bits platform v)) [
    | inl e ↦ absurd (ground arith)
    | inr (b, e) ↦ (
      (if is_special_number b then float (special_value b) else float b),
      rw e refl,
      λ g.
          special_or b (some (get_initial_byte 7 27 ∷ big_endian 8 b)) bs (float b) (ground arith)
            λ n same.
              as_is_read (get_initial_byte 7 27 ∷ big_endian 8 b) bs (float b) (ground arith)
                (Reads-double from b (rw n at g)),
    )
  ]

  pub float_agrees :
      ((b s : ℕ) → platform.pack_single b ≡ some s → s < 256 ^ 4)
      → Agree (serialize_type_float platform) (wire_float platform)
  unfolding serialize_type_float wire_float
  float_agrees small v bs h = elim (Option-cases (float_bits platform v)) [
    | inl e ↦ absurd (ground arith)
    | inr (b, e) ↦ elim (Bool-cases (is_special_number b)) [
      | inl n ↦ (
        float (special_value b),
        rw e (rw n refl),
        λ g.
            as_is_read (get_bytes_for_special_numbers b) bs (float (special_value b))
              (unfold serialize_special_or in ground arith) (special_is_read b),
      )
      | inr n ↦ elim (Option-cases (platform.pack_single b)) [
        | inl d ↦ absurd (unfold serialize_special_or in ground arith)
        | inr (s, d) ↦ (
          float (widen 8 23 s),
          rw e (rw n (rw d refl)),
          λ g.
              as_is_read (get_initial_byte 7 26 ∷ big_endian 4 s) bs (float (widen 8 23 s))
                (unfold serialize_special_or in ground arith) (Reads-single from s (small b s d)),
        )
      ]
    ]
  ]

  pub timestamp_agrees : Agree (serialize_type_timestamp platform) (wire_timestamp platform)
  unfolding serialize_type_timestamp wire_timestamp
  timestamp_agrees v bs h = elim (Option-cases (platform.parse_to_aware_datetime v)) [
    | inl e ↦ absurd (ground arith)
    | inr (t, e) ↦ (
      datetime t,
      rw e refl,
      λ (small, back).
          as_is_read
            (get_initial_byte 6 1 ∷ get_initial_byte 7 27 ∷ big_endian 8 (platform.timestamp t)) bs
            (datetime t) (ground arith)
            (Reads-datetime from (get_initial_byte 7 27 ∷ big_endian 8 (platform.timestamp t))
              (platform.timestamp t) t back (Reads-double from (platform.timestamp t) small)),
    )
  ]
