-- ===== src/Cbor/Tests.antt =====
-- Runs of the CBOR codec, and its theorems at concrete inputs.
use localstack_bb.Base.{◌≡◌, refl, true, false, none, some, [], ◌∷◌, ◌++◌, arith}
use localstack_bb.Base.Result.{ok}
use localstack_bb.Base.Int.{pos, negsuc}
use localstack_bb.Cbor.{
  Item, int, str, array, dict, bool, float, datetime, null, nil, cons, empty, entry, same_key,
  numeric, same_number, float_value, is_hashable,
}
use localstack_bb.Cbor.Utf8.{to_char, encode_char, encode, step, decode_from, decode}
use localstack_bb.Cbor.Stream.{Bytes, widen, top_bit}
use localstack_bb.Cbor.Parser.{FromTimestamp, parse}
use localstack_bb.Cbor.Serializer.{
  Shape, integer_shape, string_shape, boolean_shape, timestamp_shape, list_shape, structure_shape,
  no_members, member, Platform, big_endian, to_bytes, get_additional_info_and_num_bytes,
  get_initial_byte, head, serialize_type_integer, with_length, serialize_type_string, iterate,
  entries_of, without_none, each, each_pair, enclosed, serialize_list, serialize_entries,
  serialize_type_timestamp, serialize_data_item,
}
use localstack_bb.Cbor.Wire.{
  wire_integer, wire_string, wire_each, wire_pairs, wire_list, wire_entries, wire_timestamp, wire,
  IsGood,
}
use localstack_bb.Cbor.Reads.{is_new}
use localstack_bb.Cbor.Whole.{parse-serialize_data_item}
use localstack_bb.Cbor.Fuel.{Below, parse-Below}

-- A platform for which every datetime is its own bits.
abbrev platform : Platform
platform = record {
  pack_single = λ b. none;
  float_of = λ z. none;
  timestamp = λ z. elim z [ pos n ↦ n | negsuc n ↦ 0 ];
  parse_to_aware_datetime = λ v. elim v [ datetime t ↦ some t | _ ↦ none ];
}

abbrev from : FromTimestamp
from v = elim v [ float b ↦ some (pos b) | _ ↦ none ]

abbrev shape_of : Shape
shape_of = structure_shape (
    member "Name" (some "name") string_shape (
      member "Sizes" none (list_shape integer_shape)
        (member "At" none timestamp_shape (member "Done" none boolean_shape no_members))))

abbrev value : Item
value = dict (
    entry (str "Name") (str "é") (
      entry (str "Sizes") (array (cons (int (pos 300)) (cons (int (negsuc 9)) nil)))
        (entry (str "Done") null (entry (str "At") (datetime (pos 5)) empty))))

abbrev on_wire : Item
on_wire = dict (
    entry (str "name") (str "é") (
      entry (str "Sizes") (array (cons (int (pos 300)) (cons (int (negsuc 9)) nil)))
        (entry (str "At") (datetime (pos 5)) empty)))

abbrev bytes : Bytes
bytes =
    0xbf ∷ 0x64 ∷ 0x6e ∷ 0x61 ∷ 0x6d ∷ 0x65 ∷ 0x62 ∷ 0xc3 ∷ 0xa9 ∷ 0x65 ∷ 0x53 ∷ 0x69 ∷ 0x7a ∷ 0x65
    ∷ 0x73 ∷ 0x9f ∷ 0x19 ∷ 0x01 ∷ 0x2c ∷ 0x29 ∷ 0xff ∷ 0x62 ∷ 0x41 ∷ 0x74 ∷ 0xc1 ∷ 0xfb ∷ 0 ∷ 0 ∷ 0
    ∷ 0 ∷ 0 ∷ 0 ∷ 0 ∷ 5 ∷ 0xff ∷ []

serialized : serialize_data_item platform true shape_of value ≡ some bytes
unfolding serialize_data_item serialize_type_integer serialize_type_string serialize_type_timestamp
    with_length head to_bytes big_endian get_additional_info_and_num_bytes get_initial_byte iterate
    entries_of without_none each each_pair enclosed serialize_list serialize_entries encode
    encode_char
serialized = refl

described : wire platform shape_of value ≡ some on_wire
unfolding wire wire_integer wire_string wire_each wire_pairs wire_list wire_entries wire_timestamp
    iterate entries_of without_none
described = refl

good : IsGood platform from on_wire
unfolding is_hashable is_new same_key encode encode_char
good = grind arith

parse-serialize_data_item_example : parse from (bytes ++ 7 ∷ []) ≡ ok (on_wire, 7 ∷ [])
parse-serialize_data_item_example =
    parse-serialize_data_item platform from true (λ b s e. absurd (ground arith)) shape_of value
      on_wire bytes (7 ∷ []) serialized described good

-- A list that promises 2 ^ 32 - 1 elements and has none.
parse-Below_example : Below 5 (parse from (0x9a ∷ 0xff ∷ 0xff ∷ 0xff ∷ 0xff ∷ []))
parse-Below_example = parse-Below from (0x9a ∷ 0xff ∷ 0xff ∷ 0xff ∷ 0xff ∷ [])

-- An overlong byte sequence, a surrogate and a cut one.
refused_bytes :
    (decode (0xc1 ∷ 0x81 ∷ []) ≡ none)
    × (decode (0xed ∷ 0xa0 ∷ 0x80 ∷ []) ≡ none)
    × (decode (0xe2 ∷ 0x82 ∷ []) ≡ none)
unfolding decode decode_from step to_char
refused_bytes = (refl, refl, refl)

-- The halves 1, -2 and the least positive one, as 64 bits.
widened :
    (widen 5 10 0x3c00 ≡ 0x3ff0_0000_0000_0000)
    × (widen 5 10 0xc000 ≡ 0xc000_0000_0000_0000)
    × (widen 5 10 1 ≡ 0x3e70_0000_0000_0000)
unfolding widen top_bit
widened = (refl, refl, refl)

-- True, 1 and 1.0 are one key.
equal_keys :
    (same_key (bool true) (int (pos 1)) ≡ true)
    × (same_key (int (pos 1)) (float 0x3ff0_0000_0000_0000) ≡ true)
    × (same_key (int (pos 1)) (float 0x3ff8_0000_0000_0000) ≡ false)
unfolding same_key numeric same_number float_value
equal_keys = (refl, refl, refl)
