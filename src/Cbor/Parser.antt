-- ===== src/Cbor/Parser.antt =====
-- parse_data_item and the parsing methods of BaseCBORRequestParser
-- (localstack-core/localstack/aws/protocol/parser.py). `x >> 5` is `x / 2 ^ 5`.
use localstack_bb.Base.{
  ℕ, zero, suc, ◌+◌, ◌*◌, ◌/◌, true, false, [], ◌++◌, Option, none, some, ◌==◌, if◌then◌else◌,
  length, drop,
}
use localstack_bb.Base.Result.{ok, err, ◌>>=◌}
use localstack_bb.Base.Int.{ℤ, pos, negsuc}
use localstack_bb.Cbor.{
  Item, int, blob, str, array, dict, bool, float, datetime, null, Items, nil, cons, Entries, empty,
  is_hashable, put_entry,
}
use localstack_bb.Cbor.Utf8.{decode}
use localstack_bb.Cbor.Stream.{
  protocol_error, unknown_error, out_of_fuel, Bytes, Parsed, read_from_stream, read_bytes_as_int,
  parse_unsigned_integer, is_break, Major, unsigned, negative, byte_string, text_string, array_type,
  map_type, tag, simple_and_float, major_of, widen,
}
use Prim.Native.Nat.{◌^◌, bit_and}

-- A number as the seconds of a datetime, by the float arithmetic of Python, which is a parameter:
-- none where it raises an exception.
abbrev pub FromTimestamp : Type 0
FromTimestamp = Item → Option ℤ

unfoldable pub dated : Option ℤ → Bytes → Parsed Item
dated none bs = err unknown_error
dated (some t) bs = ok (datetime t, bs)

unfoldable pub parse_type_datetime : FromTimestamp → Item → Bytes → Parsed Item
parse_type_datetime from (int z) bs = dated (from (int z)) bs
parse_type_datetime from (float b) bs = dated (from (float b)) bs
parse_type_datetime from (bool b) bs = dated (from (bool b)) bs
parse_type_datetime from _ bs = err protocol_error

unfoldable pub tagged : FromTimestamp → ℕ → Item → Bytes → Parsed Item
tagged from t value bs = if t == 1 then parse_type_datetime from value bs else err protocol_error

unfoldable pub parse_simple_and_float : ℕ → Bytes → Parsed Item
parse_simple_and_float info bs =
    if info == 20
    then ok (bool false, bs)
    else if info == 21
    then ok (bool true, bs)
    else if info == 22
    then ok (null, bs)
    else if info == 23
    then ok (null, bs)
    else if info == 25
    then read_bytes_as_int 2 bs >>= (λ (b, rest). ok (float (widen 5 10 b), rest))
    else if info == 26
    then read_bytes_as_int 4 bs >>= (λ (b, rest). ok (float (widen 8 23 b), rest))
    else if info == 27
    then read_bytes_as_int 8 bs >>= (λ (b, rest). ok (float b, rest))
    else err protocol_error

-- The chunks of a byte string up to the break code, joined.
unfoldable pub parse_chunks : ℕ → Bytes → Parsed Bytes
parse_chunks zero bs = err out_of_fuel
parse_chunks (suc f) bs =
    let more : Parsed Bytes = do
      (byte, after) ← read_bytes_as_int 1 bs
      (size, after) ← parse_unsigned_integer (bit_and byte 31) after
      (chunk, after) ← read_from_stream size after
      (chunks, after) ← parse_chunks f after
      ok (chunk ++ chunks, after)
    in if is_break bs then ok ([], drop 1 bs) else more

unfoldable pub parse_byte_string : ℕ → ℕ → Bytes → Parsed Bytes
parse_byte_string f info bs =
    if info == 31
    then parse_chunks f bs
    else parse_unsigned_integer info bs >>= (λ (size, after). read_from_stream size after)

unfoldable pub decoded : Bytes → Bytes → Parsed Item
decoded text rest = elim (decode text) [ none ↦ err unknown_error | some s ↦ ok (str s, rest) ]

-- The method in the table for a major type.
unfoldable pub dispatch : Option Major → (Major → Parsed Item) → Parsed Item
dispatch none method = err protocol_error
dispatch (some m) method = method m

-- A value of None is read, and left out.
unfoldable pub stored : Item → Item → Entries → Bytes → Parsed Entries
stored key null es bs = ok (es, bs)
stored key value es bs =
    if is_hashable key then ok (put_entry key value es, bs) else err unknown_error

module _ (from : FromTimestamp) where
  unfoldable mutual
    pub parse_data_item : ℕ → Bytes → Parsed Item
    parse_data_item zero bs = err out_of_fuel
    parse_data_item (suc f) bs = do
      (byte, after) ← read_bytes_as_int 1 bs
      dispatch (major_of (byte / 2 ^ 5)) (λ m. parse_type f m (bit_and byte 31) after)

    pub parse_type : ℕ → Major → ℕ → Bytes → Parsed Item
    parse_type zero m info bs = err out_of_fuel
    parse_type (suc f) unsigned info bs = do
      (n, after) ← parse_unsigned_integer info bs
      ok (int (pos n), after)
    parse_type (suc f) negative info bs = do
      (n, after) ← parse_unsigned_integer info bs
      ok (int (negsuc n), after)
    parse_type (suc f) byte_string info bs = do
      (value, after) ← parse_byte_string f info bs
      ok (blob value, after)
    parse_type (suc f) text_string info bs = do
      (value, after) ← parse_byte_string f info bs
      decoded value after
    parse_type (suc f) array_type info bs =
        let counted : Parsed Items = do
          (n, after) ← parse_unsigned_integer info bs
          parse_items f n after
        in let all : Parsed Items = parse_items_until f bs in
          do (xs, after) ← (if info == 31 then all else counted); ok (array xs, after)
    parse_type (suc f) map_type info bs =
        let counted : Parsed Entries = do
          (n, after) ← parse_unsigned_integer info bs
          parse_pairs f n empty after
        in let all : Parsed Entries = parse_pairs_until f empty bs in
          do (es, after) ← (if info == 31 then all else counted); ok (dict es, after)
    parse_type (suc f) tag info bs = do
      (t, after) ← parse_unsigned_integer info bs
      (value, after) ← parse_data_item f after
      tagged from t value after
    parse_type (suc f) simple_and_float info bs = parse_simple_and_float info bs

    pub parse_items : ℕ → ℕ → Bytes → Parsed Items
    parse_items f zero bs = ok (nil, bs)
    parse_items zero (suc n) bs = err out_of_fuel
    parse_items (suc f) (suc n) bs = do
      (x, after) ← parse_data_item f bs
      (xs, after) ← parse_items f n after
      ok (cons x xs, after)

    pub parse_items_until : ℕ → Bytes → Parsed Items
    parse_items_until zero bs = err out_of_fuel
    parse_items_until (suc f) bs =
        let more : Parsed Items = do
          (x, after) ← parse_data_item f bs
          (xs, after) ← parse_items_until f after
          ok (cons x xs, after)
        in if is_break bs then ok (nil, drop 1 bs) else more

    pub parse_pairs : ℕ → ℕ → Entries → Bytes → Parsed Entries
    parse_pairs f zero es bs = ok (es, bs)
    parse_pairs zero (suc n) es bs = err out_of_fuel
    parse_pairs (suc f) (suc n) es bs = do
      (key, after) ← parse_data_item f bs
      (value, after) ← parse_data_item f after
      (es, after) ← stored key value es after
      parse_pairs f n es after

    pub parse_pairs_until : ℕ → Entries → Bytes → Parsed Entries
    parse_pairs_until zero es bs = err out_of_fuel
    parse_pairs_until (suc f) es bs =
        let more : Parsed Entries = do
          (key, after) ← parse_data_item f bs
          (value, after) ← parse_data_item f after
          (es, after) ← stored key value es after
          parse_pairs_until f es after
        in if is_break bs then ok (es, drop 1 bs) else more

  -- An item with its type and its loop are three calls, and an item takes a byte at least.
  unfoldable pub parse : Bytes → Parsed Item
  parse bs = parse_data_item (3 * length bs + 1) bs
