-- ===== src/Cbor/Wire.antt =====
-- What a serialized value is on the wire, told by its shape alone: the value that a reader of CBOR
-- gets (localstack-core/localstack/aws/protocol/serializer.py).
use localstack_bb.Base.{
  ℕ, ◌+◌, ◌*◌, ◌<◌, ◌≡◌, true, false, Option, none, some, ◌==◌, str_eq, if◌then◌else◌, length,
}
use localstack_bb.Base.Int.{pos}
use localstack_bb.Cbor.{
  Item, int, blob, str, array, dict, bool, float, datetime, null, Items, nil, cons, Entries, empty,
  entry,
}
use localstack_bb.Cbor.Utf8.{encode}
use localstack_bb.Cbor.Stream.{widen}
use localstack_bb.Cbor.Parser.{FromTimestamp}
use localstack_bb.Cbor.Serializer.{
  ◌>>=◌, Shape, integer_shape, long_shape, blob_shape, string_shape, boolean_shape, float_shape,
  double_shape, timestamp_shape, list_shape, map_shape, structure_shape, Members, no_members,
  member, Platform, truthy, infinity, minus_infinity, is_special_number, iterate, entries_of,
  without_none, name_or, float_bits,
}
use localstack_bb.Cbor.Dicts.{Distinct}
use Prim.Native.Nat.{◌^◌}

unfoldable pub wire_integer : Item → Option Item
wire_integer (int z) = some (int z)
wire_integer (bool true) = some (int (pos 1))
wire_integer (bool false) = some (int (pos 0))
wire_integer _ = none

unfoldable pub wire_blob : Item → Option Item
wire_blob (blob bs) = some (blob bs)
wire_blob (str s) = some (blob (encode s))
wire_blob _ = none

unfoldable pub wire_string : Item → Option Item
wire_string (str s) = some (str s)
wire_string _ = none

-- Every NaN is the one that CBOR has.
unfoldable pub special_value : ℕ → ℕ
special_value b =
    if b == infinity
    then infinity
    else if b == minus_infinity
    then minus_infinity
    else 2047 * 2 ^ 52 + 2 ^ 51

unfoldable pub wire_each : (Item → Option Item) → Items → Option Items
wire_each f nil = some nil
wire_each f (cons x xs) = do y ← f x; ys ← wire_each f xs; some (cons y ys)

unfoldable pub wire_pairs : (Item → Item → Option (Item × Item)) → Entries → Option Entries
wire_pairs f empty = some empty
wire_pairs f (entry k v es) = do (j, w) ← f k v; gs ← wire_pairs f es; some (entry j w gs)

unfoldable pub wire_pair :
    (Item → Option Item) → (Item → Option Item) → Item → Item → Option (Item × Item)
wire_pair f g k v = do j ← f k; w ← g v; some (j, w)

unfoldable pub wire_list : (Item → Option Item) → Item → Option Item
wire_list f v = do xs ← iterate v; ys ← wire_each f xs; some (array ys)

unfoldable pub wire_entries : (Item → Item → Option (Item × Item)) → Entries → Option Item
wire_entries f es = do gs ← wire_pairs f es; some (dict gs)

module _ (platform : Platform) where
  unfoldable pub wire_float : Item → Option Item
  wire_float v = do
    b ← float_bits platform v
    (if is_special_number b
        then some (float (special_value b))
        else platform.pack_single b >>= (λ s. some (float (widen 8 23 s))))

  unfoldable pub wire_double : Item → Option Item
  wire_double v = do
    b ← float_bits platform v
    some (if is_special_number b then float (special_value b) else float b)

  unfoldable pub wire_timestamp : Item → Option Item
  wire_timestamp v = do t ← platform.parse_to_aware_datetime v; some (datetime t)

  unfoldable mutual
    pub wire : Shape → Item → Option Item
    wire integer_shape v = wire_integer v
    wire long_shape v = wire_integer v
    wire blob_shape v = wire_blob v
    wire string_shape v = wire_string v
    wire boolean_shape v = some (bool (truthy v))
    wire float_shape v = wire_float v
    wire double_shape v = wire_double v
    wire timestamp_shape v = wire_timestamp v
    wire (list_shape s) v = let item = wire s in wire_list item v
    wire (map_shape k s) v =
        let pair = wire_pair (wire k) (wire s) in do es ← entries_of v; wire_entries pair es
    wire (structure_shape ms) v =
        let pair = wire_member ms in do es ← entries_of v; wire_entries pair (without_none es)

    pub wire_member : Members → Item → Item → Option (Item × Item)
    wire_member no_members k v = none
    wire_member (member name other s ms) k v =
        let here = wire s v in
        let later = wire_member ms k v in
        let found : Option (Item × Item) = here >>= (λ w. some (str (name_or other name), w)) in
        elim k [ str j ↦ if str_eq name j then found else later | _ ↦ none ]

-- A value that a reader can have back: no text is too long for an index, the keys of each dict
-- are distinct and its values not None, a float has 64 bits and a datetime survives as a float.
module _ (platform : Platform) (from : FromTimestamp) where
  abbrev mutual
    pub IsGood : Item → Type 0
    IsGood (int z) = Unit
    IsGood (blob bs) = length bs < 2 ^ 63
    IsGood (str s) = length (encode s) < 2 ^ 63
    IsGood (array xs) = AreGood xs
    IsGood (dict es) = Distinct empty es × ArePairsGood es
    IsGood (bool b) = Unit
    IsGood (float b) = b < 256 ^ 8
    IsGood (datetime t) =
        (platform.timestamp t < 256 ^ 8) × (from (float (platform.timestamp t)) ≡ some t)
    IsGood null = Unit

    pub AreGood : Items → Type 0
    AreGood nil = Unit
    AreGood (cons x xs) = IsGood x × AreGood xs

    pub ArePairsGood : Entries → Type 0
    ArePairsGood empty = Unit
    ArePairsGood (entry k v es) = IsGood k × IsGood v × ArePairsGood es
