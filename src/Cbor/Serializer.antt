-- ===== src/Cbor/Serializer.antt =====
-- BaseCBORResponseSerializer of localstack-core/localstack/aws/protocol/serializer.py. None is an
-- exception, of which the public methods make an UnknownSerializerError. `x << 5` is `x * 2 ^ 5`.
use localstack_bb.Base.{
  ℕ, zero, suc, ◌*◌, ◌/◌, ◌%◌, String, Bool, true, false, ◌||◌, not, Option, none, some, List, [],
  ◌∷◌, ◌++◌, ltb, ◌==◌, str_eq, if◌then◌else◌, length,
}
use localstack_bb.Base.Int.{ℤ, pos, negsuc}
use localstack_bb.Cbor.{
  Item, int, blob, str, array, dict, bool, float, datetime, null, Items, nil, cons, Entries, empty,
  entry,
}
use localstack_bb.Cbor.Utf8.{encode}
use localstack_bb.Cbor.Stream.{Bytes}
use Prim.Native.Nat.{◌^◌, bit_or}

infixl 5 ◌>>=◌
abbrev pub ◌>>=◌ {ℓ κ} : {A : Type ℓ} {B : Type κ} → Option A → (A → Option B) → Option B
none >>= f = none
some a >>= f = f a

-- The shapes of botocore as far as the serializer looks at them. A member has its own name and the
-- one of its serialization, if that has one.
mutual
  pub data Shape : Type 0 where
    integer_shape long_shape blob_shape string_shape boolean_shape : Shape
    float_shape double_shape timestamp_shape : Shape
    list_shape : Shape → Shape
    map_shape : Shape → Shape → Shape
    structure_shape : Members → Shape

  pub data Members : Type 0 where
    no_members : Members
    member : String → Option String → Shape → Members → Members

-- The float arithmetic of Python and botocore's reading of a datetime, which are parameters:
-- `struct.pack(">f", x)` and `float(n)` as bits, and `datetime.timestamp()`.
pub record Platform : Type 0 where
  pub pack_single : ℕ → Option ℕ
  pub float_of : ℤ → Option ℕ
  pub timestamp : ℤ → ℕ
  pub parse_to_aware_datetime : Item → Option ℤ

-- `value.to_bytes(n, "big")`
unfoldable pub big_endian : ℕ → ℕ → Bytes
big_endian zero v = []
big_endian (suc n) v = big_endian n (v / 256) ++ v % 256 ∷ []

unfoldable pub to_bytes : ℕ → ℕ → Option Bytes
to_bytes n v = if ltb v (256 ^ n) then some (big_endian n v) else none

unfoldable pub get_additional_info_and_num_bytes : ℕ → ℕ × ℕ
get_additional_info_and_num_bytes v =
    if ltb v 24
    then (v, 0)
    else if ltb v 256
    then (24, 1)
    else if ltb v 65536
    then (25, 2)
    else if ltb v 4294967296
    then (26, 4)
    else (27, 8)

unfoldable pub get_initial_byte : ℕ → ℕ → ℕ
get_initial_byte major info = bit_or (major * 2 ^ 5) info

-- The first byte and the bytes of a number: the start of an integer, a text, a blob and of a list
-- or map with a length.
unfoldable pub head : ℕ → ℕ → Option Bytes
head major v =
    let (info, n) = get_additional_info_and_num_bytes v in
    let long : Option Bytes = do bytes ← to_bytes n v; some (get_initial_byte major info ∷ bytes)
    in if n == 0 then some (get_initial_byte major info ∷ []) else long

unfoldable pub serialize_type_integer : Item → Option Bytes
serialize_type_integer (int (pos n)) = head 0 n
serialize_type_integer (int (negsuc n)) = head 1 n
serialize_type_integer (bool true) = head 0 1
serialize_type_integer (bool false) = head 0 0
serialize_type_integer _ = none

unfoldable pub with_length : ℕ → Bytes → Option Bytes
with_length major bs = do start ← head major (length bs); some (start ++ bs)

unfoldable pub serialize_type_blob : Item → Option Bytes
serialize_type_blob (blob bs) = with_length 2 bs
serialize_type_blob (str s) = with_length 2 (encode s)
serialize_type_blob _ = none

unfoldable pub serialize_type_string : Item → Option Bytes
serialize_type_string (str s) = with_length 3 (encode s)
serialize_type_string _ = none

unfoldable pub truthy : Item → Bool
truthy (int (pos n)) = not (n == 0)
truthy (int (negsuc n)) = true
truthy (blob bs) = not (length bs == 0)
truthy (str s) = not (str_eq s "")
truthy (array nil) = false
truthy (array (cons _ _)) = true
truthy (dict empty) = false
truthy (dict (entry _ _ _)) = true
truthy (bool b) = b
truthy (float b) = not (b % 2 ^ 63 == 0)
truthy (datetime t) = true
truthy null = false

unfoldable pub serialize_type_boolean : Item → Option Bytes
serialize_type_boolean v = some (get_initial_byte 7 (if truthy v then 21 else 20) ∷ [])

abbrev pub infinity : ℕ
infinity = 2047 * 2 ^ 52

abbrev pub minus_infinity : ℕ
minus_infinity = 4095 * 2 ^ 52

abbrev pub is_nan : ℕ → Bool
is_nan b = ltb infinity (b % 2 ^ 63)

unfoldable pub is_special_number : ℕ → Bool
is_special_number b = b == infinity || (b == minus_infinity || is_nan b)

unfoldable pub get_bytes_for_special_numbers : ℕ → Bytes
get_bytes_for_special_numbers b =
    get_initial_byte 7 25
    ∷ big_endian 2
        (if b == infinity then 0x7c00 else if b == minus_infinity then 0xfc00 else 0x7e00)

unfoldable pub serialize_special_or : ℕ → Option Bytes → Option Bytes
serialize_special_or b rest =
    if is_special_number b then some (get_bytes_for_special_numbers b) else rest

-- The arguments of `range`-like iteration: what `for item in value` runs through.
abbrev pub chars_of : String → Items
chars_of String.[] = nil
chars_of (String.◌∷◌ c s) = cons (str (String.◌∷◌ c String.[])) (chars_of s)

abbrev pub ints_of : List ℕ → Items
ints_of [] = nil
ints_of (b ∷ bs) = cons (int (pos b)) (ints_of bs)

abbrev pub keys_of : Entries → Items
keys_of empty = nil
keys_of (entry k v es) = cons k (keys_of es)

unfoldable pub iterate : Item → Option Items
iterate (array xs) = some xs
iterate (dict es) = some (keys_of es)
iterate (str s) = some (chars_of s)
iterate (blob bs) = some (ints_of bs)
iterate _ = none

unfoldable pub entries_of : Item → Option Entries
entries_of (dict es) = some es
entries_of _ = none

abbrev pub count : Items → ℕ
count nil = 0
count (cons x xs) = suc (count xs)

abbrev pub count_entries : Entries → ℕ
count_entries empty = 0
count_entries (entry k v es) = suc (count_entries es)

-- `{k: v for k, v in value.items() if v is not None}`
unfoldable pub without_none : Entries → Entries
without_none empty = empty
without_none (entry k null es) = without_none es
without_none (entry k v es) = entry k v (without_none es)

unfoldable pub each : (Item → Option Bytes) → Items → Option Bytes
each f nil = some []
each f (cons x xs) = do start ← f x; rest ← each f xs; some (start ++ rest)

unfoldable pub each_pair : (Item → Item → Option Bytes) → Entries → Option Bytes
each_pair f empty = some []
each_pair f (entry k v es) = do start ← f k v; rest ← each_pair f es; some (start ++ rest)

unfoldable pub serialize_pair :
    (Item → Option Bytes) → (Item → Option Bytes) → Item → Item → Option Bytes
serialize_pair f g k v = do start ← f k; rest ← g v; some (start ++ rest)

-- The elements between the first bytes and the break code; `indefinite` is the attribute
-- USE_INDEFINITE_DATA_STRUCTURE of the class.
unfoldable pub enclosed : Bool → ℕ → ℕ → Bytes → Option Bytes
enclosed true major n body = some (get_initial_byte major 31 ∷ body ++ 0xff ∷ [])
enclosed false major n body = do start ← head major n; some (start ++ body)

unfoldable pub serialize_list : Bool → (Item → Option Bytes) → Item → Option Bytes
serialize_list indefinite item v = do
  xs ← iterate v
  body ← each item xs
  enclosed indefinite 4 (count xs) body

unfoldable pub serialize_entries : Bool → (Item → Item → Option Bytes) → Entries → Option Bytes
serialize_entries indefinite pair es = do
  body ← each_pair pair es
  enclosed indefinite 5 (count_entries es) body

abbrev pub name_or : Option String → String → String
name_or none name = name
name_or (some other) name = other

module _ (platform : Platform) where
  -- What `struct.pack` takes for a float.
  unfoldable pub float_bits : Item → Option ℕ
  float_bits (float b) = some b
  float_bits (int z) = platform.float_of z
  float_bits (bool true) = platform.float_of (pos 1)
  float_bits (bool false) = platform.float_of (pos 0)
  float_bits _ = none

  unfoldable pub serialize_type_float : Item → Option Bytes
  serialize_type_float v = do
    b ← float_bits v
    serialize_special_or b
        do single ← platform.pack_single b; some (get_initial_byte 7 26 ∷ big_endian 4 single)

  unfoldable pub serialize_type_double : Item → Option Bytes
  serialize_type_double v = do
    b ← float_bits v
    serialize_special_or b (some (get_initial_byte 7 27 ∷ big_endian 8 b))

  unfoldable pub serialize_type_timestamp : Item → Option Bytes
  serialize_type_timestamp v = do
    t ← platform.parse_to_aware_datetime v
    some (get_initial_byte 6 1 ∷ get_initial_byte 7 27 ∷ big_endian 8 (platform.timestamp t))

module _ (platform : Platform) (indefinite : Bool) where
  unfoldable mutual
    pub serialize_data_item : Shape → Item → Option Bytes
    serialize_data_item integer_shape v = serialize_type_integer v
    serialize_data_item long_shape v = serialize_type_integer v
    serialize_data_item blob_shape v = serialize_type_blob v
    serialize_data_item string_shape v = serialize_type_string v
    serialize_data_item boolean_shape v = serialize_type_boolean v
    serialize_data_item float_shape v = serialize_type_float platform v
    serialize_data_item double_shape v = serialize_type_double platform v
    serialize_data_item timestamp_shape v = serialize_type_timestamp platform v
    serialize_data_item (list_shape s) v =
        let item = serialize_data_item s in serialize_list indefinite item v
    serialize_data_item (map_shape k s) v =
        let pair = serialize_pair (serialize_data_item k) (serialize_data_item s) in
        do es ← entries_of v; serialize_entries indefinite pair es
    serialize_data_item (structure_shape ms) v =
        let pair = serialize_member ms in
        do es ← entries_of v; serialize_entries indefinite pair (without_none es)

    -- The member with this name, under the name of its serialization; none is a KeyError.
    pub serialize_member : Members → Item → Item → Option Bytes
    serialize_member no_members k v = none
    serialize_member (member name other s ms) k v =
        let here = serialize_data_item s v in
        let later = serialize_member ms k v in
        let found : Option Bytes = do
          start ← serialize_type_string (str (name_or other name))
          rest ← here
          some (start ++ rest)
        in elim k [ str j ↦ if str_eq name j then found else later | _ ↦ none ]
