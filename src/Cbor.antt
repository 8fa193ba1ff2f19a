-- ===== src/Cbor.antt =====
-- The values of the CBOR codec (localstack-core/localstack/aws/protocol/parser.py and serializer.py)
-- as Python has them once they are decoded, and when two of them are the same key of a dict.
pub mod Utf8
pub mod Stream
pub mod Parser
pub mod Serializer
pub mod Heads
pub mod Reads
pub mod Nested
pub mod Dicts
pub mod Wire
pub mod Leaves
pub mod RoundTrip
pub mod Whole
pub mod Fuel
mod Tests
use localstack_bb.Base.{
  ℕ, suc, ◌+◌, ◌-◌, ◌*◌, ◌/◌, ◌%◌, String, Bool, true, false, ◌&&◌, ◌||◌, not, Option, none, some,
  List, [], ◌∷◌, leb, ltb, ◌==◌, str_eq, if◌then◌else◌,
}
use localstack_bb.Base.Int.{ℤ, pos, negsuc}
use Prim.Native.Nat.{◌^◌}

-- A float is its 64 bits, a datetime its microseconds since 1970 in UTC, a byte a number.
mutual
  pub data Item : Type 0 where
    int : ℤ → Item
    blob : List ℕ → Item
    str : String → Item
    array : Items → Item
    dict : Entries → Item
    bool : Bool → Item
    float : ℕ → Item
    datetime : ℤ → Item
    null : Item

  pub data Items : Type 0 where
    nil : Items
    cons : Item → Items → Items

  -- In the order of insertion.
  pub data Entries : Type 0 where
    empty : Entries
    entry : Item → Item → Entries → Entries

-- The exact value of a number: mantissa * 2 ^ (exponent - 1075).
pub data Number : Type 0 where
  finite : (negative : Bool) (mantissa exponent : ℕ) → Number
  infinite : (negative : Bool) → Number
  nan : Number

unfoldable pub float_value : ℕ → Number
float_value b =
    let negative = 2 ^ 63 == b / 2 ^ 63 * 2 ^ 63 in
    let e = b / 2 ^ 52 % 2048 in
    let m = b % 2 ^ 52 in
    if e == 2047
    then if m == 0 then infinite negative else nan
    else if e == 0
    then finite negative m 1
    else finite negative (m + 2 ^ 52) e

abbrev pub int_value : ℤ → Number
int_value (pos n) = finite false n 1075
int_value (negsuc n) = finite true (suc n) 1075

unfoldable pub numeric : Item → Option Number
numeric (int z) = some (int_value z)
numeric (bool true) = some (finite false 1 1075)
numeric (bool false) = some (finite false 0 1075)
numeric (float b) = some (float_value b)
numeric _ = none

abbrev pub bool_eq : Bool → Bool → Bool
bool_eq true b = b
bool_eq false b = not b

-- One of the two exponents' differences is 0.
unfoldable pub same_number : Number → Number → Bool
same_number (finite s m e) (finite t n f) =
    m * 2 ^ (e - f) == n * 2 ^ (f - e) && (bool_eq s t || m == 0)
same_number (infinite s) (infinite t) = bool_eq s t
same_number _ _ = false

unfoldable pub bytes_eq : List ℕ → List ℕ → Bool
bytes_eq [] [] = true
bytes_eq (a ∷ xs) (b ∷ ys) = a == b && bytes_eq xs ys
bytes_eq _ _ = false

abbrev pub int_eq : ℤ → ℤ → Bool
int_eq (pos m) (pos n) = m == n
int_eq (negsuc m) (negsuc n) = m == n
int_eq _ _ = false

-- `==` of two values that can be keys: numbers of different types can be equal.
unfoldable pub same_key : Item → Item → Bool
same_key (blob a) (blob b) = bytes_eq a b
same_key (str s) (str t) = str_eq s t
same_key (datetime a) (datetime b) = int_eq a b
same_key null null = true
same_key a b = elim (numeric a) [
  | none ↦ false
  | some m ↦ elim (numeric b) [ none ↦ false | some n ↦ same_number m n ]
]

-- Lists and dicts cannot be keys.
unfoldable pub is_hashable : Item → Bool
is_hashable (array _) = false
is_hashable (dict _) = false
is_hashable _ = true

-- `items[key] = value`
unfoldable pub put_entry : Item → Item → Entries → Entries
put_entry k v empty = entry k v empty
put_entry k v (entry j w es) =
    let rest = put_entry k v es in if same_key j k then entry j v es else entry j w rest
