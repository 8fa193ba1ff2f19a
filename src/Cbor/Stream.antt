-- ===== src/Cbor/Stream.antt =====
-- Reading a stream of bytes: _read_from_stream, _read_bytes_as_int and _handle_break_code of
-- localstack-core/localstack/aws/protocol/parser.py, and the numbers in the first byte of an item.
use localstack_bb.Base.{
  ℕ, zero, suc, ◌+◌, ◌-◌, ◌*◌, ◌/◌, ◌%◌, Bool, false, List, [], ◌∷◌, Option, none, some, ltb, leb,
  ◌==◌, if◌then◌else◌, length, take, drop,
}
use localstack_bb.Base.Result.{Result, ok, err, ◌>>=◌}
use Prim.Native.Nat.{◌^◌}

-- ProtocolParserError, or any other exception, which becomes an UnknownParserError. The parser
-- itself never runs out of fuel.
pub data ParseError : Type 0 where
  protocol_error unknown_error out_of_fuel : ParseError

abbrev pub Bytes : Type 0
Bytes = List ℕ

-- A value, and the bytes that are left.
abbrev pub Parsed {ℓ} : Type ℓ → Type ℓ
Parsed A = Result ParseError (A × Bytes)

-- More bytes than an index can count are refused by the stream itself.
unfoldable pub read_from_stream : ℕ → Bytes → Parsed Bytes
read_from_stream n bs =
    if leb (2 ^ 63) n
    then err unknown_error
    else if ltb (length bs) n
    then err protocol_error
    else ok (take n bs, drop n bs)

-- `int.from_bytes(bytes, "big")`, after the number that was read before.
unfoldable pub from_bytes : ℕ → Bytes → ℕ
from_bytes n [] = n
from_bytes n (b ∷ bs) = from_bytes (n * 256 + b) bs

unfoldable pub read_bytes_as_int : ℕ → Bytes → Parsed ℕ
read_bytes_as_int n bs = do (value, rest) ← read_from_stream n bs; ok (from_bytes 0 value, rest)

unfoldable pub parse_unsigned_integer : ℕ → Bytes → Parsed ℕ
parse_unsigned_integer info bs =
    if ltb info 24
    then ok (info, bs)
    else if info == 24
    then read_bytes_as_int 1 bs
    else if info == 25
    then read_bytes_as_int 2 bs
    else if info == 26
    then read_bytes_as_int 4 bs
    else if info == 27
    then read_bytes_as_int 8 bs
    else err protocol_error

-- Whether the next byte is the break code.
unfoldable pub is_break : Bytes → Bool
is_break [] = false
is_break (b ∷ bs) = b == 0xff

-- The keys of the table of parsing methods.
pub data Major : Type 0 where
  unsigned negative byte_string text_string array_type map_type tag simple_and_float : Major

unfoldable pub major_of : ℕ → Option Major
major_of n =
    if n == 0
    then some unsigned
    else if n == 1
    then some negative
    else if n == 2
    then some byte_string
    else if n == 3
    then some text_string
    else if n == 4
    then some array_type
    else if n == 5
    then some map_type
    else if n == 6
    then some tag
    else if n == 7
    then some simple_and_float
    else none

-- The position of the highest bit of a number that is not 0; `k` bits are looked at.
unfoldable pub top_bit : ℕ → ℕ → ℕ
top_bit zero m = 0
top_bit (suc k) m = let rest = top_bit k m in if leb (2 ^ suc k) m then suc k else rest

-- `struct.unpack` of a float with so many bits of exponent and mantissa, as the 64 bits of the
-- same number. The payload of a NaN is dropped.
unfoldable pub widen : ℕ → ℕ → ℕ → ℕ
widen eb mb b =
    let sign = b / 2 ^ (eb + mb) in
    let e = b / 2 ^ mb % 2 ^ eb in
    let m = b % 2 ^ mb in
    let k = top_bit mb m in
    let bias = 2 ^ (eb - 1) - 1 in
    sign * 2 ^ 63
    + (if e == 2 ^ eb - 1
        then 2047 * 2 ^ 52 + (if m == 0 then 0 else 2 ^ 51)
        else if e == 0
        then if m == 0 then 0 else (k + 1024 - bias - mb) * 2 ^ 52 + (m - 2 ^ k) * 2 ^ (52 - k)
        else (e + 1023 - bias) * 2 ^ 52 + m * 2 ^ (52 - mb))
