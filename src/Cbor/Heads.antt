-- ===== src/Cbor/Heads.antt =====
-- The first bytes of an item, as the serializer writes and the parser reads them
-- (localstack-core/localstack/aws/protocol/parser.py and serializer.py).
use localstack_bb.Base.{
  ℕ, zero, suc, ◌+◌, ◌*◌, ◌/◌, ◌%◌, ◌<◌, ◌≡◌, refl, ap, ◌∙◌, subst, Bool, true, some, List, [], ◌∷◌,
  ◌++◌, arith, ltb, ◌==◌, length, take, drop, length-append, Bool-cases, ==_iff, inl, inr, ◌&&◌,
}
use localstack_bb.Base.Result.{ok}
use localstack_bb.Cbor.Stream.{
  Bytes, read_from_stream, from_bytes, read_bytes_as_int, parse_unsigned_integer,
}
use localstack_bb.Cbor.Serializer.{
  big_endian, to_bytes, get_additional_info_and_num_bytes, get_initial_byte, head,
}
use Prim.Native.Nat.{◌^◌, bit_and, bit_or}
use native.Mathlib.Nat.{pow-suc}

from_bytes-append : (n b : ℕ) (bs : Bytes) → from_bytes n (bs ++ b ∷ []) ≡ from_bytes n bs * 256 + b
unfolding from_bytes
from_bytes-append n b [] = refl
from_bytes-append n b (c ∷ bs) = from_bytes-append (n * 256 + c) b bs

from_bytes-big_endian : (n v : ℕ) → v < 256 ^ n → from_bytes 0 (big_endian n v) ≡ v
unfolding big_endian
from_bytes-big_endian zero v h = unfold from_bytes in omega arith
from_bytes-big_endian (suc n) v h =
    from_bytes-append 0 (v % 256) (big_endian n (v / 256))
    ∙ omega (arith, pow-suc 256 n, from_bytes-big_endian n (v / 256) (omega (arith, pow-suc 256 n)))

pub length-big_endian : (n v : ℕ) → length (big_endian n v) ≡ n
unfolding big_endian
length-big_endian zero v = refl
length-big_endian (suc n) v =
    length-append (big_endian n (v / 256)) (v % 256 ∷ [])
    ∙ omega (arith, length-big_endian n (v / 256))

module _ {ℓ} {A : Type ℓ} where
  take-append : (xs ys : List A) → take (length xs) (xs ++ ys) ≡ xs
  take-append [] ys = refl
  take-append (x ∷ xs) ys = ap (◌∷◌ x) (take-append xs ys)

  drop-append : (xs ys : List A) → drop (length xs) (xs ++ ys) ≡ ys
  drop-append [] ys = refl
  drop-append (x ∷ xs) ys = drop-append xs ys

pub read_from_stream-append :
    (bs rest : Bytes)
    → length bs < 2 ^ 63
    → read_from_stream (length bs) (bs ++ rest) ≡ ok (bs, rest)
unfolding read_from_stream
read_from_stream-append bs rest h =
    ground (arith, length-append bs rest, take-append bs rest, drop-append bs rest)

read_exactly :
    (n : ℕ) (bs rest : Bytes)
    → length bs ≡ n
    → n < 2 ^ 63
    → read_from_stream n (bs ++ rest) ≡ ok (bs, rest)
read_exactly n bs rest e h =
    subst (λ k. read_from_stream k (bs ++ rest) ≡ ok (bs, rest)) e
      (read_from_stream-append bs rest (omega arith))

pub read_bytes_as_int-big_endian :
    (n v : ℕ) (rest : Bytes)
    → n < 2 ^ 63
    → v < 256 ^ n
    → read_bytes_as_int n (big_endian n v ++ rest) ≡ ok (v, rest)
unfolding read_bytes_as_int
read_bytes_as_int-big_endian n v rest h f =
    rw (read_exactly n (big_endian n v) rest (length-big_endian n v) h, from_bytes-big_endian n v f)
      refl

all_below : ℕ → (ℕ → Bool) → Bool
all_below zero p = true
all_below (suc n) p = p n && all_below n p

all_below→true : (n : ℕ) (p : ℕ → Bool) (x : ℕ) → all_below n p ≡ true → x < n → p x ≡ true
unfolding all_below
all_below→true zero p x h l = absurd (omega arith)
all_below→true (suc n) p x h l = ground (arith, all_below→true n p x)

or_table : all_below 256 (λ x. bit_or (x / 2 ^ 5 * 2 ^ 5) (x % 2 ^ 5) == x) ≡ true
unfolding all_below
or_table = refl

and_table : all_below 256 (λ x. bit_and x 31 == x % 2 ^ 5) ≡ true
unfolding all_below
and_table = refl

or_fields : (x : ℕ) → x < 256 → bit_or (x / 2 ^ 5 * 2 ^ 5) (x % 2 ^ 5) ≡ x
or_fields x h = (==_iff _ x).0 (all_below→true 256 _ x or_table h)

and_mask : (x : ℕ) → x < 256 → bit_and x 31 ≡ x % 2 ^ 5
and_mask x h = (==_iff _ _).0 (all_below→true 256 _ x and_table h)

module _ (k i : ℕ) (small : k < 8) (fits : i < 32) where
  initial_sum : get_initial_byte k i ≡ k * 2 ^ 5 + i
  unfolding get_initial_byte
  initial_sum =
      let quotient : (k * 2 ^ 5 + i) / 2 ^ 5 ≡ k = omega arith in
      let remainder : (k * 2 ^ 5 + i) % 2 ^ 5 ≡ i = omega arith in
      rw (quotient, remainder) at (or_fields (k * 2 ^ 5 + i) (omega arith))

  pub initial_major : get_initial_byte k i / 2 ^ 5 ≡ k
  initial_major = rw initial_sum (omega arith)

  pub initial_info : bit_and (get_initial_byte k i) 31 ≡ i
  initial_info = rw (initial_sum, and_mask (k * 2 ^ 5 + i) (omega arith)) (omega arith)

pub read_first : (b : ℕ) (rest : Bytes) → read_bytes_as_int 1 (b ∷ rest) ≡ ok (b, rest)
unfolding read_bytes_as_int read_from_stream from_bytes
read_first b rest = ground arith

-- What is known of the bytes that start an item with a number.
pub record IsHead (k v : ℕ) (bs : Bytes) : Type 0 where
  pub info : ℕ
  pub tail : Bytes
  pub shape : bs ≡ get_initial_byte k info ∷ tail
  pub definite : info < 28
  pub reads : (rest : Bytes) → parse_unsigned_integer info (tail ++ rest) ≡ ok (v, rest)

in_bytes :
    (k v n info : ℕ) (bs : Bytes)
    → v < 256 ^ n
    → n < 2 ^ 63
    → info < 28
    → ((rest : Bytes) → parse_unsigned_integer info rest ≡ read_bytes_as_int n rest)
    → bs ≡ get_initial_byte k info ∷ big_endian n v
    → IsHead k v bs
in_bytes k v n info bs fits small d reads e = record {
  info = info;
  tail = big_endian n v;
  shape = e;
  definite = d;
  reads = λ rest. reads (big_endian n v ++ rest) ∙ read_bytes_as_int-big_endian n v rest small fits;
}

pub head-IsHead : (k v : ℕ) (bs : Bytes) → head k v ≡ some bs → IsHead k v bs
unfolding head get_additional_info_and_num_bytes to_bytes
head-IsHead k v bs h = elim (Bool-cases (ltb v 24)) [
  | inl e ↦ record {
    info = v;
    tail = [];
    shape = ground arith;
    definite = ground arith;
    reads = λ rest. unfold parse_unsigned_integer in rw e refl;
  }
  | inr e ↦ elim (Bool-cases (ltb v 256)) [
    | inl f ↦
        in_bytes k v 1 24 bs (ground arith) (omega arith) (omega arith)
          (λ rest. unfold parse_unsigned_integer in refl) (ground arith)
    | inr f ↦ elim (Bool-cases (ltb v 65536)) [
      | inl g ↦
          in_bytes k v 2 25 bs (ground arith) (omega arith) (omega arith)
            (λ rest. unfold parse_unsigned_integer in refl) (ground arith)
      | inr g ↦ elim (Bool-cases (ltb v 4294967296)) [
        | inl i ↦
            in_bytes k v 4 26 bs (ground arith) (omega arith) (omega arith)
              (λ rest. unfold parse_unsigned_integer in refl) (ground arith)
        | inr i ↦ elim (Bool-cases (ltb v (256 ^ 8))) [
          | inl j ↦
              in_bytes k v 8 27 bs (ground arith) (omega arith) (omega arith)
                (λ rest. unfold parse_unsigned_integer in refl) (ground arith)
          | inr j ↦ absurd (ground arith)
        ]
      ]
    ]
  ]
]
