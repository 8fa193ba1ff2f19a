-- ===== src/Cbor/Utf8.antt =====
-- `str.encode("utf-8")` and `bytes.decode("utf-8")`, as the CBOR parser and serializer use them
-- (localstack-core/localstack/aws/protocol/parser.py and serializer.py). A byte is a number.
use localstack_bb.Base.{
  ℕ, zero, suc, ◌+◌, ◌-◌, ◌*◌, ◌/◌, ◌%◌, ◌≤◌, ◌<◌, String, ◌≡◌, refl, ap, ◌∙◌, ◌&&◌, Option, none,
  some, List, [], ◌∷◌, ◌++◌, arith, ltb, leb, ◌==◌, if◌then◌else◌, Bool-cases, ◌⊎◌, inl, inr,
}
use Prim.Native.Nat.{Ordering, compare}
use Prim.Native.Char.{Char, char, code, IsLt}
use mathlib.Core.Option
use text.Mathlib.TextEquality.{Char-path}

-- "a scalar value of Unicode", as the comparisons of the character type say it.
abbrev IsBoth : Ordering → Ordering → Type 0
IsBoth Ordering.lt o = IsLt o
IsBoth Ordering.eq _ = ⊥
IsBoth Ordering.gt _ = ⊥

abbrev IsScalar : Ordering → Ordering → Ordering → Type 0
IsScalar Ordering.lt _ _ = Unit
IsScalar Ordering.eq o p = IsBoth o p
IsScalar Ordering.gt o p = IsBoth o p

abbrev is_both : (o p : Ordering) → Option (IsBoth o p)
is_both Ordering.lt Ordering.lt = some tt
is_both _ _ = none

abbrev is_scalar : (o p q : Ordering) → Option (IsScalar o p q)
is_scalar Ordering.lt _ _ = some tt
is_scalar Ordering.eq o p = is_both o p
is_scalar Ordering.gt o p = is_both o p

-- The character of a number: a surrogate or a number past the last character has none.
unfoldable pub to_char : ℕ → Option Char
to_char n =
    Option.map (λ p. char n p) (is_scalar (compare n 55296) (compare 57343 n) (compare n 1114112))

unfoldable pub encode_char : Char → List ℕ
encode_char c =
    let n = code c in
    if ltb n 0x80
    then n ∷ []
    else if ltb n 0x800
    then (0xc0 + n / 64) ∷ (0x80 + n % 64) ∷ []
    else if ltb n 0x10000
    then (0xe0 + n / 4096) ∷ (0x80 + n / 64 % 64) ∷ (0x80 + n % 64) ∷ []
    else (0xf0 + n / 262144) ∷ (0x80 + n / 4096 % 64) ∷ (0x80 + n / 64 % 64) ∷ (0x80 + n % 64) ∷ []

unfoldable pub encode : String → List ℕ
encode String.[] = []
encode (String.◌∷◌ c s) = encode_char c ++ encode s

-- Between two bytes: how many are still to come, the bits read, and the least number that takes
-- so many bytes.
abbrev pub Pending : Type 0
Pending = ℕ × ℕ × ℕ

abbrev pub idle : Pending
idle = (0, 0, 0)

abbrev emit : ℕ → Option (Pending × Option Char)
emit n = Option.map (λ c. (idle, some c)) (to_char n)

unfoldable pub step : Pending → ℕ → Option (Pending × Option Char)
step (zero, v, low) b =
    if ltb b 0x80
    then emit b
    else if ltb b 0xc0
    then none
    else if ltb b 0xe0
    then some ((1, b - 0xc0, 0x80), none)
    else if ltb b 0xf0
    then some ((2, b - 0xe0, 0x800), none)
    else if ltb b 0xf8
    then some ((3, b - 0xf0, 0x10000), none)
    else none
step (suc k, v, low) b =
    let w = v * 64 + (b - 0x80) in
    if leb 0x80 b && ltb b 0xc0
    then if k == 0 then if ltb w low then none else emit w else some ((k, w, low), none)
    else none

abbrev join : Option Char → String → String
join none s = s
join (some c) s = String.◌∷◌ c s

unfoldable pub decode_from : Pending → List ℕ → Option String
decode_from (zero, v, low) [] = some String.[]
decode_from (suc k, v, low) [] = none
decode_from p (b ∷ bs) = elim (step p b) [
  | none ↦ none
  | some (q, c) ↦ Option.map (join c) (decode_from q bs)
]

-- `bytes.decode("utf-8")`; none is a UnicodeDecodeError.
unfoldable pub decode : List ℕ → Option String
decode bs = decode_from idle bs

is_both-IsSome : (o p : Ordering) → IsBoth o p → (s : IsBoth o p) × (is_both o p ≡ some s)
is_both-IsSome Ordering.lt Ordering.lt h = (tt, refl)
is_both-IsSome Ordering.lt Ordering.eq h = absurd h
is_both-IsSome Ordering.lt Ordering.gt h = absurd h
is_both-IsSome Ordering.eq p h = absurd h
is_both-IsSome Ordering.gt p h = absurd h

is_scalar-IsSome :
    (o p q : Ordering) → IsScalar o p q → (s : IsScalar o p q) × (is_scalar o p q ≡ some s)
is_scalar-IsSome Ordering.lt p q h = (tt, refl)
is_scalar-IsSome Ordering.eq p q h = is_both-IsSome p q h
is_scalar-IsSome Ordering.gt p q h = is_both-IsSome p q h

IsBoth_lt : (o p : Ordering) → IsBoth o p → p ≡ Ordering.lt
IsBoth_lt Ordering.lt Ordering.lt h = refl
IsBoth_lt Ordering.lt Ordering.eq h = absurd h
IsBoth_lt Ordering.lt Ordering.gt h = absurd h
IsBoth_lt Ordering.eq p h = absurd h
IsBoth_lt Ordering.gt p h = absurd h

IsScalar-lt : (o p q : Ordering) → IsScalar o p q → (o ≡ Ordering.lt) ⊎ (q ≡ Ordering.lt)
IsScalar-lt Ordering.lt p q h = inl refl
IsScalar-lt Ordering.eq p q h = inr (IsBoth_lt p q h)
IsScalar-lt Ordering.gt p q h = inr (IsBoth_lt p q h)

code-lt : (c : Char) → code c < 0x110000
code-lt (char n p) =
    ground (arith, IsScalar-lt (compare n 55296) (compare 57343 n) (compare n 1114112) p)

to_char-code : (c : Char) → to_char (code c) ≡ some c
unfolding to_char
to_char-code (char n p) =
    let (s, e) = is_scalar-IsSome (compare n 55296) (compare 57343 n) (compare n 1114112) p in
    rw e (ap some (Char-path (char n s) (char n p) refl))

map-join-none : (o : Option String) → Option.map (join none) o ≡ o
map-join-none none = refl
map-join-none (some s) = refl

decode_from-step :
    (p : Pending) (b : ℕ) (bs : List ℕ) (q : Pending) (c : Option Char)
    → step p b ≡ some (q, c)
    → decode_from p (b ∷ bs) ≡ Option.map (join c) (decode_from q bs)
unfolding decode_from
decode_from-step (zero, v, low) b bs q c e = rw (e, decode_from) refl
decode_from-step (suc k, v, low) b bs q c e = rw (e, decode_from) refl

-- One byte, by what it is.
decode-ascii :
    (c : Char) (bs : List ℕ)
    → code c < 0x80
    → decode_from idle (code c ∷ bs) ≡ Option.map (join (some c)) (decode_from idle bs)
decode-ascii c bs h = decode_from-step _ _ bs _ _ reads
  where
    reads : step idle (code c) ≡ some (idle, some c)
    reads = unfold step in ground (arith, to_char-code c)

module _ (a : ℕ) (bs : List ℕ) where
  decode-lead_two : a < 32 → decode_from idle ((0xc0 + a) ∷ bs) ≡ decode_from (1, a, 0x80) bs
  decode-lead_two h = decode_from-step _ _ bs _ _ reads ∙ map-join-none _
    where
      reads : step idle (0xc0 + a) ≡ some ((1, a, 0x80), none)
      reads = unfold step in ground arith

  decode-lead_three : a < 16 → decode_from idle ((0xe0 + a) ∷ bs) ≡ decode_from (2, a, 0x800) bs
  decode-lead_three h = decode_from-step _ _ bs _ _ reads ∙ map-join-none _
    where
      reads : step idle (0xe0 + a) ≡ some ((2, a, 0x800), none)
      reads = unfold step in ground arith

  decode-lead_four : a < 8 → decode_from idle ((0xf0 + a) ∷ bs) ≡ decode_from (3, a, 0x10000) bs
  decode-lead_four h = decode_from-step _ _ bs _ _ reads ∙ map-join-none _
    where
      reads : step idle (0xf0 + a) ≡ some ((3, a, 0x10000), none)
      reads = unfold step in ground arith

  decode-inner :
      (k v low : ℕ)
      → a < 64
      → decode_from (suc (suc k), v, low) ((0x80 + a) ∷ bs)
        ≡ decode_from (suc k, v * 64 + a, low) bs
  decode-inner k v low h = decode_from-step _ _ bs _ _ reads ∙ map-join-none _
    where
      reads : step (suc (suc k), v, low) (0x80 + a) ≡ some ((suc k, v * 64 + a, low), none)
      reads = unfold step in ground arith

  decode-last :
      (c : Char) (v low : ℕ)
      → a < 64
      → code c ≡ v * 64 + a
      → low ≤ code c
      → decode_from (1, v, low) ((0x80 + a) ∷ bs) ≡ Option.map (join (some c)) (decode_from idle bs)
  decode-last c v low h e l = decode_from-step _ _ bs _ _ reads
    where
      reads : step (1, v, low) (0x80 + a) ≡ some (idle, some c)
      reads = unfold step in ground (arith, to_char-code c)

-- The bytes of one character are read as that character.
module _ (c : Char) (bs : List ℕ) where
  abbrev Read : List ℕ → Type 0
  Read front = decode_from idle front ≡ Option.map (join (some c)) (decode_from idle bs)

  two_bytes :
      0x80 ≤ code c → code c < 0x800 → Read ((0xc0 + code c / 64) ∷ (0x80 + code c % 64) ∷ bs)
  two_bytes l h =
      decode-lead_two (code c / 64) _ (omega arith)
      ∙ decode-last (code c % 64) bs c (code c / 64) 0x80 (omega arith) (omega arith) l

  three_bytes :
      0x800 ≤ code c
      → code c < 0x10000
      → Read ((0xe0 + code c / 4096) ∷ (0x80 + code c / 64 % 64) ∷ (0x80 + code c % 64) ∷ bs)
  three_bytes l h =
      decode-lead_three (code c / 4096) _ (omega arith)
      ∙ decode-inner (code c / 64 % 64) _ 0 _ _ (omega arith)
      ∙ decode-last (code c % 64) bs c _ 0x800 (omega arith) (omega arith) l

  four_bytes :
      0x10000 ≤ code c
      → Read (
          (0xf0 + code c / 262144)
          ∷ (0x80 + code c / 4096 % 64)
          ∷ (0x80 + code c / 64 % 64)
          ∷ (0x80 + code c % 64)
          ∷ bs)
  four_bytes l =
      let top = code-lt c in
      decode-lead_four (code c / 262144) _ (omega arith)
      ∙ decode-inner (code c / 4096 % 64) _ 1 _ _ (omega arith)
      ∙ decode-inner (code c / 64 % 64) _ 0 _ _ (omega arith)
      ∙ decode-last (code c % 64) bs c _ 0x10000 (omega arith) (omega arith) l

  decode-encode_char : Read (encode_char c ++ bs)
  unfolding encode_char
  decode-encode_char = elim (Bool-cases (ltb (code c) 0x80)) [
    | inl e ↦ rw e (decode-ascii c bs (ground arith))
    | inr e ↦ rw e (elim (Bool-cases (ltb (code c) 0x800)) [
      | inl f ↦ rw f (two_bytes (ground arith) (ground arith))
      | inr f ↦ rw f (elim (Bool-cases (ltb (code c) 0x10000)) [
        | inl g ↦ rw g (three_bytes (ground arith) (ground arith))
        | inr g ↦ rw g (four_bytes (ground arith))
      ])
    ])
  ]

decode_from-encode : (s : String) → decode_from idle (encode s) ≡ some s
unfolding decode_from encode
decode_from-encode String.[] = refl
decode_from-encode (String.◌∷◌ c s) =
    decode-encode_char c (encode s) ∙ ap (Option.map (join (some c))) (decode_from-encode s)

-- Every text is read back from its bytes.
pub decode-encode : (s : String) → decode (encode s) ≡ some s
unfolding decode
decode-encode s = decode_from-encode s
