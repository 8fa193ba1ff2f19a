-- ===== src/Cbor/Fuel.antt =====
-- What the parser leaves of its input, and the fuel that it takes
-- (localstack-core/localstack/aws/protocol/parser.py).
use localstack_bb.Base.{
  ℕ, zero, suc, ◌+◌, ◌*◌, ◌/◌, ◌≤◌, ◌<◌, Bool, true, false, Option, none, some, [], ◌∷◌, arith, ltb,
  leb, ◌==◌, if◌then◌else◌, length, length-drop, Bool-cases, Option-cases, inl, inr,
}
use localstack_bb.Base.Result.{ok, err, ◌>>=◌}
use localstack_bb.Base.Int.{ℤ}
use localstack_bb.Cbor.{Item, int, bool, float, null, Entries, empty, is_hashable}
use localstack_bb.Cbor.Utf8.{decode}
use localstack_bb.Cbor.Stream.{
  protocol_error, unknown_error, out_of_fuel, Bytes, Parsed, read_from_stream, read_bytes_as_int,
  parse_unsigned_integer, is_break, Major, unsigned, negative, byte_string, text_string, array_type,
  map_type, tag, simple_and_float, major_of, widen,
}
use localstack_bb.Cbor.Parser.{
  FromTimestamp, dated, parse_type_datetime, tagged, parse_simple_and_float, parse_chunks,
  parse_byte_string, decoded, dispatch, stored, parse_data_item, parse_type, parse_items,
  parse_items_until, parse_pairs, parse_pairs_until, parse,
}
use localstack_bb.Cbor.Heads.{read_first}
use Prim.Native.Nat.{◌^◌, bit_and}

-- The parser raised, or returned with fewer than `n` bytes left; it did not run out of fuel.
abbrev pub Below {ℓ} : {A : Type ℓ} → ℕ → Parsed A → Type 0
Below n (ok (x, after)) = length after < n
Below n (err protocol_error) = Unit
Below n (err unknown_error) = Unit
Below n (err out_of_fuel) = ⊥

Below-bind {ℓ κ} :
    {A : Type ℓ} {B : Type κ} (m n : ℕ) (r : Parsed A) (k : A × Bytes → Parsed B)
    → Below m r
    → ((x : A) (after : Bytes) → length after < m → Below n (k (x, after)))
    → Below n (r >>= k)
Below-bind m n (ok (x, after)) k h next = next x after h
Below-bind m n (err protocol_error) k h next = tt
Below-bind m n (err unknown_error) k h next = tt
Below-bind m n (err out_of_fuel) k h next = absurd h

Below-mono {ℓ} : {A : Type ℓ} (m n : ℕ) (r : Parsed A) → m ≤ n → Below m r → Below n r
Below-mono m n (ok (x, after)) l h = omega arith
Below-mono m n (err protocol_error) l h = tt
Below-mono m n (err unknown_error) l h = tt
Below-mono m n (err out_of_fuel) l h = absurd h

read_from_stream-Below : (n : ℕ) (bs : Bytes) → Below (suc (length bs)) (read_from_stream n bs)
unfolding read_from_stream
read_from_stream-Below n bs = elim (Bool-cases (leb (2 ^ 63) n)) [
  | inl e ↦ rw e tt
  | inr e ↦ rw e (elim (Bool-cases (ltb (length bs) n)) [
    | inl f ↦ rw f tt
    | inr f ↦ rw f (omega (arith, length-drop n bs))
  ])
]

read_bytes_as_int-Below : (n : ℕ) (bs : Bytes) → Below (suc (length bs)) (read_bytes_as_int n bs)
unfolding read_bytes_as_int
read_bytes_as_int-Below n bs =
    Below-bind _ _ (read_from_stream n bs) _ (read_from_stream-Below n bs) λ x after h. h

read_one-Below : (bs : Bytes) → Below (length bs) (read_bytes_as_int 1 bs)
unfolding read_bytes_as_int read_from_stream
read_one-Below [] = tt
read_one-Below (b ∷ bs) = rw (read_first b bs) (omega arith)

-- A tree of tests whose every branch is fine.
if-Below {ℓ} :
    {A : Type ℓ} (n : ℕ) (b : Bool) (r s : Parsed A)
    → Below n r
    → Below n s
    → Below n (if b then r else s)
if-Below n true r s h k = h
if-Below n false r s h k = k

unsigned-Below : (info : ℕ) (bs : Bytes) → Below (suc (length bs)) (parse_unsigned_integer info bs)
unfolding parse_unsigned_integer
unsigned-Below info bs =
    let read = λ (n : ℕ). read_bytes_as_int-Below n bs in
    if-Below _ (ltb info 24) _ _ (omega arith) (
      if-Below _ (info == 24) _ _ (read 1) (
        if-Below _ (info == 25) _ _ (read 2)
          (if-Below _ (info == 26) _ _ (read 4) (if-Below _ (info == 27) _ _ (read 8) tt))))

simple-Below : (info : ℕ) (bs : Bytes) → Below (suc (length bs)) (parse_simple_and_float info bs)
unfolding parse_simple_and_float
simple-Below info bs =
    let read = λ (n : ℕ) (f : ℕ → Item).
      Below-bind (suc (length bs)) (suc (length bs)) (read_bytes_as_int n bs)
        (λ (b, rest). ok (f b, rest)) (read_bytes_as_int-Below n bs) (λ b after h. h) in
    if-Below _ (info == 20) _ _ (omega arith) (
      if-Below _ (info == 21) _ _ (omega arith) (
        if-Below _ (info == 22) _ _ (omega arith) (
          if-Below _ (info == 23) _ _ (omega arith) (
            if-Below _ (info == 25) _ _ (read 2 (λ b. float (widen 5 10 b))) (
              if-Below _ (info == 26) _ _ (read 4 (λ b. float (widen 8 23 b)))
                (if-Below _ (info == 27) _ _ (read 8 (λ b. float b)) tt))))))

chunks-Below : (f : ℕ) (bs : Bytes) → length bs < f → Below (suc (length bs)) (parse_chunks f bs)
unfolding parse_chunks
chunks-Below zero bs h = absurd (omega arith)
chunks-Below (suc f) bs h = if-Below _ (is_break bs) _ _ (omega (arith, length-drop 1 bs)) (
    Below-bind _ _ (read_bytes_as_int 1 bs) _ (read_one-Below bs) λ byte a1 l1.
      Below-bind _ _ (parse_unsigned_integer (bit_and byte 31) a1) _ (unsigned-Below _ a1)
        λ size a2 l2.
          Below-bind _ _ (read_from_stream size a2) _ (read_from_stream-Below size a2)
            λ chunk a3 l3.
              Below-bind _ _ (parse_chunks f a3) _ (chunks-Below f a3 (omega arith))
                λ chunks a4 l4. omega arith)

byte_string-Below :
    (f info : ℕ) (bs : Bytes)
    → length bs < f
    → Below (suc (length bs)) (parse_byte_string f info bs)
unfolding parse_byte_string
byte_string-Below f info bs h = if-Below _ (info == 31) _ _ (chunks-Below f bs h) (
    Below-bind _ _ (parse_unsigned_integer info bs) _ (unsigned-Below info bs) λ size a l.
      Below-mono _ _ (read_from_stream size a) (omega arith) (read_from_stream-Below size a))

stored-Below :
    (n : ℕ) (k v : Item) (es : Entries) (bs : Bytes) → length bs < n → Below n (stored k v es bs)
unfolding stored
stored-Below n k null es bs h = h
stored-Below n k _ es bs h = if-Below n (is_hashable k) _ _ h tt

dated-Below : (n : ℕ) (o : Option ℤ) (bs : Bytes) → length bs < n → Below n (dated o bs)
unfolding dated
dated-Below n none bs h = tt
dated-Below n (some t) bs h = h

tagged-Below :
    (from : FromTimestamp) (n t : ℕ) (v : Item) (bs : Bytes)
    → length bs < n
    → Below n (tagged from t v bs)
unfolding tagged
tagged-Below from n t v bs h = if-Below n (t == 1) _ _ (at v) tt
  where
    at : (v : Item) → Below n (parse_type_datetime from v bs)
    at (int z) = unfold parse_type_datetime in dated-Below n (from (int z)) bs h
    at (float b) = unfold parse_type_datetime in dated-Below n (from (float b)) bs h
    at (bool b) = unfold parse_type_datetime in dated-Below n (from (bool b)) bs h
    at _ = unfold parse_type_datetime in tt

decoded-Below : (n : ℕ) (text bs : Bytes) → length bs < n → Below n (decoded text bs)
unfolding decoded
decoded-Below n text bs h = elim (Option-cases (decode text)) [
  | inl e ↦ rw (e, decoded) tt
  | inr (s, e) ↦ rw (e, decoded) h
]

dispatch-Below :
    (n : ℕ) (o : Option Major) (method : Major → Parsed Item)
    → ((m : Major) → Below n (method m))
    → Below n (dispatch o method)
unfolding dispatch
dispatch-Below n none method h = tt
dispatch-Below n (some m) method h = h m

module _ (from : FromTimestamp) where
  -- With fuel for three calls an item, and the calls that are under way.
  mutual
    unfolding parse_data_item

    item-Below :
        (f : ℕ) (bs : Bytes) → 3 * length bs < f → Below (length bs) (parse_data_item from f bs)
    item-Below zero bs h = absurd (omega arith)
    item-Below (suc f) bs h =
        Below-bind _ _ (read_bytes_as_int 1 bs) _ (read_one-Below bs) λ byte a l.
          dispatch-Below _ (major_of (byte / 2 ^ 5)) _ λ m.
            Below-mono _ _ (parse_type from f m (bit_and byte 31) a) (omega arith)
              (type-Below f m (bit_and byte 31) a (omega arith))

    type-Below :
        (f : ℕ) (m : Major) (info : ℕ) (bs : Bytes)
        → 3 * length bs + 2 < f
        → Below (suc (length bs)) (parse_type from f m info bs)
    type-Below zero m info bs h = absurd (omega arith)
    type-Below (suc f) unsigned info bs h =
        Below-bind _ _ (parse_unsigned_integer info bs) _ (unsigned-Below info bs) λ n a l. l
    type-Below (suc f) negative info bs h =
        Below-bind _ _ (parse_unsigned_integer info bs) _ (unsigned-Below info bs) λ n a l. l
    type-Below (suc f) byte_string info bs h =
        Below-bind _ _ (parse_byte_string f info bs) _ (byte_string-Below f info bs (omega arith))
          λ n a l. l
    type-Below (suc f) text_string info bs h =
        Below-bind _ _ (parse_byte_string f info bs) _ (byte_string-Below f info bs (omega arith))
          λ n a l. decoded-Below _ n a l
    type-Below (suc f) array_type info bs h =
        Below-bind _ _ _ _
          (if-Below (suc (length bs)) (info == 31) _ _ (items_until-Below f bs (omega arith)) (
            Below-bind _ _ (parse_unsigned_integer info bs) _ (unsigned-Below info bs) λ n a l.
              Below-mono _ _ (parse_items from f n a) (omega arith)
                (items-Below f n a (omega arith))))
          λ xs a l. l
    type-Below (suc f) map_type info bs h =
        Below-bind _ _ _ _
          (if-Below (suc (length bs)) (info == 31) _ _ (pairs_until-Below f empty bs (omega arith))
            (Below-bind _ _ (parse_unsigned_integer info bs) _ (unsigned-Below info bs) λ n a l.
              Below-mono _ _ (parse_pairs from f n empty a) (omega arith)
                (pairs-Below f n empty a (omega arith))))
          λ xs a l. l
    type-Below (suc f) tag info bs h =
        Below-bind _ _ (parse_unsigned_integer info bs) _ (unsigned-Below info bs) λ t a l.
          Below-bind _ _ (parse_data_item from f a) _ (item-Below f a (omega arith))
            λ v b k. tagged-Below from _ t v b (omega arith)
    type-Below (suc f) simple_and_float info bs h = simple-Below info bs

    items-Below :
        (f n : ℕ) (bs : Bytes)
        → 3 * length bs + 1 < f
        → Below (suc (length bs)) (parse_items from f n bs)
    items-Below zero n bs h = absurd (omega arith)
    items-Below (suc f) zero bs h = omega arith
    items-Below (suc f) (suc n) bs h =
        Below-bind _ _ (parse_data_item from f bs) _ (item-Below f bs (omega arith)) λ x a l.
          Below-bind _ _ (parse_items from f n a) _ (items-Below f n a (omega arith))
            λ xs b k. omega arith

    items_until-Below :
        (f : ℕ) (bs : Bytes)
        → 3 * length bs + 1 < f
        → Below (suc (length bs)) (parse_items_until from f bs)
    items_until-Below zero bs h = absurd (omega arith)
    items_until-Below (suc f) bs h =
        if-Below _ (is_break bs) _ _ (omega (arith, length-drop 1 bs)) (
          Below-bind _ _ (parse_data_item from f bs) _ (item-Below f bs (omega arith)) λ x a l.
            Below-bind _ _ (parse_items_until from f a) _ (items_until-Below f a (omega arith))
              λ xs b k. omega arith)

    pairs-Below :
        (f n : ℕ) (es : Entries) (bs : Bytes)
        → 3 * length bs + 1 < f
        → Below (suc (length bs)) (parse_pairs from f n es bs)
    pairs-Below zero n es bs h = absurd (omega arith)
    pairs-Below (suc f) zero es bs h = omega arith
    pairs-Below (suc f) (suc n) es bs h =
        Below-bind _ _ (parse_data_item from f bs) _ (item-Below f bs (omega arith)) λ k a l.
          Below-bind _ _ (parse_data_item from f a) _ (item-Below f a (omega arith)) λ v b p.
            Below-bind _ _ (stored k v es b) _
              (stored-Below (suc (length b)) k v es b (omega arith))
              λ gs c q.
                Below-mono _ _ (parse_pairs from f n gs c) (omega arith)
                  (pairs-Below f n gs c (omega arith))

    pairs_until-Below :
        (f : ℕ) (es : Entries) (bs : Bytes)
        → 3 * length bs + 1 < f
        → Below (suc (length bs)) (parse_pairs_until from f es bs)
    pairs_until-Below zero es bs h = absurd (omega arith)
    pairs_until-Below (suc f) es bs h =
        if-Below _ (is_break bs) _ _ (omega (arith, length-drop 1 bs)) (
          Below-bind _ _ (parse_data_item from f bs) _ (item-Below f bs (omega arith)) λ k a l.
            Below-bind _ _ (parse_data_item from f a) _ (item-Below f a (omega arith)) λ v b p.
              Below-bind _ _ (stored k v es b) _
                (stored-Below (suc (length b)) k v es b (omega arith))
                λ gs c q.
                  Below-mono _ _ (parse_pairs_until from f gs c) (omega arith)
                    (pairs_until-Below f gs c (omega arith)))

  -- On every input the parser raises, or returns a value and fewer bytes than it was given: it never
  -- runs out of fuel.
  pub parse-Below : (bs : Bytes) → Below (length bs) (parse from bs)
  unfolding parse
  parse-Below bs = item-Below (3 * length bs + 1) bs (omega arith)
