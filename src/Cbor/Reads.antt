-- ===== src/Cbor/Reads.antt =====
-- When the parser reads bytes as a value and leaves what follows, for each way to put an item
-- together (localstack-core/localstack/aws/protocol/parser.py).
use localstack_bb.Base.{
  ℕ, zero, suc, ◌*◌, ◌/◌, ◌≤◌, ◌<◌, String, ◌≡◌, refl, ap, ◌∙◌, subst, Bool, true, false, ◌&&◌, not,
  Option, some, [], ◌∷◌, ◌++◌, arith, if◌then◌else◌, length, append_assoc, append-nil, Bool-cases,
  inl, inr,
}
use localstack_bb.Base.Result.{ok}
use localstack_bb.Base.Int.{ℤ, pos, negsuc}
use localstack_bb.Cbor.{
  Item, int, blob, str, array, dict, bool, float, datetime, null, Entries, empty, entry, same_key,
  is_hashable, put_entry,
}
use localstack_bb.Cbor.Utf8.{encode, decode-encode}
use localstack_bb.Cbor.Stream.{
  Bytes, Parsed, parse_unsigned_integer, Major, unsigned, negative, byte_string, text_string, tag,
  simple_and_float, major_of, widen,
}
use localstack_bb.Cbor.Parser.{
  FromTimestamp, parse_data_item, parse_type, parse_byte_string, decoded, stored,
  parse_simple_and_float, tagged, parse_type_datetime, dated, dispatch,
}
use localstack_bb.Cbor.Serializer.{big_endian, get_initial_byte, head}
use localstack_bb.Cbor.Heads.{
  read_from_stream-append, read_bytes_as_int-big_endian, initial_major, initial_info, read_first,
  IsHead, head-IsHead,
}
use Prim.Native.Nat.{◌^◌, bit_and}

pub two_calls :
    (P : ℕ → Type 0) (n : ℕ)
    → 1 ≤ n
    → ((g : ℕ) → n < suc (suc g) → P (suc (suc g)))
    → (f : ℕ) → n < f
    → P f
two_calls P n one step zero h = absurd (omega arith)
two_calls P n one step (suc zero) h = absurd (omega arith)
two_calls P n one step (suc (suc g)) h = step g h

abbrev pub Reads : FromTimestamp → Bytes → Item → Type 0
Reads from bs i =
    (f : ℕ)
    → 3 * length bs < f
    → (rest : Bytes) → parse_data_item from f (bs ++ rest) ≡ ok (i, rest)

abbrev pub append_entries : Entries → Entries → Entries
append_entries empty es = es
append_entries (entry k v ds) es = entry k v (append_entries ds es)

pub append_entries-empty : (ds : Entries) → append_entries ds empty ≡ ds
append_entries-empty empty = refl
append_entries-empty (entry k v ds) = ap (entry k v) (append_entries-empty ds)

pub append_entries_assoc :
    (ds es gs : Entries)
    → append_entries (append_entries ds es) gs ≡ append_entries ds (append_entries es gs)
append_entries_assoc empty es gs = refl
append_entries_assoc (entry k v ds) es gs = ap (entry k v) (append_entries_assoc ds es gs)

-- No key of the dict is the same as this one.
unfoldable pub is_new : Item → Entries → Bool
is_new k empty = true
is_new k (entry j v es) = not (same_key j k) && is_new k es

abbrev pub is_null : Item → Bool
is_null null = true
is_null _ = false

pub put_entry-new :
    (k v : Item) (es : Entries)
    → is_new k es ≡ true
    → put_entry k v es ≡ append_entries es (entry k v empty)
unfolding put_entry is_new
put_entry-new k v empty h = refl
put_entry-new k v (entry j w es) h = elim (Bool-cases (same_key j k)) [
  | inl e ↦ absurd (ground arith)
  | inr e ↦ rw e (ap (entry j w) (put_entry-new k v es (ground arith)))
]

pub stored-some :
    (k v : Item) (es : Entries) (bs : Bytes)
    → is_null v ≡ false
    → is_hashable k ≡ true
    → stored k v es bs ≡ ok (put_entry k v es, bs)
unfolding stored
stored-some k null es bs h j = absurd (ground arith)
stored-some k (int z) es bs h j = rw j refl
stored-some k (blob b) es bs h j = rw j refl
stored-some k (str s) es bs h j = rw j refl
stored-some k (array xs) es bs h j = rw j refl
stored-some k (dict ds) es bs h j = rw j refl
stored-some k (bool b) es bs h j = rw j refl
stored-some k (float b) es bs h j = rw j refl
stored-some k (datetime t) es bs h j = rw j refl

decoded-encode : (s : String) (rest : Bytes) → decoded (encode s) rest ≡ ok (str s, rest)
unfolding decoded
decoded-encode s rest = rw (decode-encode s, decoded) refl

module _ (from : FromTimestamp) where
  dispatch-some :
      (o : Option Major) (m : Major) (method : Major → Parsed Item)
      → o ≡ some m
      → dispatch o method ≡ method m
  unfolding dispatch
  dispatch-some o m method e = rw e refl

  parse-first :
      (f byte : ℕ) (m : Major) (bs : Bytes)
      → major_of (byte / 32) ≡ some m
      → parse_data_item from (suc f) (byte ∷ bs) ≡ parse_type from f m (bit_and byte 31) bs
  unfolding parse_data_item
  parse-first f byte m bs e = rw (read_first byte bs) (dispatch-some _ m _ e)

  pub parse-initial :
      (f k i : ℕ) (m : Major) (bs : Bytes)
      → k < 8
      → i < 32
      → major_of k ≡ some m
      → parse_data_item from (suc f) (get_initial_byte k i ∷ bs) ≡ parse_type from f m i bs
  parse-initial f k i m bs small fits e =
      parse-first f _ m bs (ap major_of (initial_major k i small fits) ∙ e)
      ∙ ap (λ (x : ℕ). parse_type from f m x bs) (initial_info k i small fits)

  -- Bytes that start with a head, by what their major type makes of the number.
  pub Reads-head :
      (k v : ℕ) (m : Major) (start body : Bytes) (i : Item)
      → k < 8
      → major_of k ≡ some m
      → IsHead k v start
      → ((info g : ℕ) (after rest : Bytes)
          → info < 28
          → 3 * length (start ++ body) < suc (suc g)
          → parse_unsigned_integer info after ≡ ok (v, body ++ rest)
          → parse_type from (suc g) m info after ≡ ok (i, rest))
      → Reads from (start ++ body) i
  Reads-head k v m start body i small e h typed = two_calls _ _ pos λ g fuel rest.
      step g rest
      ∙ typed h.info g (h.tail ++ (body ++ rest)) rest h.definite fuel (h.reads (body ++ rest))
    where
      pos : 1 ≤ 3 * length (start ++ body)
      pos = rw h.shape (omega arith)

      step :
          (g : ℕ) (rest : Bytes)
          → parse_data_item from (suc (suc g)) ((start ++ body) ++ rest)
            ≡ parse_type from (suc g) m h.info (h.tail ++ (body ++ rest))
      step g rest =
          rw (append_assoc start body rest, h.shape)
            (parse-initial (suc g) k h.info m (h.tail ++ (body ++ rest)) small (omega arith) e)

  pub Reads-unsigned : (v : ℕ) (bs : Bytes) → head 0 v ≡ some bs → Reads from bs (int (pos v))
  Reads-unsigned v bs h =
      subst (λ x. Reads from x (int (pos v))) (append-nil bs)
        (Reads-head 0 v unsigned bs [] (int (pos v)) (omega arith) (unfold major_of in refl)
          (head-IsHead 0 v bs h) λ info g after rest d fuel e. unfold parse_type in rw e refl)

  pub Reads-negative : (v : ℕ) (bs : Bytes) → head 1 v ≡ some bs → Reads from bs (int (negsuc v))
  Reads-negative v bs h =
      subst (λ x. Reads from x (int (negsuc v))) (append-nil bs)
        (Reads-head 1 v negative bs [] (int (negsuc v)) (omega arith) (unfold major_of in refl)
          (head-IsHead 1 v bs h) λ info g after rest d fuel e. unfold parse_type in rw e refl)

  counted_bytes :
      (info f : ℕ) (body after rest : Bytes)
      → info < 28
      → length body < 2 ^ 63
      → parse_unsigned_integer info after ≡ ok (length body, body ++ rest)
      → parse_byte_string f info after ≡ ok (body, rest)
  unfolding parse_byte_string
  counted_bytes info f body after rest d small e = ground (arith, read_from_stream-append body rest)

  pub Reads-blob :
      (start body : Bytes)
      → head 2 (length body) ≡ some start
      → length body < 2 ^ 63
      → Reads from (start ++ body) (blob body)
  Reads-blob start body h small =
      Reads-head 2 (length body) byte_string start body (blob body) (omega arith)
        (unfold major_of in refl) (head-IsHead 2 (length body) start h)
        λ info g after rest d fuel e.
          unfold parse_type in rw (counted_bytes info g body after rest d small e) refl

  pub Reads-str :
      (start : Bytes) (s : String)
      → head 3 (length (encode s)) ≡ some start
      → length (encode s) < 2 ^ 63
      → Reads from (start ++ encode s) (str s)
  Reads-str start s h small =
      Reads-head 3 (length (encode s)) text_string start (encode s) (str s) (omega arith)
        (unfold major_of in refl) (head-IsHead 3 (length (encode s)) start h)
        λ info g after rest d fuel e.
          unfold parse_type in
          rw (counted_bytes info g (encode s) after rest d small e) (decoded-encode s rest)

  -- Simple values and floats.
  Reads-simple :
      (info : ℕ) (tail : Bytes) (i : Item)
      → info < 32
      → ((rest : Bytes) → parse_simple_and_float info (tail ++ rest) ≡ ok (i, rest))
      → Reads from (get_initial_byte 7 info ∷ tail) i
  Reads-simple info tail i fits reads = two_calls _ _ (omega arith) λ g fuel rest.
      parse-initial (suc g) 7 info simple_and_float (tail ++ rest) (omega arith) fits
        (unfold major_of in refl)
      ∙ (unfold parse_type in reads rest)

  pub Reads-bool : (b : Bool) → Reads from (get_initial_byte 7 (if b then 21 else 20) ∷ []) (bool b)
  Reads-bool true =
      Reads-simple 21 [] (bool true) (omega arith) λ rest. unfold parse_simple_and_float in refl
  Reads-bool false =
      Reads-simple 20 [] (bool false) (omega arith) λ rest. unfold parse_simple_and_float in refl

  pub Reads-half :
      (b : ℕ)
      → b < 256 ^ 2
      → Reads from (get_initial_byte 7 25 ∷ big_endian 2 b) (float (widen 5 10 b))
  Reads-half b fits = Reads-simple 25 (big_endian 2 b) (float (widen 5 10 b)) (omega arith) λ rest.
      unfold parse_simple_and_float in
      rw (read_bytes_as_int-big_endian 2 b rest (omega arith) fits) refl

  pub Reads-single :
      (b : ℕ)
      → b < 256 ^ 4
      → Reads from (get_initial_byte 7 26 ∷ big_endian 4 b) (float (widen 8 23 b))
  Reads-single b fits =
      Reads-simple 26 (big_endian 4 b) (float (widen 8 23 b)) (omega arith) λ rest.
        unfold parse_simple_and_float in
        rw (read_bytes_as_int-big_endian 4 b rest (omega arith) fits) refl

  pub Reads-double :
      (b : ℕ) → b < 256 ^ 8 → Reads from (get_initial_byte 7 27 ∷ big_endian 8 b) (float b)
  Reads-double b fits = Reads-simple 27 (big_endian 8 b) (float b) (omega arith) λ rest.
      unfold parse_simple_and_float in
      rw (read_bytes_as_int-big_endian 8 b rest (omega arith) fits) refl

  parse-tag :
      (g info t : ℕ) (bs after rest : Bytes) (v : Item)
      → parse_unsigned_integer info bs ≡ ok (t, after)
      → parse_data_item from g after ≡ ok (v, rest)
      → parse_type from (suc g) tag info bs ≡ tagged from t v rest
  unfolding parse_type
  parse-tag g info t bs after rest v e r = rw e (rw r refl)

  tagged-float :
      (b : ℕ) (t : ℤ) (rest : Bytes)
      → from (float b) ≡ some t
      → tagged from 1 (float b) rest ≡ ok (datetime t, rest)
  unfolding tagged parse_type_datetime dated
  tagged-float b t rest e = ap (λ o. dated o rest) e

  -- Tag 1 over a number.
  pub Reads-datetime :
      (bs : Bytes) (b : ℕ) (t : ℤ)
      → from (float b) ≡ some t
      → Reads from bs (float b)
      → Reads from (get_initial_byte 6 1 ∷ bs) (datetime t)
  Reads-datetime bs b t e reads = two_calls _ _ (omega arith) λ g fuel rest.
      parse-initial (suc g) 6 1 tag (bs ++ rest) (omega arith) (omega arith)
        (unfold major_of in refl)
      ∙ parse-tag g 1 1 (bs ++ rest) (bs ++ rest) rest (float b)
          (unfold parse_unsigned_integer in refl) (reads g (omega arith) rest)
      ∙ tagged-float b t rest e
