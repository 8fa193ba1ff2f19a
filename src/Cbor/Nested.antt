-- ===== src/Cbor/Nested.antt =====
-- Lists, with a length or up to the break code, as the parser reads them
-- (localstack-core/localstack/aws/protocol/parser.py).
use localstack_bb.Base.{
  ℕ, zero, suc, ◌+◌, ◌*◌, ◌≤◌, ◌<◌, ◌≡◌, refl, ap, ◌∙◌, subst, Bool, true, false, some, [], ◌∷◌,
  ◌++◌, arith, ◌==◌, length, length-append, append_assoc, Bool-cases, Option-cases, inl, inr,
}
use localstack_bb.Base.Result.{ok, err}
use localstack_bb.Cbor.{Item, array, Items, nil, cons}
use localstack_bb.Cbor.Stream.{
  ParseError, protocol_error, out_of_fuel, Bytes, read_bytes_as_int, read_from_stream,
  parse_unsigned_integer, is_break, array_type, simple_and_float, major_of,
}
use localstack_bb.Cbor.Parser.{
  FromTimestamp, parse_data_item, parse_type, parse_items, parse_items_until,
  parse_simple_and_float,
}
use localstack_bb.Cbor.Serializer.{get_initial_byte, head, enclosed, count}
use localstack_bb.Cbor.Heads.{IsHead, head-IsHead}
use localstack_bb.Cbor.Reads.{two_calls, Reads, Reads-head, parse-initial}

pub enclosed_start :
    (k n : ℕ) (body bs : Bytes)
    → enclosed false k n body ≡ some bs
    → (start : Bytes) × (head k n ≡ some start) × (start ++ body ≡ bs)
unfolding enclosed
enclosed_start k n body bs h = elim (Option-cases (head k n)) [
  | inl e ↦ absurd (ground arith)
  | inr (start, e) ↦ (start, e, ground arith)
]

pub length-start : (k v : ℕ) (bs : Bytes) → IsHead k v bs → 1 ≤ length bs
length-start k v bs h = rw h.shape (omega arith)

module _ (from : FromTimestamp) where
  break_ends :
      (f : ℕ) (bs : Bytes) → (e : ParseError) × (parse_data_item from f (0xff ∷ bs) ≡ err e)
  unfolding get_initial_byte
  break_ends zero bs = (out_of_fuel, unfold parse_data_item in refl)
  break_ends (suc zero) bs = (
    out_of_fuel,
    parse-initial from 0 7 31 simple_and_float bs (omega arith) (omega arith)
          (unfold major_of in refl)
        ∙ (unfold parse_type in refl),
  )
  break_ends (suc (suc f)) bs = (
    protocol_error,
    parse-initial from (suc f) 7 31 simple_and_float bs (omega arith) (omega arith)
          (unfold major_of in refl)
        ∙ (unfold parse_type parse_simple_and_float in refl),
  )

  -- An item never starts with the break code.
  pub break_refused :
      (f : ℕ) (bs rest : Bytes) (i : Item)
      → parse_data_item from f bs ≡ ok (i, rest)
      → is_break bs ≡ false
  unfolding is_break
  break_refused f [] rest i h = refl
  break_refused f (b ∷ bs) rest i h = elim (Bool-cases (b == 0xff)) [
    | inl e ↦
        let (x, r) = break_ends f bs in
        let same : b ≡ 0xff = ground arith in
        absurd (cc (h, r, ap (λ (y : ℕ). parse_data_item from f (y ∷ bs)) same))
    | inr e ↦ e
  ]

  parse-empty : parse_data_item from 1 [] ≡ err protocol_error
  parse-empty = unfold parse_data_item read_bytes_as_int read_from_stream in refl

  -- An item takes a byte at least.
  pub Reads-pos : (bs : Bytes) (i : Item) → Reads from bs i → 1 ≤ length bs
  Reads-pos [] i h = absurd (cc (h 1 (omega arith) [], parse-empty))
  Reads-pos (b ∷ bs) i h = omega arith

  -- The elements of a list one after another.
  pub record ReadsItems (body : Bytes) (xs : Items) : Type 0 where
    pub until :
        (f : ℕ)
        → 3 * length body + 1 < f
        → (rest : Bytes) → parse_items_until from f (body ++ 0xff ∷ rest) ≡ ok (xs, rest)
    pub counted :
        (f : ℕ)
        → 3 * length body + 1 < f
        → (rest : Bytes) → parse_items from f (count xs) (body ++ rest) ≡ ok (xs, rest)

  items_until_step :
      (f : ℕ) (bs after rest : Bytes) (x : Item) (xs : Items)
      → parse_data_item from f bs ≡ ok (x, after)
      → parse_items_until from f after ≡ ok (xs, rest)
      → parse_items_until from (suc f) bs ≡ ok (cons x xs, rest)
  unfolding parse_items_until
  items_until_step f bs after rest x xs e r = rw (break_refused f bs after x e) (rw e (rw r refl))

  items_counted_step :
      (f n : ℕ) (bs after rest : Bytes) (x : Item) (xs : Items)
      → parse_data_item from f bs ≡ ok (x, after)
      → parse_items from f n after ≡ ok (xs, rest)
      → parse_items from (suc f) (suc n) bs ≡ ok (cons x xs, rest)
  unfolding parse_items
  items_counted_step f n bs after rest x xs e r = rw e (rw r refl)

  pub ReadsItems-nil : ReadsItems [] nil
  ReadsItems-nil = record {
    until = λ f h rest. until f h rest;
    counted = λ f h rest. counted f rest;
  }
    where
      until :
          (f : ℕ) → 1 < f → (rest : Bytes) → parse_items_until from f (0xff ∷ rest) ≡ ok (nil, rest)
      until zero h rest = absurd (omega arith)
      until (suc f) h rest = unfold parse_items_until is_break in refl

      counted : (f : ℕ) (rest : Bytes) → parse_items from f 0 rest ≡ ok (nil, rest)
      counted zero rest = unfold parse_items in refl
      counted (suc f) rest = unfold parse_items in refl

  pub ReadsItems-cons :
      (bs body : Bytes) (x : Item) (xs : Items)
      → Reads from bs x
      → ReadsItems body xs
      → ReadsItems (bs ++ body) (cons x xs)
  ReadsItems-cons bs body x xs one more = record {
    until = two_calls _ _ (omega arith) λ g h rest. rw (append_assoc bs body (0xff ∷ rest)) (
        items_until_step (suc g) _ (body ++ 0xff ∷ rest) rest x xs
          (one (suc g) (omega (arith, length-append bs body)) (body ++ 0xff ∷ rest))
          (more.until (suc g) (omega (arith, length-append bs body, Reads-pos bs x one)) rest));
    counted = two_calls _ _ (omega arith) λ g h rest. rw (append_assoc bs body rest) (
        items_counted_step (suc g) (count xs) _ (body ++ rest) rest x xs
          (one (suc g) (omega (arith, length-append bs body)) (body ++ rest))
          (more.counted (suc g) (omega (arith, length-append bs body, Reads-pos bs x one)) rest));
  }

  array_until :
      (g : ℕ) (bs rest : Bytes) (xs : Items)
      → parse_items_until from g bs ≡ ok (xs, rest)
      → parse_type from (suc g) array_type 31 bs ≡ ok (array xs, rest)
  unfolding parse_type
  array_until g bs rest xs e = rw e refl

  array_counted :
      (g info n : ℕ) (bs after rest : Bytes) (xs : Items)
      → info < 28
      → parse_unsigned_integer info bs ≡ ok (n, after)
      → parse_items from g n after ≡ ok (xs, rest)
      → parse_type from (suc g) array_type info bs ≡ ok (array xs, rest)
  unfolding parse_type
  array_counted g info n bs after rest xs h e r =
      let definite : (info == 31) ≡ false = ground arith in rw (definite, e) (rw r refl)

  -- A list, with a length or without.
  pub Reads-array :
      (indefinite : Bool) (body bs : Bytes) (xs : Items)
      → ReadsItems body xs
      → enclosed indefinite 4 (count xs) body ≡ some bs
      → Reads from bs (array xs)
  unfolding enclosed
  Reads-array true body bs xs all h =
      subst (λ b. Reads from b (array xs)) {x = get_initial_byte 4 31 ∷ body ++ 0xff ∷ []}
        (ground arith) whole
    where
      whole : Reads from (get_initial_byte 4 31 ∷ body ++ 0xff ∷ []) (array xs)
      whole = two_calls _ _ (omega arith) λ g fuel rest. rw (append_assoc body (0xff ∷ []) rest) (
          parse-initial from (suc g) 4 31 array_type (body ++ 0xff ∷ rest) (omega arith)
            (omega arith) (unfold major_of in refl)
          ∙ array_until g (body ++ 0xff ∷ rest) rest xs
              (all.until g (omega (arith, length-append body (0xff ∷ []))) rest))
  Reads-array false body bs xs all h =
      let (start, e, same) = enclosed_start 4 (count xs) body bs h in
      let first = head-IsHead 4 (count xs) start e in
      subst (λ b. Reads from b (array xs)) same
        (Reads-head from 4 (count xs) array_type start body (array xs) (omega arith)
          (unfold major_of in refl) first
          λ info g after rest d fuel r.
            array_counted g info (count xs) after (body ++ rest) rest xs d r (
              all.counted g
                (omega (arith, length-append start body, length-start 4 (count xs) start first))
                rest))
