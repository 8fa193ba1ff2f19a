-- ===== src/Cbor/Dicts.antt =====
-- Dicts, with a length or up to the break code, as the parser reads them
-- (localstack-core/localstack/aws/protocol/parser.py).
use localstack_bb.Base.{
  ℕ, zero, suc, ◌+◌, ◌*◌, ◌<◌, ◌≡◌, refl, ap, ◌∙◌, subst, Bool, true, false, some, [], ◌∷◌, ◌++◌,
  arith, ◌==◌, length, length-append, append_assoc,
}
use localstack_bb.Base.Result.{ok}
use localstack_bb.Cbor.{Item, dict, Entries, empty, entry, is_hashable}
use localstack_bb.Cbor.Stream.{Bytes, parse_unsigned_integer, is_break, map_type, major_of}
use localstack_bb.Cbor.Parser.{
  FromTimestamp, parse_data_item, parse_type, parse_pairs, parse_pairs_until, stored,
}
use localstack_bb.Cbor.Serializer.{get_initial_byte, enclosed, count_entries}
use localstack_bb.Cbor.Heads.{head-IsHead}
use localstack_bb.Cbor.Reads.{
  two_calls, Reads, Reads-head, parse-initial, append_entries, append_entries-empty,
  append_entries_assoc, is_new, is_null, put_entry-new, stored-some,
}
use localstack_bb.Cbor.Nested.{enclosed_start, length-start, break_refused, Reads-pos}

-- The keys can be used, the values are not None, and no key comes twice, nor is one in the dict
-- already.
abbrev pub Distinct : Entries → Entries → Type 0
Distinct done empty = Unit
Distinct done (entry k v es) =
    (is_hashable k ≡ true)
    × (is_null v ≡ false)
    × (is_new k done ≡ true)
    × Distinct (append_entries done (entry k v empty)) es

module _ (from : FromTimestamp) where
  -- The entries of a dict one after another, behind those that it has already.
  pub record ReadsEntries (body : Bytes) (es : Entries) : Type 0 where
    pub until :
        (done : Entries)
        → Distinct done es
        → (f : ℕ) → 3 * length body + 1 < f
        → (rest : Bytes)
        → parse_pairs_until from f done (body ++ 0xff ∷ rest) ≡ ok (append_entries done es, rest)
    pub counted :
        (done : Entries)
        → Distinct done es
        → (f : ℕ) → 3 * length body + 1 < f
        → (rest : Bytes)
        → parse_pairs from f (count_entries es) done (body ++ rest)
          ≡ ok (append_entries done es, rest)

  pairs_until_step :
      (f : ℕ) (bs mid after rest : Bytes) (k v : Item) (done more all : Entries)
      → parse_data_item from f bs ≡ ok (k, mid)
      → parse_data_item from f mid ≡ ok (v, after)
      → stored k v done after ≡ ok (more, after)
      → parse_pairs_until from f more after ≡ ok (all, rest)
      → parse_pairs_until from (suc f) done bs ≡ ok (all, rest)
  unfolding parse_pairs_until
  pairs_until_step f bs mid after rest k v done more all e d p r =
      rw (break_refused from f bs mid k e) (rw e (rw d (rw p r)))

  pairs_counted_step :
      (f n : ℕ) (bs mid after rest : Bytes) (k v : Item) (done more all : Entries)
      → parse_data_item from f bs ≡ ok (k, mid)
      → parse_data_item from f mid ≡ ok (v, after)
      → stored k v done after ≡ ok (more, after)
      → parse_pairs from f n more after ≡ ok (all, rest)
      → parse_pairs from (suc f) (suc n) done bs ≡ ok (all, rest)
  unfolding parse_pairs
  pairs_counted_step f n bs mid after rest k v done more all e d p r = rw e (rw d (rw p r))

  stored-new :
      (k v : Item) (done : Entries) (bs : Bytes)
      → is_hashable k ≡ true
      → is_null v ≡ false
      → is_new k done ≡ true
      → stored k v done bs ≡ ok (append_entries done (entry k v empty), bs)
  stored-new k v done bs h n w =
      stored-some k v done bs n h ∙ ap (λ es. ok (es, bs)) (put_entry-new k v done w)

  pub ReadsEntries-empty : ReadsEntries [] empty
  ReadsEntries-empty = record {
    until = λ done d f h rest. until done f h rest;
    counted = λ done d f h rest. counted done f rest;
  }
    where
      until :
          (done : Entries) (f : ℕ)
          → 1 < f
          → (rest : Bytes)
          → parse_pairs_until from f done (0xff ∷ rest) ≡ ok (append_entries done empty, rest)
      until done zero h rest = absurd (omega arith)
      until done (suc f) h rest =
          rw (append_entries-empty done) (unfold parse_pairs_until is_break in refl)

      counted :
          (done : Entries) (f : ℕ) (rest : Bytes)
          → parse_pairs from f 0 done rest ≡ ok (append_entries done empty, rest)
      counted done zero rest = rw (append_entries-empty done) (unfold parse_pairs in refl)
      counted done (suc f) rest = rw (append_entries-empty done) (unfold parse_pairs in refl)

  pub ReadsEntries-entry :
      (ks vs body : Bytes) (k v : Item) (es : Entries)
      → Reads from ks k
      → Reads from vs v
      → ReadsEntries body es
      → ReadsEntries ((ks ++ vs) ++ body) (entry k v es)
  ReadsEntries-entry ks vs body k v es key value more = record {
    until = λ done (h, n, w, d). two_calls _ _ (omega arith) λ g fuel rest.
        rw (append_assoc (ks ++ vs) body (0xff ∷ rest), append_assoc ks vs (body ++ 0xff ∷ rest))
          (pairs_until_step (suc g) _ (vs ++ (body ++ 0xff ∷ rest)) (body ++ 0xff ∷ rest) rest k v
            done (append_entries done (entry k v empty)) (append_entries done (entry k v es))
            (key (suc g) (omega (arith, total)) _) (value (suc g) (omega (arith, total)) _)
            (stored-new k v done _ h n w)
            (subst
              (λ a.
                parse_pairs_until from (suc g) (append_entries done (entry k v empty))
                  (body ++ 0xff ∷ rest)
                ≡ ok (a, rest))
              (append_entries_assoc done (entry k v empty) es)
              (more.until (append_entries done (entry k v empty)) d (suc g)
                (omega (arith, total, Reads-pos from ks k key)) rest)));
    counted = λ done (h, n, w, d). two_calls _ _ (omega arith) λ g fuel rest.
        rw (append_assoc (ks ++ vs) body rest, append_assoc ks vs (body ++ rest))
          (pairs_counted_step (suc g) (count_entries es) _ (vs ++ (body ++ rest)) (body ++ rest)
            rest k v done (append_entries done (entry k v empty))
            (append_entries done (entry k v es)) (key (suc g) (omega (arith, total)) _)
            (value (suc g) (omega (arith, total)) _) (stored-new k v done _ h n w)
            (subst
              (λ a.
                parse_pairs from (suc g) (count_entries es) (append_entries done (entry k v empty))
                  (body ++ rest)
                ≡ ok (a, rest))
              (append_entries_assoc done (entry k v empty) es)
              (more.counted (append_entries done (entry k v empty)) d (suc g)
                (omega (arith, total, Reads-pos from ks k key)) rest)));
  }
    where
      total : length ((ks ++ vs) ++ body) ≡ length ks + length vs + length body
      total = length-append (ks ++ vs) body ∙ omega (arith, length-append ks vs)

  map_until :
      (g : ℕ) (bs rest : Bytes) (es : Entries)
      → parse_pairs_until from g empty bs ≡ ok (es, rest)
      → parse_type from (suc g) map_type 31 bs ≡ ok (dict es, rest)
  unfolding parse_type
  map_until g bs rest es e = rw e refl

  map_counted :
      (g info n : ℕ) (bs after rest : Bytes) (es : Entries)
      → info < 28
      → parse_unsigned_integer info bs ≡ ok (n, after)
      → parse_pairs from g n empty after ≡ ok (es, rest)
      → parse_type from (suc g) map_type info bs ≡ ok (dict es, rest)
  unfolding parse_type
  map_counted g info n bs after rest es h e r =
      let definite : (info == 31) ≡ false = ground arith in rw (definite, e) (rw r refl)

  -- A dict, with a length or without.
  pub Reads-dict :
      (indefinite : Bool) (body bs : Bytes) (es : Entries)
      → Distinct empty es
      → ReadsEntries body es
      → enclosed indefinite 5 (count_entries es) body ≡ some bs
      → Reads from bs (dict es)
  unfolding enclosed
  Reads-dict true body bs es d all h =
      subst (λ b. Reads from b (dict es)) {x = get_initial_byte 5 31 ∷ body ++ 0xff ∷ []}
        (ground arith) whole
    where
      whole : Reads from (get_initial_byte 5 31 ∷ body ++ 0xff ∷ []) (dict es)
      whole = two_calls _ _ (omega arith) λ g fuel rest. rw (append_assoc body (0xff ∷ []) rest) (
          parse-initial from (suc g) 5 31 map_type (body ++ 0xff ∷ rest) (omega arith) (omega arith)
            (unfold major_of in refl)
          ∙ map_until g (body ++ 0xff ∷ rest) rest es
              (all.until empty d g (omega (arith, length-append body (0xff ∷ []))) rest))
  Reads-dict false body bs es d all h =
      let (start, e, same) = enclosed_start 5 (count_entries es) body bs h in
      let first = head-IsHead 5 (count_entries es) start e in
      subst (λ b. Reads from b (dict es)) same
        (Reads-head from 5 (count_entries es) map_type start body (dict es) (omega arith)
          (unfold major_of in refl) first
          λ info g after rest small fuel r.
            map_counted g info (count_entries es) after (body ++ rest) rest es small r (
              all.counted empty d g
                (omega
                  (arith, length-append start body, length-start 5 (count_entries es) start first))
                rest))
