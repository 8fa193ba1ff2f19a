-- ===== src/Net/Ranges.antt =====
-- Free ports that are found by trial (localstack-core/localstack/utils/net.py).
use localstack_bb.Base.{
  ℕ, zero, suc, ◌+◌, ◌-◌, ◌≤◌, ◌<◌, ◌≡◌, refl, sym, ap, ◌∙◌, subst, Bool, true, false, none, some,
  List, [], ◌∷◌, arith, ltb, Bool-cases, inl, inr, length,
}
use localstack_bb.Base.Result.{Result, ok, err}
use localstack_bb.Net.{
  Port, number, wrap, PortCache, PortError, value_error, PortRange, size, numbers_from, as_range,
  in_range, is_port_reserved, stored, mark_reserved, dynamic_port_range, is_blocked,
  get_free_tcp_port, is_port_range_free, mark_all, and_then, found, find_range,
  get_free_tcp_port_range,
}
use localstack_bb.Net.Cache.{IsPortCache}

abbrev pub AllDynamic : List ℕ → Type 0
AllDynamic [] = Unit
AllDynamic (n ∷ ns) = (in_range n dynamic_port_range ≡ true) × AllDynamic ns

module _ {C : Type 0} (cache : PortCache C) (now : ℕ) where
  abbrev pub Reserved : ℕ → C → Type 0
  Reserved n c = is_port_reserved cache now (number n) c ≡ true

  abbrev pub AllReserved : List ℕ → C → Type 0
  AllReserved [] c = Unit
  AllReserved (n ∷ ns) c = Reserved n c × AllReserved ns c

  abbrev pub AllFree : (Port → Bool) → List ℕ → C → Type 0
  AllFree binds [] c = Unit
  AllFree binds (n ∷ ns) c =
      (is_port_reserved cache now (number n) c ≡ false)
      × (binds (wrap (number n)) ≡ true)
      × AllFree binds ns c

  -- A range that was found: so many ports, all of the dynamic range, free before and reserved now.
  pub record IsFound (binds : Port → Bool) (n : ℕ) (r : PortRange) (c c' : C) : Type 0 where
    pub length : size r ≡ n
    pub dynamic : AllDynamic (as_range r)
    pub were_free : AllFree binds (as_range r) c
    pub reserved : AllReserved (as_range r) c'

module _ {C : Type 0} (cache : PortCache C) (room : ℕ → C → ℕ) (laws : IsPortCache cache room)
    (now : ℕ) where
  is_port_range_free-AllFree :
      (binds : Port → Bool) (ns : List ℕ) (c : C)
      → is_port_range_free cache now binds ns c ≡ true
      → AllFree cache now binds ns c
  unfolding is_port_range_free
  is_port_range_free-AllFree binds [] c h = tt
  is_port_range_free-AllFree binds (n ∷ ns) c h =
      ground (arith, is_port_range_free-AllFree binds ns c)

  mark_keeps :
      (m n : ℕ) (c : C)
      → 0 < room now c
      → Reserved cache now n c
      → Reserved cache now n (stored cache now (wrap (number m)) none c)
  unfolding is_port_reserved stored
  mark_keeps m n c h r = laws.store_keeps now (wrap (number m)) (wrap (number n)) c h r

  room-stored :
      (m : ℕ) (c : C) → room now c ≤ suc (room now (stored cache now (wrap (number m)) none c))
  unfolding stored
  room-stored m c = laws.room-store now (wrap (number m)) c

  mark_all_step :
      (m : ℕ) (ns : List ℕ) (c c' : C)
      → mark_all cache now (m ∷ ns) c ≡ (ok tt, c')
      → (in_range m dynamic_port_range ≡ true)
        × (mark_all cache now ns (stored cache now (wrap (number m)) none c) ≡ (ok tt, c'))
  mark_all_step m ns c c' e = elim (Bool-cases (in_range m dynamic_port_range)) [
    | inl f ↦ (f, sym (marked f) ∙ e)
    | inr f ↦ absurd (cc (refused f, e))
  ]
    where
      first : Result PortError (Unit {0}) × C
      first = mark_reserved cache now dynamic_port_range (number m) none c

      next : C → Result PortError (Unit {0}) × C
      next x = mark_all cache now ns x

      marked :
          in_range m dynamic_port_range ≡ true
          → mark_all cache now (m ∷ ns) c
            ≡ mark_all cache now ns (stored cache now (wrap (number m)) none c)
      marked f =
          let value : first ≡ (ok tt, stored cache now (wrap (number m)) none c) =
            unfold mark_reserved wrap in rw f refl in
          unfold mark_all in (ap (λ x. and_then x next) value ∙ (unfold and_then in refl))

      refused :
          in_range m dynamic_port_range ≡ false
          → mark_all cache now (m ∷ ns) c ≡ (err value_error, c)
      refused f =
          let value : first ≡ (err value_error, c) = unfold mark_reserved wrap in rw f refl in
          unfold mark_all in (ap (λ x. and_then x next) value ∙ (unfold and_then in refl))

  mark_all_keeps :
      (ns : List ℕ) (n : ℕ) (c c' : C)
      → length ns ≤ room now c
      → mark_all cache now ns c ≡ (ok tt, c')
      → Reserved cache now n c
      → Reserved cache now n c'
  mark_all_keeps [] n c c' h e r =
      let same : c ≡ c' = unfold mark_all in ap (λ x. x.1) e in
      subst (λ x. Reserved cache now n x) same r
  mark_all_keeps (m ∷ ns) n c c' h e r =
      mark_all_keeps ns n (stored cache now (wrap (number m)) none c) c'
        (omega (arith, room-stored m c)) (mark_all_step m ns c c' e).1
        (mark_keeps m n c (omega arith) r)

  mark_all-AllReserved :
      (ns : List ℕ) (c c' : C)
      → length ns ≤ room now c
      → mark_all cache now ns c ≡ (ok tt, c')
      → AllReserved cache now ns c' × AllDynamic ns
  mark_all-AllReserved [] c c' h e = (tt, tt)
  mark_all-AllReserved (m ∷ ns) c c' h e =
      let (inside, more) = mark_all_step m ns c c' e in
      let (reserved, dynamic) =
        mark_all-AllReserved ns (stored cache now (wrap (number m)) none c) c'
          (omega (arith, room-stored m c)) more in
      (
        (
          mark_all_keeps ns m (stored cache now (wrap (number m)) none c) c'
              (omega (arith, room-stored m c)) more
              (unfold is_port_reserved stored in
                laws.cached-store now now (wrap (number m)) c (omega arith) (omega arith)),
          reserved,
        ),
        (inside, dynamic),
      )

  length-numbers_from : (k n : ℕ) → length (numbers_from k n) ≡ k
  length-numbers_from zero n = refl
  length-numbers_from (suc k) n = ap suc (length-numbers_from k (suc n))

  size-found : (n start : ℕ) → 0 < n → size (record { start = start; end = start + n - 1 }) ≡ n
  unfolding size
  size-found n start h = omega arith

  found-ok :
      (s r : PortRange) (x : Result PortError (Unit {0}) × C) (c' : C)
      → found s x ≡ (ok r, c')
      → (x ≡ (ok tt, c')) × (s ≡ r)
  unfolding found
  found-ok s r (ok _, c) c' e = ground arith
  found-ok s r (err _, c) c' e = absurd (ground arith)

  found_range :
      (binds : Port → Bool) (n : ℕ) (s r : PortRange) (c c' : C)
      → size s ≡ n
      → n ≤ room now c
      → is_port_range_free cache now binds (as_range s) c ≡ true
      → found s (mark_all cache now (as_range s) c) ≡ (ok r, c')
      → IsFound cache now binds n r c c'
  found_range binds n s r c c' pos h f e =
      let (marked, same) = found-ok s r (mark_all cache now (as_range s) c) c' e in
      let count : length (as_range s) ≤ room now c =
        unfold as_range in omega (arith, length-numbers_from (size s) s.start) in
      let (reserved, dynamic) = mark_all-AllReserved (as_range s) c c' count marked in
      subst (λ x. IsFound cache now binds n x c c') same
        record {
          length = pos;
          dynamic = dynamic;
          were_free = is_port_range_free-AllFree binds (as_range s) c f;
          reserved = reserved;
        }

  find_range-IsFound :
      (binds : Port → Bool) (n : ℕ) (starts : List ℕ) (r : PortRange) (c c' : C)
      → 0 < n
      → n ≤ room now c
      → find_range cache now binds n starts c ≡ (ok r, c')
      → IsFound cache now binds n r c c'
  unfolding find_range
  find_range-IsFound binds n [] r c c' pos h e = absurd (ground arith)
  find_range-IsFound binds n (start ∷ starts) r c c' pos h e =
      let s : PortRange = record { start = start; end = start + n - 1 } in
      elim (Bool-cases (is_port_range_free cache now binds (as_range s) c)) [
        | inl f ↦ found_range binds n s r c c' (size-found n start pos) h f (rw f at e)
        | inr f ↦ find_range-IsFound binds n starts r c c' pos h (rw f at e)
      ]

  -- A range that is found has the number of ports asked for, each of which lies in the dynamic
  -- range, was neither reserved nor in use, and is reserved afterwards: if the cache has room for
  -- them.
  pub get_free_tcp_port_range-IsFound :
      (binds : Port → Bool) (n : ℕ) (starts : List ℕ) (r : PortRange) (c c' : C)
      → n ≤ room now c
      → get_free_tcp_port_range cache now binds n starts c ≡ (ok r, c')
      → IsFound cache now binds n r c c'
  unfolding get_free_tcp_port_range
  get_free_tcp_port_range-IsFound binds n starts r c c' h e = elim (Bool-cases (ltb n 2)) [
    | inl f ↦ absurd (ground arith)
    | inr f ↦ find_range-IsFound binds n starts r c c' (ground arith) h (rw f at e)
  ]

  -- A free port that is found is not blocked and was not reserved.
  pub get_free_tcp_port-free :
      (blocklist ns : List ℕ) (n : ℕ) (c c' : C)
      → get_free_tcp_port cache now blocklist ns c ≡ (some n, c')
      → (is_blocked n blocklist ≡ false) × (is_port_reserved cache now (number n) c ≡ false)
  unfolding get_free_tcp_port
  get_free_tcp_port-free blocklist [] n c c' e = absurd (ground arith)
  get_free_tcp_port-free blocklist (m ∷ ns) n c c' e =
      ground (arith, get_free_tcp_port-free blocklist ns n c c')
