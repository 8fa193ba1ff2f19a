-- ===== src/Net/Reserving.antt =====
-- What a reservation promises (localstack-core/localstack/utils/net.py).
use localstack_bb.Base.{
  ℕ, zero, suc, ◌+◌, ◌-◌, ◌≤◌, ◌≡◌, refl, sym, ap, ◌∙◌, subst, Bool, true, false, ◌&&◌, not, Option,
  none, some, List, [], ◌∷◌, arith, ltb, ◌==◌, if◌then◌else◌, Bool-cases, Option-cases, inl, inr,
  ◌<◌,
}
use localstack_bb.Base.Result.{Result, ok, err}
use localstack_bb.Net.{
  Port, IntOrPort, number, whole, wrap, PortCache, PortError, not_available, PortRange, size,
  numbers_from, as_range, in_range, or_else, subrange, is_port_reserved, stored, set_expiry,
  default_port_reserved_seconds, mark_reserved, otherwise, try_reserve_port, reserve_first,
  reserve_port,
}
use localstack_bb.Net.Cache.{IsPortCache}

pub subrange_within :
    (r s : PortRange) (start end : Option ℕ)
    → subrange start end r ≡ ok s
    → (r.start ≤ s.start) × (s.end ≤ r.end)
unfolding subrange
subrange_within r s start end h = elim (Bool-cases (ltb (or_else start r.start) r.start)) [
  | inl e ↦ absurd (ground arith)
  | inr e ↦ elim (Bool-cases (ltb r.end (or_else end r.end))) [
    | inl f ↦ absurd (ground arith)
    | inr f ↦ ground arith
  ]
]

-- The port that a call for `p` reserves when it returns a number.
abbrev pub reserved_port : Option IntOrPort → ℕ → Port
reserved_port none n = wrap (number n)
reserved_port (some p) n = wrap p

-- How long a reservation holds: no duration, or 0, stands for the default.
abbrev pub lifetime : Option ℕ → ℕ
lifetime none = default_port_reserved_seconds
lifetime (some d) = if d == 0 then default_port_reserved_seconds else d

lifetime_positive : (now : ℕ) (duration : Option ℕ) → now < now + lifetime duration
lifetime_positive now none = omega arith
lifetime_positive now (some d) = ground arith

module _ {C : Type 0} (cache : PortCache C) (can_be_bound : Port → Bool) (now : ℕ) where
  -- A port of the range that was free and is reserved now.
  pub record IsReservation (r : PortRange) (q : Port) (c c' : C) : Type 0 where
    pub inside : in_range q.port r ≡ true
    pub was_free : is_port_reserved cache now (whole q) c ≡ false
    pub binds : can_be_bound q ≡ true
    pub reserved : is_port_reserved cache now (whole q) c' ≡ true

  -- Whether a port can be reserved.
  abbrev pub is_free : Port → C → Bool
  is_free q c = not (is_port_reserved cache now (whole q) c) && can_be_bound q

  -- The first port of a list that is free.
  abbrev pub find_free : List ℕ → C → Option ℕ
  find_free [] c = none
  find_free (n ∷ ns) c = if is_free (wrap (number n)) c then some n else find_free ns c

  abbrev pub outcome : Option ℕ → Option ℕ → C → Result PortError ℕ × C
  outcome none duration c = (err not_available, c)
  outcome (some n) duration c = (ok n, stored cache now (wrap (number n)) duration c)

module _ {C : Type 0} (cache : PortCache C) (room : ℕ → C → ℕ) (laws : IsPortCache cache room)
    (can_be_bound : Port → Bool) (now : ℕ) where
  -- A port that was stored is reserved for its time.
  pub is_port_reserved-stored_later :
      (later : ℕ) (p : Port) (duration : Option ℕ) (c : C)
      → now ≤ later
      → later < now + lifetime duration
      → is_port_reserved cache later (whole p) (stored cache now p duration c) ≡ true
  unfolding is_port_reserved stored wrap set_expiry
  is_port_reserved-stored_later later p none c l h = laws.cached-store now later p c l h
  is_port_reserved-stored_later later p (some d) c l h = elim (Bool-cases (d == 0)) [
    | inl e ↦ rw e (laws.cached-store now later p c l (ground arith))
    | inr e ↦ rw e (
        laws.cached-set_expires now later p (now + d) (cache.store now p c)
          (laws.cached-store now now p c (omega arith) (omega arith)) l (ground arith))
  ]

  pub is_port_reserved-stored :
      (p : Port) (duration : Option ℕ) (c : C)
      → is_port_reserved cache now (whole p) (stored cache now p duration c) ≡ true
  is_port_reserved-stored p duration c =
      is_port_reserved-stored_later now p duration c (omega arith) (lifetime_positive now duration)

  pub try_free :
      (r : PortRange) (p : IntOrPort) (duration : Option ℕ) (c : C)
      → in_range (wrap p).port r ≡ true
      → is_free cache can_be_bound now (wrap p) c ≡ true
      → try_reserve_port cache can_be_bound now r p duration c
        ≡ (ok (wrap p).port, stored cache now (wrap p) duration c)
  unfolding try_reserve_port mark_reserved is_port_reserved wrap
  try_free r p duration c inside free = ground arith

  pub try_taken :
      (r : PortRange) (p : IntOrPort) (duration : Option ℕ) (c : C)
      → is_free cache can_be_bound now (wrap p) c ≡ false
      → try_reserve_port cache can_be_bound now r p duration c ≡ (err not_available, c)
  unfolding try_reserve_port mark_reserved is_port_reserved wrap
  try_taken r p duration c taken = ground arith

  try-IsReservation :
      (r : PortRange) (p : IntOrPort) (duration : Option ℕ) (n : ℕ) (c c' : C)
      → try_reserve_port cache can_be_bound now r p duration c ≡ (ok n, c')
      → ((wrap p).port ≡ n) × IsReservation cache can_be_bound now r (wrap p) c c'
  unfolding try_reserve_port mark_reserved is_port_reserved wrap
  try-IsReservation r p duration n c c' h = elim (Bool-cases (is_port_reserved cache now p c)) [
    | inl e ↦ absurd (ground arith)
    | inr e ↦ elim (Bool-cases (can_be_bound (wrap p))) [
      | inr f ↦ absurd (ground arith)
      | inl f ↦ elim (Bool-cases (in_range (wrap p).port r)) [
        | inr g ↦ absurd (ground arith)
        | inl g ↦ (
          ground arith,
          record {
            inside = g;
            was_free = e;
            binds = f;
            reserved =
                let same : stored cache now (wrap p) duration c ≡ c' = ground arith in
                subst (λ x. is_port_reserved cache now (whole (wrap p)) x ≡ true) same
                  (is_port_reserved-stored (wrap p) duration c);
          },
        )
      ]
    ]
  ]

  abbrev AllInside : PortRange → List ℕ → Type 0
  AllInside r [] = Unit
  AllInside r (n ∷ ns) = (in_range n r ≡ true) × AllInside r ns

  reserve_first-find_free :
      (r : PortRange) (ns : List ℕ) (duration : Option ℕ) (c : C)
      → AllInside r ns
      → reserve_first cache can_be_bound now r ns duration c
        ≡ outcome cache can_be_bound now (find_free cache can_be_bound now ns c) duration c
  unfolding reserve_first otherwise
  reserve_first-find_free r [] duration c inside = refl
  reserve_first-find_free r (n ∷ ns) duration c (here, inside) =
      elim (Bool-cases (is_free cache can_be_bound now (wrap (number n)) c)) [
        | inl e ↦
            rw (try_free r (number n) duration c (unfold wrap in here) e, e) (unfold wrap in refl)
        | inr e ↦
            rw (try_taken r (number n) duration c e, e)
              (reserve_first-find_free r ns duration c inside)
      ]

  range-AllInside :
      (r : PortRange) (k n : ℕ) → r.start ≤ n → k ≤ r.end + 1 - n → AllInside r (numbers_from k n)
  unfolding in_range
  range-AllInside r zero n l h = tt
  range-AllInside r (suc k) n l h =
      (ground arith, range-AllInside r k (suc n) (omega arith) (omega arith))

  -- Without a number, the range reserves the first of its ports that is neither reserved nor in use,
  -- and refuses just if there is none.
  pub reserve_port-find_free :
      (r : PortRange) (duration : Option ℕ) (c : C)
      → reserve_port cache can_be_bound now r none duration c
        ≡ outcome cache can_be_bound now
            (find_free cache can_be_bound now (as_range r) c)
            duration
            c
  unfolding reserve_port as_range size
  reserve_port-find_free r duration c =
      reserve_first-find_free r _ duration c
        (range-AllInside r _ r.start (omega arith) (omega arith))

  find_free-is_free :
      (ns : List ℕ) (n : ℕ) (c : C)
      → find_free cache can_be_bound now ns c ≡ some n
      → is_free cache can_be_bound now (wrap (number n)) c ≡ true
  find_free-is_free [] n c h = absurd (ground arith)
  find_free-is_free (m ∷ ns) n c h =
      elim (Bool-cases (is_free cache can_be_bound now (wrap (number m)) c)) [
        | inl e ↦
            let same : m ≡ n = ground arith in
            subst (λ x. is_free cache can_be_bound now (wrap (number x)) c ≡ true) same e
        | inr e ↦ find_free-is_free ns n c (rw e at h)
      ]

  find_free-inside :
      (r : PortRange) (ns : List ℕ) (n : ℕ) (c : C)
      → AllInside r ns
      → find_free cache can_be_bound now ns c ≡ some n
      → in_range n r ≡ true
  find_free-inside r [] n c inside h = absurd (ground arith)
  find_free-inside r (m ∷ ns) n c (here, inside) h =
      elim (Bool-cases (is_free cache can_be_bound now (wrap (number m)) c)) [
        | inl e ↦ let same : m ≡ n = ground arith in subst (λ x. in_range x r ≡ true) same here
        | inr e ↦ find_free-inside r ns n c inside (rw e at h)
      ]

  reserved_first :
      (r : PortRange) (m n : ℕ) (duration : Option ℕ) (c c' : C)
      → find_free cache can_be_bound now (as_range r) c ≡ some m
      → outcome cache can_be_bound now (some m) duration c ≡ (ok n, c')
      → IsReservation cache can_be_bound now r (wrap (number n)) c c'
  reserved_first r m n duration c c' e h =
      let same : m ≡ n = ground arith in
      let after : stored cache now (wrap (number m)) duration c ≡ c' = ground arith in
      let free = find_free-is_free (as_range r) m c e in
      subst (λ x. IsReservation cache can_be_bound now r (wrap (number x)) c c') same
        record {
          inside =
              unfold wrap in
              find_free-inside r (as_range r) m c
                (unfold as_range size in range-AllInside r _ r.start (omega arith) (omega arith)) e;
          was_free = ground arith;
          binds = ground arith;
          reserved =
              subst (λ x. is_port_reserved cache now (whole (wrap (number m))) x ≡ true) after
                (is_port_reserved-stored (wrap (number m)) duration c);
        }

  first-IsReservation :
      (r : PortRange) (duration : Option ℕ) (n : ℕ) (c c' : C)
      → reserve_port cache can_be_bound now r none duration c ≡ (ok n, c')
      → IsReservation cache can_be_bound now r (wrap (number n)) c c'
  first-IsReservation r duration n c c' h =
      elim (Option-cases (find_free cache can_be_bound now (as_range r) c)) [
        | inl e ↦ absurd (
            cc (
              h,
              reserve_port-find_free r duration c,
              ap (λ o. outcome cache can_be_bound now o duration c) e,
            ))
        | inr (m, e) ↦ reserved_first r m n duration c c' e (
            sym (
              reserve_port-find_free r duration c
              ∙ ap (λ o. outcome cache can_be_bound now o duration c) e)
            ∙ h)
      ]

  -- A call that returns a number has reserved a port of that number: it lies between the ends of the
  -- range, was not reserved before, can be bound, and is reserved afterwards.
  pub reserve_port-IsReservation :
      (r : PortRange) (p : Option IntOrPort) (duration : Option ℕ) (n : ℕ) (c c' : C)
      → reserve_port cache can_be_bound now r p duration c ≡ (ok n, c')
      → ((reserved_port p n).port ≡ n)
        × IsReservation cache can_be_bound now r (reserved_port p n) c c'
  unfolding reserve_port
  reserve_port-IsReservation r none duration n c c' h =
      (unfold wrap in refl, first-IsReservation r duration n c c' h)
  reserve_port-IsReservation r (some p) duration n c c' h =
      elim (Bool-cases (in_range (wrap p).port r)) [
        | inl e ↦ try-IsReservation r p duration n c c' (rw e at h)
        | inr e ↦ absurd (ground arith)
      ]

  -- What is reserved through a subrange is a port of the whole range, and reserved there.
  pub subrange-IsReservation :
      (r s : PortRange) (start end : Option ℕ) (p : Option IntOrPort) (d : Option ℕ) (n : ℕ)
      (c c' : C)
      → subrange start end r ≡ ok s
      → reserve_port cache can_be_bound now s p d c ≡ (ok n, c')
      → IsReservation cache can_be_bound now r (reserved_port p n) c c'
  unfolding subrange in_range
  subrange-IsReservation r s start end p d n c c' h k =
      let (_, done) = reserve_port-IsReservation s p d n c c' k in
      record {
        inside = ground (arith, subrange_within r s start end h, done.inside);
        was_free = done.was_free;
        binds = done.binds;
        reserved = done.reserved;
      }
