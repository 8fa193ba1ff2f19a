-- ===== src/Net/Expiry.antt =====
-- Reservations at different times (localstack-core/localstack/utils/net.py).
use localstack_bb.Base.{
  ℕ, ◌+◌, ◌≤◌, ◌<◌, ◌≡◌, ◌≢◌, sym, ap, ◌∙◌, subst, Bool, true, Option, none, some, arith,
  Bool-cases, inl, inr,
}
use localstack_bb.Base.Result.{ok}
use localstack_bb.Net.{
  Port, IntOrPort, number, whole, wrap, PortCache, PortRange, as_range, in_range, is_port_reserved,
  stored, reserve_port,
}
use localstack_bb.Net.Cache.{IsPortCache}
use localstack_bb.Net.Reserving.{
  reserved_port, lifetime, find_free, outcome, is_free, is_port_reserved-stored_later, try_free,
  try_taken, reserve_port-find_free, reserve_port-IsReservation,
}

module _ {C : Type 0} (cache : PortCache C) (room : ℕ → C → ℕ) (laws : IsPortCache cache room) where
  outcome-stored :
      (can_be_bound : Port → Bool) (now : ℕ) (o : Option ℕ) (duration : Option ℕ) (n : ℕ) (c c' : C)
      → outcome cache can_be_bound now o duration c ≡ (ok n, c')
      → c' ≡ stored cache now (wrap (number n)) duration c
  outcome-stored binds now none duration n c c' h = absurd (ground arith)
  outcome-stored binds now (some m) duration n c c' h =
      let same : m ≡ n = ground arith in
      let after : stored cache now (wrap (number m)) duration c ≡ c' = ground arith in
      subst (λ x. c' ≡ stored cache now (wrap (number x)) duration c) same (sym after)

  -- A reservation does no more to the cache than to store its port.
  reserve_port-stored :
      (can_be_bound : Port → Bool) (now : ℕ) (r : PortRange) (p : Option IntOrPort)
      (duration : Option ℕ) (n : ℕ) (c c' : C)
      → reserve_port cache can_be_bound now r p duration c ≡ (ok n, c')
      → c' ≡ stored cache now (reserved_port p n) duration c
  reserve_port-stored binds now r none duration n c c' h =
      outcome-stored binds now (find_free cache binds now (as_range r) c) duration n c c'
        (sym (reserve_port-find_free cache room laws binds now r duration c) ∙ h)
  reserve_port-stored binds now r (some p) duration n c c' h =
      elim (Bool-cases (in_range (wrap p).port r)) [
        | inr e ↦ absurd (unfold reserve_port in ground arith)
        | inl e ↦ elim (Bool-cases (is_free cache binds now (wrap p) c)) [
          | inl f ↦
              let t = try_free cache room laws binds now r p duration c e f in
              unfold reserve_port in ground arith
          | inr f ↦
              let t = try_taken cache room laws binds now r p duration c f in
              absurd (unfold reserve_port in ground arith)
        ]
      ]

  -- Of two reservations one after the other, through ranges that share the cache, the second never
  -- gives the port of the first again, the same number and protocol, as long as the first holds: for
  -- its duration, or 6 seconds where it has none.
  pub reserve_port_twice :
      (binds binds' : Port → Bool) (now later : ℕ) (r s : PortRange) (p q : Option IntOrPort)
      (d e : Option ℕ) (m n : ℕ) (c c' c'' : C)
      → now ≤ later
      → later < now + lifetime d
      → reserve_port cache binds now r p d c ≡ (ok m, c')
      → reserve_port cache binds' later s q e c' ≡ (ok n, c'')
      → reserved_port p m ≢ reserved_port q n
  reserve_port_twice binds binds' now later r s p q d e m n c c' c'' l lt h k same =
      let (_, second) = reserve_port-IsReservation cache room laws binds' later s q e n c' c'' k in
      let held : is_port_reserved cache later (whole (reserved_port p m)) c' ≡ true =
        subst (λ x. is_port_reserved cache later (whole (reserved_port p m)) x ≡ true)
          (sym (reserve_port-stored binds now r p d m c c' h))
          (is_port_reserved-stored_later cache room laws binds now later (reserved_port p m) d c l
            lt) in
      cc (held, second.was_free, ap (λ x. is_port_reserved cache later (whole x) c') same)
