-- ===== src/Net/Cache.antt =====
-- What localstack-core/localstack/utils/net.py relies on of the cache of reserved ports, and a cache
-- of which it holds.
use localstack_bb.Base.{
  ℕ, suc, ◌+◌, ◌≤◌, ◌<◌, ◌≡◌, refl, Bool, true, false, ◌&&◌, ◌||◌, List, [], ◌∷◌, arith, ltb, ◌==◌,
  str_eq, str_eq_self, eq_iff, Bool-cases, inl, inr, if◌then◌else◌,
}
use localstack_bb.Net.{Port, PortCache, default_port_reserved_seconds}

-- The documented behaviour: a port is cached from when it was stored until the default time has
-- passed, or until the expiry time that it was given while it was cached; an expiry time in the
-- future drops no port, and no other is dropped as long as the cache has room. `room` counts the ports
-- that can still be stored.
pub record IsPortCache {C : Type 0} (cache : PortCache C) (room : ℕ → C → ℕ) : Type 0 where
  pub cached-store :
      (now later : ℕ) (p : Port) (c : C)
      → now ≤ later
      → later < now + default_port_reserved_seconds
      → cache.is_cached later p (cache.store now p c) ≡ true
  pub cached-set_expires :
      (now later : ℕ) (p : Port) (expiry : ℕ) (c : C)
      → cache.is_cached now p c ≡ true
      → now ≤ later
      → later < expiry
      → cache.is_cached later p (cache.set_expires p expiry c) ≡ true
  pub set_expires_keeps :
      (now : ℕ) (p q : Port) (expiry : ℕ) (c : C)
      → now < expiry
      → cache.is_cached now q c ≡ true
      → cache.is_cached now q (cache.set_expires p expiry c) ≡ true
  pub store_keeps :
      (now : ℕ) (p q : Port) (c : C)
      → 0 < room now c
      → cache.is_cached now q c ≡ true
      → cache.is_cached now q (cache.store now p c) ≡ true
  pub room-store : (now : ℕ) (p : Port) (c : C) → room now c ≤ suc (room now (cache.store now p c))

-- A cache that never fills up: the ports with their expiries.
abbrev pub Expiries : Type 0
Expiries = List (Port × ℕ)

abbrev pub same_port : Port → Port → Bool
same_port p q = p.port == q.port && str_eq p.protocol q.protocol

unfoldable pub cached_in : ℕ → Port → Expiries → Bool
cached_in now p [] = false
cached_in now p ((q, t) ∷ c) = (same_port p q && ltb now t) || cached_in now p c

unfoldable pub without : Port → Expiries → Expiries
without p [] = []
without p ((q, t) ∷ c) = let rest = without p c in if same_port p q then rest else (q, t) ∷ rest

cached_in-without :
    (now : ℕ) (p q : Port) (c : Expiries)
    → same_port p q ≡ false
    → cached_in now q (without p c) ≡ cached_in now q c
unfolding cached_in without
cached_in-without now p q [] h = refl
cached_in-without now p q ((r, t) ∷ c) h = elim (Bool-cases (same_port p r)) [
  | inl e ↦ rw e (
      ground (
        arith,
        eq_iff p.protocol r.protocol,
        eq_iff q.protocol r.protocol,
        eq_iff p.protocol q.protocol,
        cached_in-without now p q c,
      ))
  | inr e ↦ rw e (ground (arith, cached_in-without now p q c))
]

unfoldable pub expiring : PortCache Expiries
unfolding cached_in without
expiring = record {
  is_cached = cached_in;
  store = λ now p c. (p, now + 6) ∷ without p c;
  set_expires = λ p t c. (p, t) ∷ without p c;
}

added :
    (now t : ℕ) (p q : Port) (c : Expiries)
    → now < t
    → cached_in now q c ≡ true
    → cached_in now q ((p, t) ∷ without p c) ≡ true
unfolding cached_in
added now t p q c h e = elim (Bool-cases (same_port p q)) [
  | inl s ↦ ground (arith, eq_iff p.protocol q.protocol, eq_iff q.protocol p.protocol)
  | inr s ↦ ground (arith, cached_in-without now p q c s)
]

pub expiring-IsPortCache : IsPortCache expiring (λ now c. 1_000_000)
unfolding expiring cached_in
expiring-IsPortCache = record {
  cached-store = λ now later p c l h. ground (arith, str_eq_self p.protocol);
  cached-set_expires = λ now later p t c e l h. ground (arith, str_eq_self p.protocol);
  set_expires_keeps = λ now p q t c h e. added now t p q c h e;
  store_keeps = λ now p q c h e. added now (now + 6) p q c (omega arith) e;
  room-store = λ now p c. omega arith;
}
