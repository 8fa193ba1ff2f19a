-- ===== src/Net.antt =====
-- Ports and port ranges of localstack-core/localstack/utils/net.py. The cache of reserved ports is
-- that of the cachetools library, an interface, with the set_expiry of
-- localstack-core/localstack/utils/collections.py. Which ports can be bound, and which
-- the system or the random numbers offer, are parameters; the clock stands still during a call.
pub mod Cache
pub mod Reserving
pub mod Ranges
pub mod Finds
pub mod Expiry
mod Tests
use localstack_bb.Base.{
  ℕ, zero, suc, ◌+◌, ◌-◌, String, Bool, true, false, ◌&&◌, ◌||◌, not, Option, none, some, List, [],
  ◌∷◌, leb, ltb, ◌==◌, str_eq, if◌then◌else◌, any,
}
use localstack_bb.Base.Result.{Result, ok, err}

pub record Port : Type 0 where
  pub port : ℕ
  pub protocol : String

pub data IntOrPort : Type 0 where
  number : ℕ → IntOrPort
  whole : Port → IntOrPort

unfoldable pub wrap : IntOrPort → Port
wrap (number n) = record { port = n; protocol = "tcp" }
wrap (whole p) = p

-- What the ranges ask of the cache of cachetools: `cache.get(port) is not None` and `cache[port] = …`,
-- at a time, and the assignment to the expiry time of a port that is there.
pub record PortCache (C : Type 0) : Type 0 where
  pub is_cached : ℕ → Port → C → Bool
  pub store : ℕ → Port → C → C
  pub set_expires : Port → ℕ → C → C

-- `DEFAULT_PORT_RESERVED_SECONDS`, with which the cache is made.
abbrev pub default_port_reserved_seconds : ℕ
default_port_reserved_seconds = 6

-- `CustomExpiryTTLCache.set_expiry`: the new expiry time, and the cache.
unfoldable pub set_expiry : {C : Type 0} → PortCache C → ℕ → Port → ℕ → C → ℕ × C
set_expiry cache now p ttl c = let expiry = now + ttl in (expiry, cache.set_expires p expiry c)

pub data PortError : Type 0 where
  not_available value_error : PortError

-- A range with both ends. Its cache is passed along, since a subrange shares it.
pub record PortRange : Type 0 where
  pub start : ℕ
  pub end : ℕ

-- `len(port_range)`, which the code takes of ranges that are not empty.
unfoldable pub size : PortRange → ℕ
size r = r.end + 1 - r.start

abbrev pub numbers_from : ℕ → ℕ → List ℕ
numbers_from zero n = []
numbers_from (suc k) n = n ∷ numbers_from k (suc n)

unfoldable pub as_range : PortRange → List ℕ
as_range r = numbers_from (size r) r.start

unfoldable pub in_range : ℕ → PortRange → Bool
in_range n r = leb r.start n && leb n r.end

abbrev pub or_else : Option ℕ → ℕ → ℕ
or_else none n = n
or_else (some m) n = m

unfoldable pub subrange : Option ℕ → Option ℕ → PortRange → Result PortError PortRange
subrange start end r =
    let first = or_else start r.start in
    let last = or_else end r.end in
    if ltb first r.start
    then err value_error
    else if ltb r.end last
    then err value_error
    else ok (record { start = first; end = last })

-- The ports that can be bound for the moment: the unsupported protocols cannot.
unfoldable pub port_can_be_bound : (Port → Bool) → Port → Bool
port_can_be_bound binds p = (str_eq p.protocol "tcp" || str_eq p.protocol "udp") && binds p

module _ {C : Type 0} (cache : PortCache C) (now : ℕ) where
  unfoldable pub is_port_reserved : IntOrPort → C → Bool
  is_port_reserved p c = cache.is_cached now (wrap p) c

  -- The port is stored with the default expiry; a duration that is not 0 replaces that.
  unfoldable pub stored : Port → Option ℕ → C → C
  stored p none c = cache.store now p c
  stored p (some d) c =
      let c' = cache.store now p c in if d == 0 then c' else (set_expiry cache now p d c').1

  unfoldable pub mark_reserved :
      PortRange → IntOrPort → Option ℕ → C → Result PortError (Unit {0}) × C
  mark_reserved r p duration c =
      if in_range (wrap p).port r then (ok tt, stored (wrap p) duration c) else (err value_error, c)

-- `except PortNotAvailableException: pass`
unfoldable pub otherwise :
    {C : Type 0} → Result PortError ℕ × C → (C → Result PortError ℕ × C) → Result PortError ℕ × C
otherwise (ok m, c) next = (ok m, c)
otherwise (err not_available, c) next = next c
otherwise (err value_error, c) next = (err value_error, c)

module _ {C : Type 0} (cache : PortCache C) (can_be_bound : Port → Bool) (now : ℕ) where
  unfoldable pub try_reserve_port : PortRange → IntOrPort → Option ℕ → C → Result PortError ℕ × C
  try_reserve_port r p duration c =
      if is_port_reserved cache now p c
      then (err not_available, c)
      else if not (can_be_bound (wrap p))
      then (err not_available, c)
      else (let (marked, c') = mark_reserved cache now r p duration c in
          (elim marked [ err e ↦ err e | ok _ ↦ ok (wrap p).port ], c'))

  -- The loop over the ports of the range.
  unfoldable pub reserve_first : PortRange → List ℕ → Option ℕ → C → Result PortError ℕ × C
  reserve_first r [] duration c = (err not_available, c)
  reserve_first r (n ∷ ns) duration c =
      otherwise (try_reserve_port r (number n) duration c) (λ c'. reserve_first r ns duration c')

  unfoldable pub reserve_port : PortRange → Option IntOrPort → Option ℕ → C → Result PortError ℕ × C
  reserve_port r none duration c = reserve_first r (as_range r) duration c
  reserve_port r (some p) duration c =
      if in_range (wrap p).port r then try_reserve_port r p duration c else (err not_available, c)

abbrev pub dynamic_port_range : PortRange
dynamic_port_range = record { start = 32768; end = 65536 }

abbrev pub is_blocked : ℕ → List ℕ → Bool
is_blocked n ns = any (λ m. n == m) ns

-- The ports that the system assigns, one for each of the attempts; an Exception when none is left.
unfoldable pub get_free_udp_port : List ℕ → List ℕ → Option ℕ
get_free_udp_port blocklist [] = none
get_free_udp_port blocklist (n ∷ ns) =
    let rest = get_free_udp_port blocklist ns in if is_blocked n blocklist then rest else some n

module _ {C : Type 0} where
  unfoldable pub and_then :
      Result PortError (Unit {0}) × C
      → (C → Result PortError (Unit {0}) × C)
      → Result PortError (Unit {0}) × C
  and_then (ok _, c) next = next c
  and_then (err e, c) next = (err e, c)

  unfoldable pub found :
      PortRange → Result PortError (Unit {0}) × C → Result PortError PortRange × C
  found r (ok _, c) = (ok r, c)
  found r (err e, c) = (err e, c)

module _ {C : Type 0} (cache : PortCache C) (now : ℕ) where
  -- An assigned port outside the dynamic range is returned without a reservation.
  unfoldable pub get_free_tcp_port : List ℕ → List ℕ → C → Option ℕ × C
  get_free_tcp_port blocklist [] c = (none, c)
  get_free_tcp_port blocklist (n ∷ ns) c =
      let rest = get_free_tcp_port blocklist ns c in
      if not (is_blocked n blocklist) && not (is_port_reserved cache now (number n) c)
      then (some n, (mark_reserved cache now dynamic_port_range (number n) none c).1)
      else rest

  unfoldable pub is_port_range_free : (Port → Bool) → List ℕ → C → Bool
  is_port_range_free can_be_bound [] c = true
  is_port_range_free can_be_bound (n ∷ ns) c =
      let rest = is_port_range_free can_be_bound ns c in
      if is_port_reserved cache now (number n) c || not (can_be_bound (wrap (number n)))
      then false
      else rest

  unfoldable pub mark_all : List ℕ → C → Result PortError (Unit {0}) × C
  mark_all [] c = (ok tt, c)
  mark_all (n ∷ ns) c =
      and_then (mark_reserved cache now dynamic_port_range (number n) none c) (λ c'. mark_all ns c')

  -- A start for each attempt, from the random numbers, and the range that was found.
  unfoldable pub find_range : (Port → Bool) → ℕ → List ℕ → C → Result PortError PortRange × C
  find_range can_be_bound n [] c = (err not_available, c)
  find_range can_be_bound n (start ∷ starts) c =
      let r : PortRange = record { start = start; end = start + n - 1 } in
      let rest = find_range can_be_bound n starts c in
      if is_port_range_free can_be_bound (as_range r) c
      then found r (mark_all (as_range r) c)
      else rest

  unfoldable pub get_free_tcp_port_range :
      (Port → Bool) → ℕ → List ℕ → C → Result PortError PortRange × C
  get_free_tcp_port_range can_be_bound n starts c =
      if ltb n 2 then (err value_error, c) else find_range can_be_bound n starts c
