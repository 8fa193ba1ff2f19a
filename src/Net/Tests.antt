-- ===== src/Net/Tests.antt =====
-- Runs on port ranges, and their theorems at concrete inputs.
use localstack_bb.Base.{
  any, ℕ, ◌≡◌, refl, Bool, true, false, not, none, some, [], ◌∷◌, arith, ◌==◌, ◌≢◌,
}
use localstack_bb.Base.Result.{ok, err}
use localstack_bb.Net.{
  Port, number, wrap, not_available, value_error, PortRange, size, as_range, in_range, subrange,
  port_can_be_bound, is_port_reserved, stored, set_expiry, mark_reserved, try_reserve_port,
  otherwise, reserve_first, reserve_port, dynamic_port_range, get_free_udp_port, get_free_tcp_port,
  is_port_range_free, mark_all, and_then, found, find_range, get_free_tcp_port_range,
}
use localstack_bb.Net.Cache.{cached_in, without, expiring, expiring-IsPortCache, Expiries}
use localstack_bb.Net.Reserving.{
  IsReservation, find_free, outcome, reserve_port-find_free, reserve_port-IsReservation,
}
use localstack_bb.Net.Expiry.{reserve_port_twice}
use localstack_bb.Net.Finds.{range_from, get_free_tcp_port_range-finds}
use localstack_bb.Net.Ranges.{IsFound, get_free_tcp_port_range-IsFound}

-- Every port can be bound but 5000.
abbrev binds : Port → Bool
binds p = not (p.port == 5000)

abbrev ports : PortRange
ports = record { start = 5000; end = 5003 }

abbrev tcp : ℕ → Port
tcp n = record { port = n; protocol = "tcp" }

first_run : reserve_port expiring binds 1 ports none none [] ≡ (ok 5001, (tcp 5001, 7) ∷ [])
unfolding reserve_port reserve_first otherwise try_reserve_port mark_reserved in_range
    is_port_reserved stored as_range size wrap expiring cached_in without
first_run = refl

second_run :
    reserve_port expiring binds 5 ports none (some 60) ((tcp 5001, 7) ∷ [])
    ≡ (ok 5002, (tcp 5002, 65) ∷ (tcp 5001, 7) ∷ [])
unfolding reserve_port reserve_first otherwise try_reserve_port mark_reserved in_range
    is_port_reserved stored set_expiry as_range size wrap expiring cached_in without
second_run = refl

-- After 6 seconds the port of the first run is given again.
expired_run : (reserve_port expiring binds 7 ports none (some 60) ((tcp 5001, 7) ∷ [])).0 ≡ ok 5001
unfolding reserve_port reserve_first otherwise try_reserve_port mark_reserved in_range
    is_port_reserved stored set_expiry as_range size wrap expiring cached_in without
expired_run = refl

-- A port outside the range is not available, and one that is in use neither.
refused :
    (reserve_port expiring binds 1 ports (some (number 5004)) none [] ≡ (err not_available, []))
    × (reserve_port expiring binds 1 ports (some (number 5000)) none [] ≡ (err not_available, []))
    × (subrange (some 4999) none ports ≡ err value_error)
unfolding reserve_port try_reserve_port mark_reserved in_range is_port_reserved wrap expiring
    cached_in subrange
refused = (refl, refl, refl)

-- The number after the last port is in the dynamic range.
not_a_port : in_range 65536 dynamic_port_range ≡ true
unfolding in_range
not_a_port = refl

udp_run : get_free_udp_port (7 ∷ []) (7 ∷ 9 ∷ []) ≡ some 9
unfolding get_free_udp_port
udp_run = refl

sctp_refused : port_can_be_bound binds (record { port = 1; protocol = "sctp" }) ≡ false
unfolding port_can_be_bound
sctp_refused = refl

reserve_port-IsReservation_example :
    ((wrap (number 5001)).port ≡ 5001)
    × IsReservation expiring binds 1 ports (wrap (number 5001)) [] ((tcp 5001, 7) ∷ [])
unfolding wrap
reserve_port-IsReservation_example =
    reserve_port-IsReservation expiring (λ now c. 1_000_000) expiring-IsPortCache binds 1 ports none
      none 5001 [] ((tcp 5001, 7) ∷ []) first_run

reserve_port-find_free_example :
    reserve_port expiring binds 1 ports none none []
    ≡ outcome expiring binds 1 (find_free expiring binds 1 (as_range ports) []) none []
reserve_port-find_free_example =
    reserve_port-find_free expiring (λ now c. 1_000_000) expiring-IsPortCache binds 1 ports none []

reserve_port_twice_example : tcp 5001 ≢ tcp 5002
unfolding wrap
reserve_port_twice_example =
    reserve_port_twice expiring (λ now c. 1_000_000) expiring-IsPortCache binds binds 1 5 ports
      ports none none none (some 60) 5001 5002 [] ((tcp 5001, 7) ∷ [])
      ((tcp 5002, 65) ∷ (tcp 5001, 7) ∷ []) (omega arith) (omega arith) first_run second_run

whole_subrange : subrange none none ports ≡ ok ports
unfolding subrange
whole_subrange = refl

abbrev pair : PortRange
pair = record { start = 40000; end = 40001 }

abbrev both_reserved : Expiries
both_reserved = (tcp 40001, 7) ∷ (tcp 40000, 7) ∷ []

-- The first range has a port that is in use.
range_run :
    get_free_tcp_port_range expiring 1 binds 2 (4999 ∷ 40000 ∷ []) [] ≡ (ok pair, both_reserved)
unfolding get_free_tcp_port_range find_range mark_all and_then found mark_reserved in_range
    is_port_range_free is_port_reserved stored as_range size wrap expiring cached_in without
range_run = refl

get_free_tcp_port_range-IsFound_example : IsFound expiring 1 binds 2 pair [] both_reserved
get_free_tcp_port_range-IsFound_example =
    get_free_tcp_port_range-IsFound expiring (λ now c. 1_000_000) expiring-IsPortCache 1 binds 2
      (4999 ∷ 40000 ∷ []) pair [] both_reserved (omega arith) range_run

second_free :
    any
      (λ start. is_port_range_free expiring 1 binds (as_range (range_from 2 start)) both_reserved)
      (40000 ∷ 40002 ∷ [])
    ≡ true
unfolding is_port_range_free is_port_reserved as_range size wrap expiring cached_in
second_free = refl

get_free_tcp_port_range-finds_example :
    (r : PortRange) × (c' : Expiries) × (get_free_tcp_port_range expiring 1 binds 2
        (40000 ∷ 40002 ∷ [])
        both_reserved
      ≡ (ok r, c'))
get_free_tcp_port_range-finds_example =
    get_free_tcp_port_range-finds expiring 1 binds 2 (40000 ∷ 40002 ∷ []) both_reserved
      (omega arith) ((omega arith, omega arith), ((omega arith, omega arith), tt)) second_free

tcp_run : get_free_tcp_port expiring 1 (40000 ∷ []) (40000 ∷ 80 ∷ []) [] ≡ (some 80, [])
unfolding get_free_tcp_port is_port_reserved mark_reserved in_range wrap expiring cached_in
tcp_run = refl
