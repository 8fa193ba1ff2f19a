-- ===== src/Net/Finds.antt =====
-- When get_free_tcp_port_range of localstack-core/localstack/utils/net.py finds a range.
use localstack_bb.Base.{
  ℕ, zero, suc, ◌+◌, ◌-◌, ◌≤◌, ◌≡◌, refl, ap, ◌∙◌, Bool, true, false, none, List, [], ◌∷◌, arith,
  ltb, any, All, Bool-cases, inl, inr,
}
use localstack_bb.Base.Result.{ok}
use localstack_bb.Net.{
  Port, number, wrap, PortCache, PortRange, size, numbers_from, as_range, in_range, stored,
  mark_reserved, dynamic_port_range, and_then, found, is_port_range_free, mark_all, find_range,
  get_free_tcp_port_range,
}

-- The range of `n` ports from `start` on.
abbrev pub range_from : ℕ → ℕ → PortRange
range_from n start = record { start = start; end = start + n - 1 }

-- A start that `random.randint` may draw for `n` ports.
abbrev pub IsStart : ℕ → ℕ → Type 0
IsStart n start = (32768 ≤ start) × (start + n + 1 ≤ 65536)

module _ {C : Type 0} (cache : PortCache C) (now : ℕ) where
  mark_all_step :
      (n : ℕ) (ns : List ℕ) (c : C)
      → in_range n dynamic_port_range ≡ true
      → mark_all cache now (n ∷ ns) c
        ≡ mark_all cache now ns (stored cache now (wrap (number n)) none c)
  mark_all_step n ns c h =
      let value : mark_reserved cache now dynamic_port_range (number n) none c
          ≡ (ok tt, stored cache now (wrap (number n)) none c) =
        unfold mark_reserved wrap in rw h refl in
      unfold mark_all in
      (ap (λ x. and_then x (λ c'. mark_all cache now ns c')) value ∙ (unfold and_then in refl))

  mark_all-marks :
      (k n : ℕ) (c : C)
      → 32768 ≤ n
      → n + k ≤ 65537
      → (c' : C) × (mark_all cache now (numbers_from k n) c ≡ (ok tt, c'))
  mark_all-marks zero n c l h = (c, unfold mark_all in refl)
  mark_all-marks (suc k) n c l h =
      let (c', e) =
        mark_all-marks k (suc n) (stored cache now (wrap (number n)) none c) (omega arith)
          (omega arith) in
      (c', mark_all_step n (numbers_from k (suc n)) c (unfold in_range in ground arith) ∙ e)

  mark_all-range :
      (n start : ℕ) (c : C)
      → IsStart n start
      → 2 ≤ n
      → (c' : C) × (mark_all cache now (as_range (range_from n start)) c ≡ (ok tt, c'))
  unfolding as_range size
  mark_all-range n start c (l, h) two = mark_all-marks _ start c l (omega arith)

  find_range-finds :
      (binds : Port → Bool) (n : ℕ) (starts : List ℕ) (c : C)
      → 2 ≤ n
      → All (IsStart n) starts
      → any (λ start. is_port_range_free cache now binds (as_range (range_from n start)) c) starts
        ≡ true
      → (r : PortRange) × (c' : C) × (find_range cache now binds n starts c ≡ (ok r, c'))
  unfolding find_range
  find_range-finds binds n [] c two inside h = absurd (ground arith)
  find_range-finds binds n (start ∷ starts) c two (here, inside) h =
      elim (Bool-cases (is_port_range_free cache now binds (as_range (range_from n start)) c)) [
        | inl f ↦
            let (c', e) = mark_all-range n start c here two in
            (
              range_from n start,
              c',
              rw f (ap (found (range_from n start)) e ∙ (unfold found in refl)),
            )
        | inr f ↦
            let (r, c', e) = find_range-finds binds n starts c two inside (ground arith) in
            (r, c', rw f e)
      ]

  -- If each start that is tried may be drawn for that number of ports, at least two, and from one of
  -- them on the ports are free, then a range is found.
  pub get_free_tcp_port_range-finds :
      (binds : Port → Bool) (n : ℕ) (starts : List ℕ) (c : C)
      → 2 ≤ n
      → All (IsStart n) starts
      → any (λ start. is_port_range_free cache now binds (as_range (range_from n start)) c) starts
        ≡ true
      → (r : PortRange) × (c' : C) × (get_free_tcp_port_range cache now binds n starts c
          ≡ (ok r, c'))
  unfolding get_free_tcp_port_range
  get_free_tcp_port_range-finds binds n starts c two inside h =
      let few : ltb n 2 ≡ false = ground arith in
      let (r, c', e) = find_range-finds binds n starts c two inside h in (r, c', rw few e)
