-- ===== src/Base/Heap.antt =====
-- A heap of objects is a function of their addresses.
use Prim.Native.Nat.{ℕ}
use localstack_bb.Base.Tests.{◌==◌, if◌then◌else◌}

abbrev pub update {ℓ} : {A : Type ℓ} → (ℕ → A) → ℕ → A → ℕ → A
update f p a q = if p == q then a else f q
