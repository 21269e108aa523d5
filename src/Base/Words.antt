-- ===== src/Base/Words.antt =====
-- Counters of 64 bits, such as `size_t`: `fetch_add` and `fetch_sub` wrap around.
use Prim.Native.Nat.{ℕ, ◌+◌, ◌-◌, ◌%◌, ◌^◌}

abbrev pub size_mod : ℕ
size_mod = 2 ^ 64

abbrev pub wrap_add : ℕ → ℕ → ℕ
wrap_add a b = (a + b) % size_mod

abbrev pub wrap_sub : ℕ → ℕ → ℕ
wrap_sub a b = (a + size_mod - b % size_mod) % size_mod
