-- ===== src/Base/Word.antt =====
-- uint64 arithmetic and the rounding macros of util/functions.h.
use Prim.Native.Nat.{ℕ, ◌+◌, ◌-◌, ◌*◌, ◌/◌, ◌%◌, ◌^◌, ◌≤◌, ◌<◌}
use mathlib.Core.Path.{◌≡◌}
use native.Mathlib.Omega.{arith}

abbrev pub u64_mod : ℕ
u64_mod = 2 ^ 64

abbrev pub u64 : ℕ → ℕ
u64 n = n % u64_mod

-- ROUNDUP(a, b) at b = PGSIZE; `(a) - 1` wraps at 0.
unfoldable pub round_up : ℕ → ℕ
round_up a = u64 ((u64 (a + u64_mod - 1) / 4096 + 1) * 4096)

-- ROUNDDOWN(a, b) at b = PGSIZE.
unfoldable pub round_down : ℕ → ℕ
round_down a = a / 4096 * 4096

-- For an address below the top page, ROUNDUP is the least page boundary not below it.
pub round_up_bounds :
    (a : ℕ)
    → 0 < a
    → a + 4096 ≤ u64_mod
    → (a ≤ round_up a) × (round_up a < a + 4096) × (round_up a % 4096 ≡ 0)
unfolding round_up
round_up_bounds a p h = (omega arith, omega arith, omega arith)

-- ROUNDDOWN is the greatest page boundary not above the address.
pub round_down_bounds :
    (a : ℕ) → (round_down a ≤ a) × (a < round_down a + 4096) × (round_down a % 4096 ≡ 0)
unfolding round_down
round_down_bounds a = (omega arith, omega arith, omega arith)
