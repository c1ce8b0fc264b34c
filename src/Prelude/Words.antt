-- ===== src/Prelude/Words.antt =====
-- The 64-bit arithmetic that the program uses: saturating_add, saturating_mul, checked_add.
use Prim.Native.Nat.{ℕ, ◌+◌, ◌*◌, ◌≤◌, min}
use mathlib.Core.Path.{◌≡◌}
use mathlib.Core.Option.{Option, none, some}
use native.Mathlib.Omega.{arith}
use quic_kfs.Prelude.Tests.{leb, if◌then◌else◌}

-- u64::MAX; usize is a word of the same width.
abbrev pub u64_max : ℕ
u64_max = 18446744073709551615

abbrev pub saturating_add : ℕ → ℕ → ℕ
saturating_add a b = min (a + b) u64_max

abbrev pub saturating_mul : ℕ → ℕ → ℕ
saturating_mul a b = min (a * b) u64_max

abbrev pub checked_add : ℕ → ℕ → Option ℕ
checked_add a b = if leb (a + b) u64_max then some (a + b) else none

pub checked_add-eq-some : (a b c : ℕ) → checked_add a b ≡ some c → (c ≡ a + b) × (a + b ≤ u64_max)
checked_add-eq-some a b c h = ground arith
