-- ===== src/Prelude/Words.antt =====
-- uint64 arithmetic: the successor wraps at 2 ^ 64.
use Prim.Native.Nat.{ℕ, suc, ◌+◌, ◌%◌, ◌^◌, ◌<◌}
use mathlib.Core.Path.{◌≡◌}
use native.Mathlib.Omega.{arith}

abbrev pub u64_mod : ℕ
u64_mod = 2 ^ 64

unfoldable pub inc64 : ℕ → ℕ
inc64 n = (n + 1) % u64_mod

-- No wrap below an end that is itself a uint64.
pub inc64-eq-suc : (n e : ℕ) → n < e → e < u64_mod → inc64 n ≡ suc n
unfolding inc64
inc64-eq-suc n e h b = omega arith
