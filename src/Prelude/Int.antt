-- ===== src/Prelude/Int.antt =====
-- Python's integers where a value may be negative: `negsuc n` is -(n + 1).
use Prim.Native.Nat.{ℕ, max}

pub data ℤ : Type 0 where
  pos : ℕ → ℤ
  negsuc : ℕ → ℤ

-- `max(n, z)`
abbrev pub max_ℕ : ℕ → ℤ → ℕ
max_ℕ n (pos m) = max n m
max_ℕ n (negsuc m) = n
