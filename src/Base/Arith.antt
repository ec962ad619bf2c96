-- ===== src/Base/Arith.antt =====
-- Equations on the native numbers that rewriting needs by name.
use Prim.Native.Nat.{ℕ, suc, ◌+◌, ◌-◌}
use mathlib.Core.Path.{◌≡◌}
use native.Mathlib.Omega.{arith}

pub minus_zero : (n : ℕ) → n ≡ n - 0
minus_zero n = omega arith

pub suc_minus : (m n : ℕ) → n - m ≡ suc n - suc m
suc_minus m n = omega arith

pub zero_add : (n : ℕ) → 0 + n ≡ n
zero_add n = omega arith

pub suc_add : (m n : ℕ) → suc m + n ≡ suc (m + n)
suc_add m n = omega arith
