-- ===== src/Base/Multiples.antt =====
-- Multiples of a unit: the offsets at which torch views bytes in a wider type.
use Prim.Native.Nat.{ℕ, ◌+◌, ◌*◌, ◌/◌, ◌%◌}
use mathlib.Core.Path.{◌≡◌, ap, ◌∙◌}
use native.Mathlib.Omega.{arith}
use native.Mathlib.Nat.{div-add-mod, mul-mod_right, zero-mod, add-mod}

pub zero_multiple : (u : ℕ) → 0 % u ≡ 0
zero_multiple u = zero-mod u

pub add-multiple : (x y u : ℕ) → x % u ≡ 0 → y % u ≡ 0 → (x + y) % u ≡ 0
add-multiple x y u p q =
    add-mod x y u ∙ ap (λ n. (n + y % u) % u) p ∙ ap (λ n. (0 + n) % u) q ∙ zero-mod u

pub mul-multiple : (s b u : ℕ) → b % u ≡ 0 → (s * b) % u ≡ 0
mul-multiple s b u p =
    ap (λ n. n % u) (grind (arith, div-add-mod b u, p)) ∙ mul-mod_right u (s * (b / u))

-- A multiple of a multiple.
pub trans_multiple : (x u i : ℕ) → x % u ≡ 0 → u % i ≡ 0 → x % i ≡ 0
trans_multiple x u i p q =
    ap (λ n. n % i) (grind (arith, div-add-mod x u, p)) ∙ mul-multiple (x / u) u i q

pub slot_multiple : (s b o u i : ℕ) → b % u ≡ 0 → o % u ≡ 0 → u % i ≡ 0 → (s * b + o) % i ≡ 0
slot_multiple s b o u i p q r =
    trans_multiple (s * b + o) u i (add-multiple (s * b) o u (mul-multiple s b u p) q) r
