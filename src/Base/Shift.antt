-- ===== src/Base/Shift.antt =====
-- Python's `>>` on numbers of zero or more, and the powers of two.
use native.Mathlib.Nat.{
  pow-suc, div-div-eq-div-mul, zero-add, suc-add, le_refl, le-div_iff_mul-le, div-mul-le_self,
  le_trans,
}
use mathlib.Core.Path.{◌≡◌, sym, subst}
use Prim.Native.Nat.{ℕ, zero, suc, ◌+◌, ◌-◌, ◌/◌, ◌^◌, ◌≤◌, ◌<◌}
use native.Mathlib.Omega.{arith}

-- `a >> k`
abbrev pub shr : ℕ → ℕ → ℕ
shr a k = a / 2 ^ k

-- One halving.
pub shr-suc : (a k : ℕ) → shr a (suc k) ≡ shr a k / 2
shr-suc a k = rw (pow-suc 2 k) (sym (div-div-eq-div-mul a (2 ^ k) 2))

shr-add : (a i d : ℕ) → shr a (d + i) ≤ shr a i
shr-add a i zero = rw zero-add (le_refl (shr a i))
shr-add a i (suc d) = rw (suc-add d i, shr-suc a (d + i)) (omega (arith, shr-add a i d))

pub shr_antitone : (a i j : ℕ) → i ≤ j → shr a j ≤ shr a i
shr_antitone a i j h =
    let e : j ≡ (j - i) + i = omega arith in
    subst (λ t. shr a t ≤ shr a i) (sym e) (shr-add a i (j - i))

pow-add : (i d : ℕ) → 2 ^ i ≤ 2 ^ (d + i)
pow-add i zero = rw zero-add (le_refl (2 ^ i))
pow-add i (suc d) = rw (suc-add d i, pow-suc 2 (d + i)) (omega (arith, pow-add i d))

pub pow_mono : (i j : ℕ) → i ≤ j → 2 ^ i ≤ 2 ^ j
pow_mono i j h =
    let e : j ≡ (j - i) + i = omega arith in subst (λ t. 2 ^ i ≤ 2 ^ t) (sym e) (pow-add i (j - i))

-- Division by a positive number keeps an order.
pub div_mono : (a b n : ℕ) → 0 < n → a ≤ b → a / n ≤ b / n
div_mono a b n h le = (le-div_iff_mul-le h).1 (le_trans (div-mul-le_self a n) le)
