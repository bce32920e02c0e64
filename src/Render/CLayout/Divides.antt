-- ===== src/Render/CLayout/Divides.antt =====
-- Rounding up to an alignment and divisibility of powers of two, for the layout of a struct.

use native.Mathlib.Nat.{div-add-mod', mod-lt, mul_assoc, mul_left_comm}
use lightpanda_browser.Prelude.{
  ℕ, zero, suc, ◌+◌, ◌-◌, ◌*◌, ◌/◌, ◌^◌, ◌≤◌, ◌<◌, ◌≡◌, refl, ap, sym, ◌∙◌, arith,
}
use lightpanda_browser.Render.CLayout.{round_up}

abbrev pub Divides : ℕ → ℕ → Type 0
Divides a n = (k : ℕ) × (n ≡ k * a)

pub power_pos : (k : ℕ) → 0 < 2 ^ k
power_pos zero = omega arith
power_pos (suc k) = omega (arith, power_pos k)

pub round_up-le : (n a : ℕ) → 0 < a → n ≤ round_up n a
unfolding round_up
round_up-le n a pos = omega (arith, div-add-mod' (n + (a - 1)) a, mod-lt (n + (a - 1)) pos)

pub round_up-Divides : (n a : ℕ) → Divides a (round_up n a)
unfolding round_up
round_up-Divides n a = ((n + (a - 1)) / a, refl)

pub Divides_trans : (a b c : ℕ) → Divides a b → Divides b c → Divides a c
Divides_trans a b c (j, e) (k, f) = (k * j, f ∙ ap (λ x. k * x) e ∙ sym (mul_assoc k j a))

double_Divides : (i j : ℕ) → Divides (2 ^ i) (2 ^ j) → Divides (2 ^ suc i) (2 ^ suc j)
double_Divides i j (k, e) =
    let twice : 2 ^ suc i ≡ 2 * 2 ^ i = omega arith in
    (k, omega (arith, e, ap (λ (x : ℕ). k * x) twice, mul_left_comm k 2 (2 ^ i)))

-- Of two powers of two the smaller one divides the other.
power_Divides : (i j : ℕ) → 2 ^ i ≤ 2 ^ j → Divides (2 ^ i) (2 ^ j)
power_Divides zero j le = (2 ^ j, omega arith)
power_Divides (suc i) zero le = absurd (omega (arith, power_pos i))
power_Divides (suc i) (suc j) le = double_Divides i j (power_Divides i j (omega (arith, le)))

Divides_refl : (a : ℕ) → Divides a a
Divides_refl a = (1, omega arith)

pub aligns : (a b i j : ℕ) → a ≡ 2 ^ i → b ≡ 2 ^ j → a ≤ b → Divides a b
aligns a b i j p q le = rw (p, q) (power_Divides i j (rw p at (rw q at le)))
