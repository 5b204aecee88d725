-- ===== src/Base/Bits.antt =====
-- Masks of low bits as remainders. `bit_and` is a recursion on binary digits with fuel; one
-- equation for the lowest digit drops the fuel, and gives the law for a mask of any width.
use Prim.Native.Nat.{
  ℕ, zero, suc, ◌+◌, ◌-◌, ◌*◌, ◌/◌, ◌%◌, ◌^◌, ◌≤◌, ◌<◌, min, bit_and, digits, bit_and-bitwise,
}
use mathlib.Core.Path.{◌≡◌, refl, ap, ◌∙◌}
use native.Mathlib.Nat.{
  pow-suc, one-le-pow, div-add-mod, mul-add-mod_self_left, mod-eq_of_lt, mod-lt,
}
use native.Mathlib.Omega.{arith}

abbrev low_digits : ℕ → ℕ → ℕ → ℕ
low_digits = digits (λ _. 0) min

low_digits_fuel : (n m a b : ℕ) → a ≤ n → a ≤ m → low_digits n a b ≡ low_digits m a b
low_digits_fuel zero zero zero b p q = refl
low_digits_fuel zero (suc m) zero b p q = refl
low_digits_fuel (suc n) zero zero b p q = refl
low_digits_fuel (suc n) (suc m) zero b p q = refl
low_digits_fuel zero m (suc a) b p q = elim p [ ]
low_digits_fuel (suc n) zero (suc a) b p q = elim q [ ]
low_digits_fuel (suc n) (suc m) (suc a) b p q =
    ap (λ (t : ℕ). t * 2 + min (suc a % 2) (b % 2))
      (low_digits_fuel n m (suc a / 2) (b / 2) (omega arith) (omega arith))

bit_and-halves : (a b : ℕ) → bit_and a b ≡ bit_and (a / 2) (b / 2) * 2 + min (a % 2) (b % 2)
bit_and-halves zero b = omega (arith, bit_and-bitwise 0 b, bit_and-bitwise 0 (b / 2))
bit_and-halves (suc a) b = omega (
  arith,
  bit_and-bitwise (suc a) b,
  bit_and-bitwise (suc a / 2) (b / 2),
  low_digits_fuel a (suc a / 2) (suc a / 2) (b / 2) (omega arith) (omega arith),
)

bit_and-zero_below : (k a : ℕ) → a ≤ k → bit_and a 0 ≡ 0
bit_and-zero_below k zero h = refl
bit_and-zero_below zero (suc a) h = elim h [ ]
bit_and-zero_below (suc k) (suc a) h =
    omega (arith, bit_and-halves (suc a) 0, bit_and-zero_below k (suc a / 2) (omega arith))

mod_halves : (a p : ℕ) → 0 < p → a % (2 * p) ≡ a / 2 % p * 2 + a % 2
mod_halves a p h =
    let low : ℕ = a / 2 % p * 2 + a % 2 in
    let parts : a ≡ 2 * p * (a / 2 / p) + low = omega (arith, div-add-mod (a / 2) p) in
    ap (λ (t : ℕ). t % (2 * p)) parts
    ∙ mul-add-mod_self_left (2 * p) (a / 2 / p) low
    ∙ mod-eq_of_lt (omega (arith, mod-lt (a / 2) h))

-- x & (2 ^ k - 1) is x % 2 ^ k.
pub bit_and-mask : (k a : ℕ) → bit_and a (2 ^ k - 1) ≡ a % 2 ^ k
bit_and-mask zero a = omega (arith, bit_and-zero_below a a (omega arith))
bit_and-mask (suc k) a = ground (
  arith,
  one-le-pow k 2,
  pow-suc 2 k,
  bit_and-halves a (2 ^ suc k - 1),
  mod_halves a (2 ^ k),
  bit_and-mask k (a / 2),
)
