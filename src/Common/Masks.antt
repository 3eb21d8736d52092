-- ===== src/Common/Masks.antt =====
-- A number split at a digit, its high part masked, joined and taken away.
use native.Mathlib.Nat.{pow-suc, one-le-pow, mul-one, add-zero}
use Prim.Native.Nat.{
  ℕ, zero, suc, ◌+◌, ◌-◌, ◌*◌, ◌/◌, ◌%◌, ◌^◌, ◌≤◌, ◌<◌, bit_and, bit_or, bit_xor, differ,
}
use mathlib.Core.Path.{◌≡◌, refl, ap, ◌∙◌}
use native.Mathlib.Omega.{arith}
use sfc_controller.Common.Digits.{or_lowest, and_lowest, xor_lowest}

double_high : (k q : ℕ) → q * 2 ^ suc k ≡ 2 * (q * 2 ^ k)
double_high k q = omega (arith, ap (λ (t : ℕ). q * t) (pow-suc 2 k))

or_zero : (top a : ℕ) → a ≤ top → bit_or a 0 ≡ a
or_zero top zero p = omega (arith, or_lowest 0 0)
or_zero (suc top) (suc a) p =
    omega (arith, or_lowest (suc a) 0, or_zero top (suc a / 2) (omega arith))
or_zero zero (suc a) p = absurd (omega arith)

differ_self : (x : ℕ) → differ x x ≡ 0
differ_self zero = refl
differ_self (suc x) = differ_self x

differ_zero : (x : ℕ) → differ x 0 ≡ x
differ_zero zero = refl
differ_zero (suc x) = refl

xor_self : (top a : ℕ) → a ≤ top → bit_xor a a ≡ 0
xor_self top zero p = omega (arith, xor_lowest 0 0)
xor_self (suc top) (suc a) p = omega (
  arith,
  xor_lowest (suc a) (suc a),
  differ_self (suc a % 2),
  xor_self top (suc a / 2) (omega arith),
)
xor_self zero (suc a) p = absurd (omega arith)

and_ones : (d a : ℕ) → a < 2 ^ d → bit_and a (2 ^ d - 1) ≡ a
and_ones zero zero p = omega (arith, and_lowest 0 0)
and_ones zero (suc a) p = absurd (omega arith)
and_ones (suc d) a p = omega (
  arith,
  and_lowest a (2 ^ suc d - 1),
  ap (bit_and (a / 2)) (half_ones d),
  and_ones d (a / 2) (omega (arith, pow-suc 2 d)),
  pow-suc 2 d,
  one-le-pow d 2,
)
  where
    half_ones : (d : ℕ) → (2 ^ suc d - 1) / 2 ≡ 2 ^ d - 1
    half_ones d = omega (arith, pow-suc 2 d, one-le-pow d 2)

-- A mask of high ones keeps the high part.
pub bit_and_high :
    (k d q r : ℕ)
    → q < 2 ^ d
    → r < 2 ^ k
    → bit_and (q * 2 ^ k + r) ((2 ^ d - 1) * 2 ^ k) ≡ q * 2 ^ k
bit_and_high zero d q r hq hr =
    let e : r ≡ 0 = omega arith in rw (e, mul-one, add-zero, mul-one) (and_ones d q hq)
bit_and_high (suc k) d q r hq hr = ground (
  arith,
  and_lowest (q * 2 ^ suc k + r) ((2 ^ d - 1) * 2 ^ suc k),
  double_high k q,
  double_high k (2 ^ d - 1),
  pow-suc 2 k,
  bit_and_high k d q (r / 2) hq (omega (arith, pow-suc 2 k)),
)

-- `|` of a high and a low part is their sum.
pub bit_or_low : (k q r : ℕ) → r < 2 ^ k → bit_or (q * 2 ^ k) r ≡ q * 2 ^ k + r
bit_or_low zero q zero h = or_zero (q * 1) (q * 1) (omega arith) ∙ omega arith
bit_or_low zero q (suc r) h = absurd (omega arith)
bit_or_low (suc k) q r h = ground (
  arith,
  or_lowest (q * 2 ^ suc k) r,
  double_high k q,
  pow-suc 2 k,
  bit_or_low k q (r / 2) (omega (arith, pow-suc 2 k)),
)

even : (k q : ℕ) → q * 2 ^ suc k % 2 ≡ 0
even k q = omega (arith, double_high k q)

low_digit : (k q r : ℕ) → (q * 2 ^ suc k + r) % 2 ≡ r % 2
low_digit k q r = omega (arith, double_high k q)

-- A number with its high part taken out is its low part.
pub bit_xor_high : (k q r : ℕ) → r < 2 ^ k → bit_xor (q * 2 ^ k + r) (q * 2 ^ k) ≡ r
bit_xor_high zero q zero h = rw (add-zero) (xor_self (q * 1) (q * 1) (omega arith))
bit_xor_high zero q (suc r) h = absurd (omega arith)
bit_xor_high (suc k) q r h = ground (
  arith,
  xor_lowest (q * 2 ^ suc k + r) (q * 2 ^ suc k),
  differ_zero (r % 2),
  ap (λ t. differ t 0) (low_digit k q r),
  ap (differ ((q * 2 ^ suc k + r) % 2)) (even k q),
  double_high k q,
  pow-suc 2 k,
  bit_xor_high k q (r / 2) (omega (arith, pow-suc 2 k)),
)

pub pow_add : (d k : ℕ) → 2 ^ (d + k) ≡ 2 ^ d * 2 ^ k
pow_add d zero = rw (add-zero, mul-one) refl
pow_add d (suc k) = omega (
  arith,
  ap (λ (n : ℕ). 2 ^ n) (add_suc d k),
  pow-suc 2 (d + k),
  pow-suc 2 k,
  pow_add d k,
  ap (λ (t : ℕ). 2 ^ d * t) (pow-suc 2 k),
)
  where
    add_suc : (d k : ℕ) → d + suc k ≡ suc (d + k)
    add_suc d k = omega arith
