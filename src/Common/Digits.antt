-- ===== src/Common/Digits.antt =====
-- Binary digits of native numbers, and what the bit operations do to each of them.
use Prim.Native.Nat.{
  ℕ, zero, suc, ◌+◌, ◌-◌, ◌*◌, ◌/◌, ◌%◌, ◌^◌, ◌≤◌, ◌<◌, min, max, bit_and, bit_or, bit_xor, digits,
  bitwise, bit_and-bitwise, bit_or-bitwise, bit_xor-bitwise, differ,
}
use native.Mathlib.Nat.{le_refl, pow-suc, one-le-pow}
use mathlib.Core.Path.{◌≡◌, refl, sym, ap, ◌∙◌}
use native.Mathlib.Omega.{arith}
use sfc_controller.Common.Tests.{if◌then◌else◌, ◌==◌}

-- The digit of weight 2 ^ k.
abbrev pub digit : ℕ → ℕ → ℕ
digit zero v = v % 2
digit (suc k) v = digit k (v / 2)

-- The native operations recur on a count of rounds; any count from the first operand up gives
-- the same number.
module _ (z : ℕ → ℕ) (f : ℕ → ℕ → ℕ) where
  spare_rounds : (top n a b : ℕ) → n ≤ top → a ≤ n → digits z f n a b ≡ bitwise z f a b
  spare_rounds top zero zero b p q = refl
  spare_rounds top (suc n) zero b p q = refl
  spare_rounds (suc top) (suc n) (suc a) b p q =
      let half = suc a / 2 in
      ap (λ h. h * 2 + f (suc a % 2) (b % 2))
        (spare_rounds top n half (b / 2) (omega arith) (omega arith)
          ∙ sym (spare_rounds top a half (b / 2) (omega arith) (omega arith)))
  spare_rounds _ _ _ _ p q = absurd (omega arith)

  lowest_digit :
      (a b : ℕ)
      → bitwise z f (suc a) b ≡ bitwise z f (suc a / 2) (b / 2) * 2 + f (suc a % 2) (b % 2)
  lowest_digit a b =
      ap (λ h. h * 2 + f (suc a % 2) (b % 2))
        (spare_rounds a a (suc a / 2) (b / 2) (le_refl a) (omega arith))

pub or_lowest : (a b : ℕ) → bit_or a b ≡ bit_or (a / 2) (b / 2) * 2 + max (a % 2) (b % 2)
or_lowest zero b = simp bit_or-bitwise (omega arith)
or_lowest (suc a) b = simp bit_or-bitwise (lowest_digit (λ y. y) max a b)

pub and_lowest : (a b : ℕ) → bit_and a b ≡ bit_and (a / 2) (b / 2) * 2 + min (a % 2) (b % 2)
and_lowest zero b = simp bit_and-bitwise (omega arith)
and_lowest (suc a) b = simp bit_and-bitwise (lowest_digit (λ y. 0) min a b)

pub xor_lowest : (a b : ℕ) → bit_xor a b ≡ bit_xor (a / 2) (b / 2) * 2 + differ (a % 2) (b % 2)
xor_lowest zero b = simp bit_xor-bitwise (omega arith)
xor_lowest (suc a) b = simp bit_xor-bitwise (lowest_digit (λ y. y) differ a b)

pub digit-lt-two : (k v : ℕ) → digit k v < 2
digit-lt-two zero v = omega arith
digit-lt-two (suc k) v = digit-lt-two k (v / 2)

pub differ-lt-two : (x y : ℕ) → x < 2 → y < 2 → differ x y < 2
differ-lt-two zero y p q = q
differ-lt-two (suc zero) zero p q = omega arith
differ-lt-two (suc zero) (suc zero) p q = omega arith
differ-lt-two _ _ p q = absurd (omega arith)

pub digit-bit_or : (k a b : ℕ) → digit k (bit_or a b) ≡ max (digit k a) (digit k b)
digit-bit_or zero a b = omega (arith, or_lowest a b)
digit-bit_or (suc k) a b =
    let e : bit_or a b / 2 ≡ bit_or (a / 2) (b / 2) = omega (arith, or_lowest a b) in
    ap (digit k) e ∙ digit-bit_or k (a / 2) (b / 2)

pub digit-bit_and : (k a b : ℕ) → digit k (bit_and a b) ≡ min (digit k a) (digit k b)
digit-bit_and zero a b = omega (arith, and_lowest a b)
digit-bit_and (suc k) a b =
    let e : bit_and a b / 2 ≡ bit_and (a / 2) (b / 2) = omega (arith, and_lowest a b) in
    ap (digit k) e ∙ digit-bit_and k (a / 2) (b / 2)

pub digit-bit_xor : (k a b : ℕ) → digit k (bit_xor a b) ≡ differ (digit k a) (digit k b)
digit-bit_xor zero a b =
    omega (arith, xor_lowest a b, differ-lt-two (a % 2) (b % 2) (omega arith) (omega arith))
digit-bit_xor (suc k) a b =
    let d = differ-lt-two (a % 2) (b % 2) (omega arith) (omega arith) in
    let e : bit_xor a b / 2 ≡ bit_xor (a / 2) (b / 2) = omega (arith, xor_lowest a b, d) in
    ap (digit k) e ∙ digit-bit_xor k (a / 2) (b / 2)

pub digit_of_zero : (k : ℕ) → digit k 0 ≡ 0
digit_of_zero zero = refl
digit_of_zero (suc k) = digit_of_zero k

pub digit-pow : (k m : ℕ) → digit k (2 ^ m) ≡ (if k == m then 1 else 0)
digit-pow zero zero = refl
digit-pow zero (suc m) = ground (arith, pow-suc 2 m)
digit-pow (suc k) zero = digit_of_zero k ∙ ground arith
digit-pow (suc k) (suc m) =
    let e : 2 ^ suc m / 2 ≡ 2 ^ m = omega (arith, pow-suc 2 m) in
    ap (digit k) e ∙ digit-pow k m ∙ ground arith

and_nothing : (top a : ℕ) → a ≤ top → bit_and a 0 ≡ 0
and_nothing top zero p = refl
and_nothing (suc top) (suc a) p =
    omega (arith, and_lowest (suc a) 0, and_nothing top (suc a / 2) (omega arith))
and_nothing zero (suc a) p = absurd (omega arith)

-- A mask of one digit cuts that digit out.
pub bit_and-pow : (m a : ℕ) → bit_and a (2 ^ m) ≡ digit m a * 2 ^ m
bit_and-pow zero a = omega (arith, and_lowest a 1, and_nothing (a / 2) (a / 2) (le_refl _))
bit_and-pow (suc m) a =
    let e : 2 ^ suc m / 2 ≡ 2 ^ m = omega (arith, pow-suc 2 m) in
    let e' : 2 ^ suc m % 2 ≡ 0 = omega (arith, pow-suc 2 m) in
    and_lowest a (2 ^ suc m) ∙ rw (e, e', bit_and-pow m (a / 2)) (grind (arith, pow-suc 2 m))

pub digit-ones : (k w : ℕ) → k < w → digit k (2 ^ w - 1) ≡ 1
digit-ones zero zero p = absurd (omega arith)
digit-ones zero (suc w) p = omega (arith, pow-suc 2 w, one-le-pow w 2)
digit-ones (suc k) zero p = absurd (omega arith)
digit-ones (suc k) (suc w) p =
    let e : (2 ^ suc w - 1) / 2 ≡ 2 ^ w - 1 = omega (arith, pow-suc 2 w, one-le-pow w 2) in
    ap (digit k) e ∙ digit-ones k w (omega arith)

pub bit_or-lt : (w a b : ℕ) → a < 2 ^ w → b < 2 ^ w → bit_or a b < 2 ^ w
bit_or-lt zero zero zero p q = omega (arith, or_lowest 0 0)
bit_or-lt zero _ _ p q = absurd (omega arith)
bit_or-lt (suc w) a b p q = omega (
  arith,
  pow-suc 2 w,
  or_lowest a b,
  bit_or-lt w (a / 2) (b / 2) (omega (arith, pow-suc 2 w)) (omega (arith, pow-suc 2 w)),
)

pub bit_xor-lt : (w a b : ℕ) → a < 2 ^ w → b < 2 ^ w → bit_xor a b < 2 ^ w
bit_xor-lt zero zero zero p q = omega (arith, xor_lowest 0 0)
bit_xor-lt zero _ _ p q = absurd (omega arith)
bit_xor-lt (suc w) a b p q = omega (
  arith,
  pow-suc 2 w,
  xor_lowest a b,
  differ-lt-two (a % 2) (b % 2) (omega arith) (omega arith),
  bit_xor-lt w (a / 2) (b / 2) (omega (arith, pow-suc 2 w)) (omega (arith, pow-suc 2 w)),
)

pub bit_and-lt : (w a b : ℕ) → a < 2 ^ w → b < 2 ^ w → bit_and a b < 2 ^ w
bit_and-lt zero zero zero p q = omega (arith, and_lowest 0 0)
bit_and-lt zero _ _ p q = absurd (omega arith)
bit_and-lt (suc w) a b p q = omega (
  arith,
  pow-suc 2 w,
  and_lowest a b,
  bit_and-lt w (a / 2) (b / 2) (omega (arith, pow-suc 2 w)) (omega (arith, pow-suc 2 w)),
)
