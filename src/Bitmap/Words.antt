-- ===== src/Bitmap/Words.antt =====
-- What the masks of bitmap.go do to the digits of one word.
use Prim.Native.Nat.{differ}
use native.Mathlib.Nat.{one-le-pow}
use sfc_controller.Common.{
  ℕ, zero, suc, ◌-◌, ◌%◌, ◌*◌, ◌^◌, ◌<◌, bit_and, bit_or, min, ◌≡◌, refl, true, false, not, arith,
  ◌==◌, if◌then◌else◌,
}
use sfc_controller.Common.Digits.{
  digit, digit-lt-two, digit-bit_or, digit-bit_and, digit-bit_xor, digit-pow, bit_and-pow,
}
use sfc_controller.Bitmap.{mask, and_not}

-- The test of IsSet reads the digit that the mask stands for.
pub mask_test : (v i : ℕ) → not (bit_and v (mask i) == 0) ≡ (digit (63 - i % 64) v == 1)
mask_test v i =
    by_digit (digit (63 - i % 64) v) (2 ^ (63 - i % 64)) (bit_and v (mask i))
      (digit-lt-two (63 - i % 64) v) (one-le-pow (63 - i % 64) 2 (omega arith))
      (bit_and-pow (63 - i % 64) v)
  where
    by_digit : (d p r : ℕ) → d < 2 → 0 < p → r ≡ d * p → not (r == 0) ≡ (d == 1)
    by_digit zero p r hd hp e = ground arith
    by_digit (suc zero) p r hd hp e = ground arith
    by_digit (suc (suc d)) p r hd hp e = absurd (omega arith)

pub digit-set :
    (k v i : ℕ)
    → (digit k (bit_or v (mask i)) == 1) ≡ (if k == 63 - i % 64 then true else digit k v == 1)
digit-set k v i =
    ground (arith, digit-lt-two k v, digit-bit_or k v (mask i), digit-pow k (63 - i % 64))

differ-min : (x y : ℕ) → x < 2 → y < 2 → differ x (min x y) ≡ x - y
differ-min zero y p q = ground arith
differ-min (suc zero) zero p q = refl
differ-min (suc zero) (suc zero) p q = refl
differ-min _ _ p q = absurd (omega arith)

pub digit-and_not :
    (k v i : ℕ)
    → (digit k (and_not v (mask i)) == 1) ≡ (if k == 63 - i % 64 then false else digit k v == 1)
digit-and_not k v i = ground (
  arith,
  digit-lt-two k v,
  digit-lt-two k (mask i),
  digit-bit_xor k v (bit_and v (mask i)),
  digit-bit_and k v (mask i),
  differ-min (digit k v) (digit k (mask i)),
  digit-pow k (63 - i % 64),
)
