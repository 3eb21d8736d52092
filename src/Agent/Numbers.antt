-- ===== src/Agent/Numbers.antt =====
-- plugins/controller/vppagent/vpp_agent.go, strToUInt32: what it reads from a printed number.
use Prim.Native.Nat.{ℕ, zero, suc, ◌+◌, ◌*◌, ◌/◌, ◌%◌, ◌^◌, ◌<◌, ◌≤◌}
use native.Mathlib.Nat.{pow-suc}
use sfc_controller.Common.{
  ◌≡◌, refl, ◌∙◌, ap, inl, inr, Text, true, some, [], ◌∷◌, ◌++◌, arith, ltb, leb, if◌then◌else◌,
  Bool-cases, ◌&&◌, ◌-◌,
}
use sfc_controller.Common.Decimals.{decimal, decimal_digits}
use sfc_controller.Agent.{digits_value, magnitude, atoi, str_to_uint32}

digits_value-append :
    (acc : ℕ) (s t : Text) (n : ℕ)
    → digits_value acc s ≡ some n
    → digits_value acc (s ++ t) ≡ digits_value n t
unfolding digits_value
digits_value-append acc [] t n h = ground (arith, h)
digits_value-append acc (c ∷ s) t n h = elim (Bool-cases (leb 48 c && leb c 57)) [
  | inl e ↦ rw e (digits_value-append (acc * 10 + (c - 48)) s t n (rw e at h))
  | inr e ↦ absurd (ground (arith, h, e))
]

one_digit : (acc c : ℕ) → c < 10 → digits_value acc ((48 + c) ∷ []) ≡ some (acc * 10 + c)
unfolding digits_value
one_digit acc c h = ground (arith, h)

decimal_digits-step :
    (rounds n : ℕ)
    → decimal_digits (suc rounds) n
      ≡ (if ltb n 10 then (48 + n) ∷ [] else decimal_digits rounds (n / 10) ++ (48 + n % 10) ∷ [])
decimal_digits-step rounds n = unfold decimal_digits in refl

last_digit :
    (rounds n : ℕ)
    → digits_value 0 (decimal_digits rounds (n / 10)) ≡ some (n / 10)
    → digits_value 0 (decimal_digits rounds (n / 10) ++ (48 + n % 10) ∷ []) ≡ some n
last_digit rounds n h =
    digits_value-append 0 (decimal_digits rounds (n / 10)) ((48 + n % 10) ∷ []) (n / 10) h
    ∙ one_digit (n / 10) (n % 10) (omega arith)
    ∙ ap some (omega arith)

digits_value-decimal_digits :
    (rounds n : ℕ) → n < 10 ^ suc rounds → digits_value 0 (decimal_digits (suc rounds) n) ≡ some n
digits_value-decimal_digits zero n h =
    let e : ltb n 10 ≡ true = ground (arith, h, pow-suc 10 0) in
    rw (decimal_digits-step 0 n, e) (one_digit 0 n (ground (arith, e)) ∙ ap some (omega arith))
digits_value-decimal_digits (suc rounds) n h = elim (Bool-cases (ltb n 10)) [
  | inl e ↦
      rw (decimal_digits-step (suc rounds) n, e)
        (one_digit 0 n (ground (arith, e)) ∙ ap some (omega arith))
  | inr e ↦
      rw (decimal_digits-step (suc rounds) n, e)
        (last_digit (suc rounds) n
          (digits_value-decimal_digits rounds (n / 10) (omega (arith, pow-suc 10 (suc rounds)))))
]

-- No sign comes first.
abbrev StartsUnsigned : Text → Type 0
StartsUnsigned [] = Unit
StartsUnsigned (c ∷ s) = 48 ≤ c

append-StartsUnsigned :
    (s : Text) (c : ℕ) → 48 ≤ c → StartsUnsigned s → StartsUnsigned (s ++ c ∷ [])
append-StartsUnsigned [] c l h = l
append-StartsUnsigned (d ∷ s) c l h = h

decimal_digits-StartsUnsigned : (rounds n : ℕ) → StartsUnsigned (decimal_digits rounds n)
decimal_digits-StartsUnsigned zero n = unfold decimal_digits in tt
decimal_digits-StartsUnsigned (suc rounds) n = elim (Bool-cases (ltb n 10)) [
  | inl e ↦ rw (decimal_digits-step rounds n, e) (omega arith)
  | inr e ↦
      rw (decimal_digits-step rounds n, e)
        (append-StartsUnsigned (decimal_digits rounds (n / 10)) (48 + n % 10) (omega arith)
          (decimal_digits-StartsUnsigned rounds (n / 10)))
]

unsigned :
    (s : Text) (n : ℕ)
    → StartsUnsigned s
    → digits_value 0 s ≡ some n
    → n < 2 ^ 63
    → str_to_uint32 s ≡ n % 2 ^ 32
unfolding str_to_uint32 atoi magnitude
unsigned [] n u h l = let e : some 0 ≡ some n = unfold digits_value in h in ground (arith, e)
unsigned (c ∷ s) n u h l = ground (arith, u, h, l)

-- strToUInt32 reads the decimal text of a number below 2 ^ 63 modulo 2 ^ 32.
pub str_to_uint32-decimal : (n : ℕ) → n < 2 ^ 63 → str_to_uint32 (decimal n) ≡ n % 2 ^ 32
unfolding decimal
str_to_uint32-decimal n h =
    unsigned (decimal_digits 20 n) n (decimal_digits-StartsUnsigned 20 n)
      (digits_value-decimal_digits 19 n (omega arith)) h
