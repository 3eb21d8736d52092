-- ===== src/Common/Sets.antt =====
-- Go sets of numbers, `map[uint32]struct{}`, as lists without repetition, and how many ids of a
-- range such a set holds.
use Prim.Native.Nat.{ℕ, zero, suc, ◌+◌, ◌≤◌, ◌<◌}
use mathlib.Core.Path.{◌≡◌, refl, sym, ap, ◌∙◌}
use mathlib.Core.Logic.{inl, inr}
use mathlib.Core.Bool.{Bool, true, false, ◌||◌}
use mathlib.Core.List.{List, [], ◌∷◌}
use native.Mathlib.Omega.{arith}
use sfc_controller.Common.Tests.{◌==◌, ==_iff, if◌then◌else◌, Bool-cases}
use sfc_controller.Common.Lists.{length}

-- _, exists := s[a]
unfoldable pub member : ℕ → List ℕ → Bool
member a [] = false
member a (b ∷ s) = b == a || member a s

-- s[a] = struct{}{}
unfoldable pub add : ℕ → List ℕ → List ℕ
add a s = if member a s then s else a ∷ s

pub member-add : (a b : ℕ) (s : List ℕ) → member b (add a s) ≡ (if a == b then true else member b s)
unfolding add member
member-add a b s = elim (Bool-cases (member a s)) [
  | inl e ↦ rw e (ground (arith, at_member a b s e))
  | inr e ↦ rw e (ground arith)
]
  where
    at_member : (a b : ℕ) (s : List ℕ) → member a s ≡ true → a ≡ b → member b s ≡ true
    at_member a b s e q = rw q at e

abbrev pub IsSetOf : List ℕ → Type 0
IsSetOf [] = Unit
IsSetOf (a ∷ s) = (member a s ≡ false) × IsSetOf s

pub add-IsSetOf : (a : ℕ) (s : List ℕ) → IsSetOf s → IsSetOf (add a s)
unfolding add
add-IsSetOf a s h = elim (Bool-cases (member a s)) [ inl e ↦ rw e h | inr e ↦ rw e (e, h) ]

pub length-add : (a : ℕ) (s : List ℕ) → member a s ≡ false → length (add a s) ≡ length s + 1
unfolding add
length-add a s e = rw e (omega arith)

-- How many of the `n` ids from `lo` on are in the set.
abbrev pub count_in : ℕ → ℕ → List ℕ → ℕ
count_in lo zero s = 0
count_in lo (suc n) s = (if member lo s then 1 else 0) + count_in (lo + 1) n s

pub count_in-le : (lo n : ℕ) (s : List ℕ) → count_in lo n s ≤ n
count_in-le lo zero s = omega arith
count_in-le lo (suc n) s = ground (arith, count_in-le (lo + 1) n s)

-- A range that is counted in full is in the set.
pub count_in_full :
    (lo n : ℕ) (s : List ℕ)
    → count_in lo n s ≡ n
    → (a : ℕ) → lo ≤ a
    → a < lo + n
    → member a s ≡ true
count_in_full lo zero s e a p q = absurd (omega arith)
count_in_full lo (suc n) s e a p q = elim (Bool-cases (a == lo)) [
  | inl here ↦ let e' = (==_iff a lo).0 here in rw e' (ground (arith, count_in-le (lo + 1) n s))
  | inr later ↦
      count_in_full (lo + 1) n s (ground (arith, count_in-le (lo + 1) n s)) a (ground arith)
        (omega arith)
]

count_in_out : (lo n a : ℕ) (s : List ℕ) → a < lo → count_in lo n (a ∷ s) ≡ count_in lo n s
unfolding member
count_in_out lo zero a s h = refl
count_in_out lo (suc n) a s h = ground (arith, count_in_out (lo + 1) n a s (omega arith))

count_in_new :
    (lo n a : ℕ) (s : List ℕ)
    → lo ≤ a
    → a < lo + n
    → member a s ≡ false
    → count_in lo n (a ∷ s) ≡ suc (count_in lo n s)
unfolding member
count_in_new lo zero a s p q e = absurd (omega arith)
count_in_new lo (suc n) a s p q e = elim (Bool-cases (a == lo)) [
  | inl here ↦
      let e' = (==_iff a lo).0 here in
      ground (arith, count_in_out (lo + 1) n a s (omega arith), rw e' at e)
  | inr later ↦ ground (arith, count_in_new (lo + 1) n a s (ground arith) (omega arith) e)
]

count_in_empty : (lo n : ℕ) → count_in lo n [] ≡ 0
unfolding member
count_in_empty lo zero = refl
count_in_empty lo (suc n) = ground (arith, count_in_empty (lo + 1) n)

abbrev pub IsWithin : ℕ → ℕ → List ℕ → Type 0
IsWithin lo n [] = Unit
IsWithin lo n (a ∷ s) = (lo ≤ a) × (a < lo + n) × IsWithin lo n s

-- A set within a range has as many elements as the range counts.
pub length_within :
    (lo n : ℕ) (s : List ℕ) → IsSetOf s → IsWithin lo n s → length s ≡ count_in lo n s
length_within lo n [] d w = sym (count_in_empty lo n)
length_within lo n (a ∷ s) d w =
    ap suc (length_within lo n s d.1 w.2) ∙ sym (count_in_new lo n a s w.0 w.1 d.0)

-- A range that is in the set is counted in full.
pub count_in_all :
    (lo n : ℕ) (s : List ℕ)
    → ((a : ℕ) → lo ≤ a → a < lo + n → member a s ≡ true)
    → count_in lo n s ≡ n
count_in_all lo zero s h = refl
count_in_all lo (suc n) s h =
    ground (arith, h lo, count_in_all (lo + 1) n s (λ a p q. h a (omega arith) (omega arith)))
