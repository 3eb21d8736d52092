-- ===== src/Bitmap/View.antt =====
-- The set of ids that a bitmap stands for, the shape that keeps every index inside the word array,
-- and IsSet against them.
use sfc_controller.Common.{
  ℕ, ◌-◌, ◌*◌, ◌/◌, ◌%◌, ◌^◌, ◌≤◌, ◌<◌, ◌≡◌, refl, Bool, true, false, Option, none, some, arith,
  ◌==◌, if◌then◌else◌, length, get_elem?, All, get_elem?-in_range, Bool-cases, inl, inr,
}
use sfc_controller.Common.Digits.{digit}
use sfc_controller.Bitmap.{Bitmap, out_of_range, is_set}
use sfc_controller.Bitmap.Words.{mask_test}

-- Words are 64 bits wide, and there are enough of them, at most 2 ^ 26.
pub record IsValid (bm : Bitmap) : Type 0 where
  pub enough_words : bm.num_bits ≤ 64 * length bm.u64_array
  pub few_words : 64 * length bm.u64_array ≤ 2 ^ 32
  pub bits_fit : bm.num_bits < 2 ^ 32
  pub words_fit : All (λ v. v < 2 ^ 64) bm.u64_array

abbrev pub word_bit : Option ℕ → ℕ → Bool
word_bit none k = false
word_bit (some v) k = digit k v == 1

-- Whether the id `i` is taken.
unfoldable pub bit_at : Bitmap → ℕ → Bool
bit_at bm i =
    if out_of_range bm i
    then false
    else word_bit (get_elem? bm.u64_array ((i - 1) / 64)) (63 - (i - 1) % 64)

-- An id in range lies in a word of the array.
pub word_in_range :
    (bm : Bitmap) (i : ℕ)
    → IsValid bm
    → out_of_range bm i ≡ false
    → (v : ℕ) × (get_elem? bm.u64_array ((i - 1) / 64) ≡ some v)
word_in_range bm i h e =
    get_elem?-in_range bm.u64_array ((i - 1) / 64) (ground (arith, h.enough_words))

-- IsSet does not panic, and tells whether the id is taken.
pub is_set-bit_at : (bm : Bitmap) (i : ℕ) → IsValid bm → is_set bm i ≡ some (bit_at bm i)
unfolding is_set bit_at
is_set-bit_at bm i h = elim (Bool-cases (out_of_range bm i)) [
  | inl e ↦ rw e refl
  | inr e ↦ let (v, w) = word_in_range bm i h e in rw (e, w, mask_test v (i - 1))
]

-- Ids out of range are never taken.
pub bit_at-out_of_range : (bm : Bitmap) (i : ℕ) → out_of_range bm i ≡ true → bit_at bm i ≡ false
unfolding bit_at
bit_at-out_of_range bm i e = rw e
