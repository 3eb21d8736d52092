-- ===== src/Bitmap/Examples.antt =====
-- Tests of the bitmap, and its theorems at a bitmap of two words with ids 1 to 70.
use sfc_controller.Common.{◌≡◌, refl, false, not, none, some, [], ◌∷◌, arith, if◌then◌else◌, ℕ}
use sfc_controller.Bitmap.{
  Bitmap, bit_out_of_range, out_of_range, is_set, set_bit, clear, scan_word, scan_words,
  find_first_clear, new_bitmap,
}
use sfc_controller.Bitmap.View.{IsValid, bit_at, is_set-bit_at}
use sfc_controller.Bitmap.Updates.{IsUpdate, set_bit_lem, clear_lem, new_bitmap_lem}
use sfc_controller.Bitmap.Search.{IsFirstClear, find_first_clear_lem}

-- The first 65 ids are taken.
abbrev sample : Bitmap
sample = record { u64_array = 0xFFFFFFFFFFFFFFFF ∷ 0x8000000000000000 ∷ []; num_bits = 70 }

sample-IsValid : IsValid sample
sample-IsValid = record {
  enough_words = omega arith;
  few_words = omega arith;
  bits_fit = omega arith;
  words_fit = (omega arith, (omega arith, tt));
}

first_clear_test : find_first_clear sample ≡ some 66
unfolding find_first_clear scan_words scan_word is_set
first_clear_test = refl

full_test : find_first_clear (record { u64_array = 0xC000000000000000 ∷ []; num_bits = 2 }) ≡ some 0
unfolding find_first_clear scan_words scan_word is_set
full_test = refl

clear_test :
    clear sample 65 ≡ some (record { u64_array = 0xFFFFFFFFFFFFFFFF ∷ 0 ∷ []; num_bits = 70 })
unfolding clear
clear_test = refl

set_bit_lem_test :
    (bm' : Bitmap) × (set_bit sample 66
      ≡ some (bm', if out_of_range sample 66 then some (bit_out_of_range 66) else none))
    × IsUpdate sample 66 (not (out_of_range sample 66)) bm'
set_bit_lem_test = set_bit_lem sample 66 sample-IsValid

clear_lem_test : (bm' : Bitmap) × (clear sample 3 ≡ some bm') × IsUpdate sample 3 false bm'
clear_lem_test = clear_lem sample 3 sample-IsValid

new_bitmap_lem_test : IsValid (new_bitmap 64) × ((i : ℕ) → bit_at (new_bitmap 64) i ≡ false)
new_bitmap_lem_test = new_bitmap_lem 64 (omega arith) (omega arith)

is_set-bit_at_test : is_set sample 65 ≡ some (bit_at sample 65)
is_set-bit_at_test = is_set-bit_at sample 65 sample-IsValid

find_first_clear_lem_example : (r : ℕ) × (find_first_clear sample ≡ some r) × IsFirstClear sample r
find_first_clear_lem_example = find_first_clear_lem sample sample-IsValid
