-- ===== src/Bitmap.antt =====
-- plugins/controller/idapi/bitmap/bitmap.go: the bitmap of busy and free ids, bits 1 to `num_bits`
-- in 64-bit words, the highest digit of a word first. `none` is a run-time panic: an index out of
-- the range of the word array.
mod Words
pub mod View
pub mod Updates
pub mod Search
mod Examples
use mathlib.Core.Option
use sfc_controller.Common.{
  ℕ, zero, suc, ◌+◌, ◌-◌, ◌*◌, ◌/◌, ◌%◌, ◌^◌, bit_and, bit_or, bit_xor, Bool, true, false, not,
  ◌||◌, Option, none, some, List, [], ◌∷◌, ltb, ◌==◌, if◌then◌else◌, get_elem?, set, replicate,
}

abbrev pub all_bits_set : ℕ
all_bits_set = 0xFFFFFFFFFFFFFFFF

pub record Bitmap : Type 0 where
  pub u64_array : List ℕ
  pub num_bits : ℕ

-- `bit i` is out of the range of the bitmap
pub data Error : Type 0 where
  bit_out_of_range : ℕ → Error

abbrev pub out_of_range : Bitmap → ℕ → Bool
out_of_range bm i = ltb i 1 || ltb bm.num_bits i

-- 1 << (63 - i%64)
abbrev pub mask : ℕ → ℕ
mask i = 2 ^ (63 - i % 64)

unfoldable pub is_set : Bitmap → ℕ → Option Bool
is_set bm i =
    if out_of_range bm i
    then some false
    else Option.map (λ v. not (bit_and v (mask (i - 1)) == 0))
        (get_elem? bm.u64_array ((i - 1) / 64))

-- The bitmap after the call, and the error that is returned.
unfoldable pub set_bit : Bitmap → ℕ → Option (Bitmap × Option Error)
set_bit bm i =
    if out_of_range bm i
    then some (bm, some (bit_out_of_range i))
    else Option.map
        (λ v. (
          record bm { u64_array = set bm.u64_array ((i - 1) / 64) (bit_or v (mask (i - 1))) },
          none,
        ))
        (get_elem? bm.u64_array ((i - 1) / 64))

-- `v &^ m` is `v` with the digits of `v & m` turned over.
abbrev pub and_not : ℕ → ℕ → ℕ
and_not v m = bit_xor v (bit_and v m)

unfoldable pub clear : Bitmap → ℕ → Option Bitmap
clear bm i =
    if out_of_range bm i
    then some bm
    else Option.map
        (λ v. record bm { u64_array = set bm.u64_array ((i - 1) / 64) (and_not v (mask (i - 1))) })
        (get_elem? bm.u64_array ((i - 1) / 64))

-- The inner loop at word `i` from digit `j` on, with `rounds` of its 64 rounds left; an inner
-- `none` is the end of the loop without a return.
unfoldable pub scan_word : Bitmap → ℕ → ℕ → ℕ → Option (Option ℕ)
scan_word bm i zero j = some none
scan_word bm i (suc rounds) j =
    let bit = (i * 64 + j + 1) % 2 ^ 32 in
    elim (is_set bm bit) [
      | none ↦ none
      | some true ↦ scan_word bm i rounds (j + 1)
      | some false ↦ some (some (if ltb bm.num_bits bit then 0 else bit))
    ]

-- The outer loop over the words from index `i` on.
unfoldable pub scan_words : Bitmap → ℕ → List ℕ → Option ℕ
scan_words bm i [] = some 0
scan_words bm i (v ∷ vs) =
    let rest = scan_words bm (i + 1) vs in
    if v == all_bits_set
    then rest
    else elim (scan_word bm i 64 0) [ none ↦ none | some none ↦ rest | some (some bit) ↦ some bit ]

unfoldable pub find_first_clear : Bitmap → Option ℕ
find_first_clear bm = scan_words bm 0 bm.u64_array

-- numBits-1 is taken modulo 2 ^ 32
unfoldable pub new_bitmap : ℕ → Bitmap
new_bitmap num_bits = record {
  u64_array = replicate ((num_bits + 2 ^ 32 - 1) % 2 ^ 32 / 64 + 1) 0;
  num_bits = num_bits;
}
