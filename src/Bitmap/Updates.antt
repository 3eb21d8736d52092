-- ===== src/Bitmap/Updates.antt =====
-- Set, Clear and NewBitmap against the set of taken ids.
use native.Mathlib.Nat.{pow-le-pow_right}
use sfc_controller.Common.{
  ℕ, zero, suc, ◌+◌, ◌-◌, ◌/◌, ◌%◌, ◌^◌, ◌<◌, bit_or, ◌≡◌, refl, Bool, true, false, not, none, some,
  List, [], ◌∷◌, arith, ◌==◌, if◌then◌else◌, length, get_elem?, set, replicate, All, All-get_elem?,
  get_elem?-set_self, get_elem?-set_ne, length-set, length-replicate, Bool-cases, inl, inr,
}
use sfc_controller.Common.Digits.{digit, digit_of_zero, bit_or-lt, bit_and-lt, bit_xor-lt}
use sfc_controller.Bitmap.{
  Bitmap, bit_out_of_range, out_of_range, mask, and_not, set_bit, clear, new_bitmap,
}
use sfc_controller.Bitmap.Words.{digit-set, digit-and_not}
use sfc_controller.Bitmap.View.{IsValid, bit_at, word_bit, word_in_range, bit_at-out_of_range}

mask-lt : (i : ℕ) → mask i < 2 ^ 64
mask-lt i = small (63 - i % 64) (omega arith)
  where
    small : (k : ℕ) → k < 64 → 2 ^ k < 2 ^ 64
    small k h = omega (arith, pow-le-pow_right {n = 2} (omega arith) {i = k} {j = 63} (omega arith))

All-set :
    (xs : List ℕ) (i v : ℕ)
    → All (λ v. v < 2 ^ 64) xs
    → v < 2 ^ 64
    → All (λ v. v < 2 ^ 64) (set xs i v)
All-set [] i v h hv = tt
All-set (x ∷ xs) zero v h hv = (hv, h.1)
All-set (x ∷ xs) (suc i) v h hv = (h.0, All-set xs i v h.1 hv)

-- One word written: what the bitmap holds afterwards.
module _ (bm : Bitmap) (i w : ℕ) where
  abbrev written : Bitmap
  written = record bm { u64_array = set bm.u64_array ((i - 1) / 64) w }

  written-IsValid : IsValid bm → w < 2 ^ 64 → IsValid written
  written-IsValid h hw = record {
    enough_words = rw length-set h.enough_words;
    few_words = rw length-set h.few_words;
    bits_fit = h.bits_fit;
    words_fit = All-set bm.u64_array ((i - 1) / 64) w h.words_fit hw;
  }

  bit_at-written :
      (v j : ℕ) (b : Bool)
      → get_elem? bm.u64_array ((i - 1) / 64) ≡ some v
      → (i - 1) / 64 < length bm.u64_array
      → out_of_range bm i ≡ false
      → ((k : ℕ) → (digit k w == 1) ≡ (if k == 63 - (i - 1) % 64 then b else digit k v == 1))
      → bit_at written j ≡ (if i == j then b else bit_at bm j)
  unfolding bit_at
  bit_at-written v j b e inside r d = ground (
    arith,
    get_elem?-set_self bm.u64_array ((i - 1) / 64) w inside,
    get_elem?-set_ne bm.u64_array ((i - 1) / 64) ((j - 1) / 64) w,
    d (63 - (j - 1) % 64),
  )

-- `bm'` is valid, has the size of `bm`, and holds the ids of `bm` but for `i`, where it has `b`.
pub record IsUpdate (bm : Bitmap) (i : ℕ) (b : Bool) (bm' : Bitmap) : Type 0 where
  pub valid : IsValid bm'
  pub same_size : bm'.num_bits ≡ bm.num_bits
  pub view : (j : ℕ) → bit_at bm' j ≡ (if i == j then b else bit_at bm j)

unchanged : (bm : Bitmap) (i : ℕ) → IsValid bm → out_of_range bm i ≡ true → IsUpdate bm i false bm
unchanged bm i h e = record {
  valid = h;
  same_size = refl;
  view = λ j. ground (arith, bit_at-out_of_range bm i e);
}

module _ (bm : Bitmap) (i : ℕ) (h : IsValid bm) (e : out_of_range bm i ≡ false) where
  written-IsUpdate :
      (v w : ℕ) (b : Bool)
      → get_elem? bm.u64_array ((i - 1) / 64) ≡ some v
      → w < 2 ^ 64
      → ((k : ℕ) → (digit k w == 1) ≡ (if k == 63 - (i - 1) % 64 then b else digit k v == 1))
      → IsUpdate bm i b (written bm i w)
  written-IsUpdate v w b at_word fits d = record {
    valid = written-IsValid bm i w h fits;
    same_size = refl;
    view = λ j. bit_at-written bm i w v j b at_word (ground (arith, h.enough_words)) e d;
  }

  word-lt : (v : ℕ) → get_elem? bm.u64_array ((i - 1) / 64) ≡ some v → v < 2 ^ 64
  word-lt v at_word =
      All-get_elem? (λ v. v < 2 ^ 64) bm.u64_array ((i - 1) / 64) h.words_fit at_word

  set_in_range : (bm' : Bitmap) × (set_bit bm i ≡ some (bm', none)) × IsUpdate bm i true bm'
  set_in_range =
      let (v, at_word) = word_in_range bm i h e in
      let w = bit_or v (mask (i - 1)) in
      (
        written bm i w,
        unfold set_bit in rw (e, at_word) refl,
        written-IsUpdate v w true at_word (bit_or-lt 64 v _ (word-lt v at_word) (mask-lt (i - 1)))
            (λ k. digit-set k v (i - 1)),
      )

  clear_in_range : (bm' : Bitmap) × (clear bm i ≡ some bm') × IsUpdate bm i false bm'
  clear_in_range =
      let (v, at_word) = word_in_range bm i h e in
      let w = and_not v (mask (i - 1)) in
      let fits = word-lt v at_word in
      (
        written bm i w,
        unfold clear in rw (e, at_word) refl,
        written-IsUpdate v w false at_word
            (bit_xor-lt 64 v _ fits (bit_and-lt 64 v _ fits (mask-lt (i - 1))))
            (λ k. digit-and_not k v (i - 1)),
      )

-- Set never panics on a valid bitmap. In range it takes the id and returns no error; out of range
-- it returns the error and changes nothing. No other id changes.
pub set_bit_lem :
    (bm : Bitmap) (i : ℕ)
    → IsValid bm
    → (bm' : Bitmap) × (set_bit bm i
        ≡ some (bm', if out_of_range bm i then some (bit_out_of_range i) else none))
      × IsUpdate bm i (not (out_of_range bm i)) bm'
set_bit_lem bm i h = elim (Bool-cases (out_of_range bm i)) [
  | inl e ↦ rw e (bm, unfold set_bit in rw e refl, unchanged bm i h e)
  | inr e ↦ rw e (set_in_range bm i h e)
]

-- Clear never panics on a valid bitmap; afterwards the id is free, and no other id changed.
pub clear_lem :
    (bm : Bitmap) (i : ℕ)
    → IsValid bm
    → (bm' : Bitmap) × (clear bm i ≡ some bm') × IsUpdate bm i false bm'
clear_lem bm i h = elim (Bool-cases (out_of_range bm i)) [
  | inl e ↦ (bm, unfold clear in rw e refl, unchanged bm i h e)
  | inr e ↦ clear_in_range bm i h e
]

All-replicate : (n : ℕ) → All (λ v. v < 2 ^ 64) (replicate n 0)
All-replicate zero = tt
All-replicate (suc n) = (omega arith, All-replicate n)

word_of_zeros : (n i : ℕ) (k : ℕ) → word_bit (get_elem? (replicate n 0) i) k ≡ false
word_of_zeros zero i k = refl
word_of_zeros (suc n) zero k = ground (arith, digit_of_zero k)
word_of_zeros (suc n) (suc i) k = word_of_zeros n i k

-- A new bitmap of at least one bit is valid and holds no id.
pub new_bitmap_lem :
    (n : ℕ)
    → 0 < n
    → n < 2 ^ 32
    → IsValid (new_bitmap n) × ((i : ℕ) → bit_at (new_bitmap n) i ≡ false)
unfolding new_bitmap bit_at
new_bitmap_lem n pos fits = (
  record {
    enough_words = rw length-replicate (omega arith);
    few_words = rw length-replicate (omega arith);
    bits_fit = fits;
    words_fit = All-replicate ((n + 2 ^ 32 - 1) % 2 ^ 32 / 64 + 1);
  },
  λ i. ground (
    arith,
    word_of_zeros ((n + 2 ^ 32 - 1) % 2 ^ 32 / 64 + 1) ((i - 1) / 64) (63 - (i - 1) % 64),
  ),
)
