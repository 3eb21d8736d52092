-- ===== src/Bitmap/Search.antt =====
-- FindFirstClear returns the smallest free id.
use sfc_controller.Common.{
  ℕ, zero, suc, ◌+◌, ◌-◌, ◌*◌, ◌/◌, ◌%◌, ◌^◌, ◌≤◌, ◌<◌, ◌≡◌, refl, ◌⊎◌, inl, inr, true, false,
  Option, ap, sym, ◌∙◌, none, some, List, [], ◌∷◌, arith, ltb, ◌==◌, ==_iff, if◌then◌else◌, length,
  get_elem?, Bool-cases,
}
use sfc_controller.Common.Digits.{digit-ones}
use sfc_controller.Bitmap.{Bitmap, all_bits_set, scan_word, scan_words, find_first_clear}
use sfc_controller.Bitmap.View.{IsValid, bit_at, is_set-bit_at}

-- Every id in range below `n` is taken.
abbrev pub TakenBelow : Bitmap → ℕ → Type 0
TakenBelow bm n = (i : ℕ) → 1 ≤ i → i < n → i ≤ bm.num_bits → bit_at bm i ≡ true

-- `r` is 0 and no id is free, or `r` is the smallest free id.
abbrev pub IsFirstClear : Bitmap → ℕ → Type 0
IsFirstClear bm r =
    ((r ≡ 0) × TakenBelow bm (bm.num_bits + 1))
    ⊎ ((1 ≤ r) × (r ≤ bm.num_bits) × (bit_at bm r ≡ false) × TakenBelow bm r)

bit_at_pos : (bm : Bitmap) (i : ℕ) → bit_at bm i ≡ true → 1 ≤ i
unfolding bit_at
bit_at_pos bm i b = ground arith

module _ (bm : Bitmap) (h : IsValid bm) where
  abbrev AfterWord : ℕ → Option (Option ℕ) → Type 0
  AfterWord i o =
      ((o ≡ some none) × TakenBelow bm (i * 64 + 65))
      ⊎ ((r : ℕ) × (o ≡ some (some r)) × IsFirstClear bm r)

  take_next : (n : ℕ) → TakenBelow bm n → bit_at bm n ≡ true → TakenBelow bm (n + 1)
  take_next n t b i lo hi fits = elim (Bool-cases (i == n)) [
    | inl e ↦ let e' = (==_iff i n).0 e in rw e' b
    | inr e ↦ t i lo (ground arith) fits
  ]

  -- One round of the inner loop.
  scan_word_round :
      (i rounds j : ℕ)
      → let bit = (i * 64 + j + 1) % 2 ^ 32 in
        scan_word bm i (suc rounds) j ≡ (
          if bit_at bm bit
          then scan_word bm i rounds (j + 1)
          else some (some (if ltb bm.num_bits bit then 0 else bit)))
  unfolding scan_word
  scan_word_round i rounds j = ground (arith, is_set-bit_at bm ((i * 64 + j + 1) % 2 ^ 32) h)

  -- The bit that a round reports as clear.
  report_clear :
      (n : ℕ)
      → n ≤ 2 ^ 32
      → 0 < n
      → TakenBelow bm n
      → bit_at bm (n % 2 ^ 32) ≡ false
      → IsFirstClear bm (if ltb bm.num_bits (n % 2 ^ 32) then 0 else n % 2 ^ 32)
  report_clear n small pos t b = elim (Bool-cases (ltb bm.num_bits n)) [
    | inl over ↦ inl (ground (arith, h.bits_fit), λ k lo hi fits. t k lo (ground arith) fits)
    | inr under ↦
        let e : n % 2 ^ 32 ≡ n = ground (arith, h.bits_fit) in
        inr (ground arith, ground arith, ground arith, λ k lo hi fits. t k lo (ground arith) fits)
  ]

  taken_round :
      (n : ℕ)
      → n ≤ 2 ^ 32
      → TakenBelow bm n
      → bit_at bm (n % 2 ^ 32) ≡ true
      → {m : ℕ} → m ≡ n + 1
      → TakenBelow bm m
  taken_round n small t b e i lo hi fits =
      let e' : n % 2 ^ 32 ≡ n = omega (arith, bit_at_pos bm (n % 2 ^ 32) b) in
      take_next n t (rw e' at b) i lo (omega arith) fits

  scan_word_lem :
      (i rounds j : ℕ)
      → j + rounds ≡ 64
      → i < length bm.u64_array
      → TakenBelow bm (i * 64 + j + 1)
      → AfterWord i (scan_word bm i rounds j)
  scan_word_lem i zero j e inside t =
      inl (unfold scan_word in refl, λ k lo hi fits. t k lo (omega arith) fits)
  scan_word_lem i (suc rounds) j e inside t =
      let n = i * 64 + j + 1 in
      let small : n ≤ 2 ^ 32 = omega (arith, h.few_words) in
      elim (Bool-cases (bit_at bm (n % 2 ^ 32))) [
        | inl b ↦
            rw (scan_word_round i rounds j, b)
              (scan_word_lem i rounds (j + 1) (omega arith) inside
                (taken_round n small t b (omega arith)))
        | inr b ↦
            rw (scan_word_round i rounds j, b)
              (inr (_, refl, report_clear n small (omega arith) t b))
      ]

  -- A word of ones is skipped: all its ids are taken.
  skip_full_word :
      (i : ℕ)
      → get_elem? bm.u64_array i ≡ some all_bits_set
      → TakenBelow bm (i * 64 + 1)
      → TakenBelow bm ((i + 1) * 64 + 1)
  unfolding bit_at
  skip_full_word i full t k lo hi fits = elim (Bool-cases (ltb k (i * 64 + 1))) [
    | inl before ↦ t k lo (ground arith) fits
    | inr here ↦
        let e : (k - 1) / 64 ≡ i = ground arith in
        ground (
          arith,
          full,
          ap (get_elem? bm.u64_array) e,
          digit-ones (63 - (k - 1) % 64) 64 (omega arith),
        )
  ]

  module _ (i v : ℕ) (vs : List ℕ) where
    scan_words_full :
        {r : ℕ}
        → (v == all_bits_set) ≡ true
        → scan_words bm (i + 1) vs ≡ some r
        → scan_words bm i (v ∷ vs) ≡ some r
    unfolding scan_words
    scan_words_full full p = rw full p

    scan_words_part :
        {r : ℕ}
        → (v == all_bits_set) ≡ false
        → scan_word bm i 64 0 ≡ some none
        → scan_words bm (i + 1) vs ≡ some r
        → scan_words bm i (v ∷ vs) ≡ some r
    unfolding scan_words
    scan_words_part part e p = ground (arith, part, e, p)

    scan_words_found :
        {r : ℕ}
        → (v == all_bits_set) ≡ false
        → scan_word bm i 64 0 ≡ some (some r)
        → scan_words bm i (v ∷ vs) ≡ some r
    unfolding scan_words
    scan_words_found part e = ground (arith, part, e)

  scan_words_lem :
      (i : ℕ) (vs : List ℕ)
      → ((k : ℕ) → get_elem? vs k ≡ get_elem? bm.u64_array (i + k))
      → i + length vs ≡ length bm.u64_array
      → TakenBelow bm (i * 64 + 1)
      → (r : ℕ) × (scan_words bm i vs ≡ some r) × IsFirstClear bm r
  scan_words_lem i [] suffix len t = (
    0,
    unfold scan_words in refl,
    inl (refl, λ k lo hi fits. t k lo (omega (arith, h.enough_words)) fits),
  )
  scan_words_lem i (v ∷ vs) suffix len t =
      let ws = bm.u64_array in
      let at_i : get_elem? ws i ≡ some v = ap (get_elem? ws) (omega arith) ∙ sym (suffix 0) in
      let later =
        scan_words_lem (i + 1) vs (λ k. suffix (suc k) ∙ ap (get_elem? ws) (omega arith))
          (omega arith) in
      elim (Bool-cases (v == all_bits_set)) [
        | inl full ↦
            let e : v ≡ all_bits_set = (==_iff v all_bits_set).0 full in
            let (r, p, q) = later (skip_full_word i (at_i ∙ ap some e) t) in
            (r, scan_words_full i v vs full p, q)
        | inr part ↦
            elim (scan_word_lem i 64 0 refl (omega arith)
              (λ k lo hi fits. t k lo (omega arith) fits)) [
                | inl (e, t') ↦
                    let (r, p, q) = later (λ k lo hi fits. t' k lo (omega arith) fits) in
                    (r, scan_words_part i v vs part e p, q)
                | inr (r, e, q) ↦ (r, scan_words_found i v vs part e, q)
              ]
      ]

-- On a valid bitmap the search returns without a panic; it returns the smallest free id, or 0 if
-- every id is taken.
pub find_first_clear_lem :
    (bm : Bitmap) → IsValid bm → (r : ℕ) × (find_first_clear bm ≡ some r) × IsFirstClear bm r
unfolding find_first_clear
find_first_clear_lem bm h =
    scan_words_lem bm h 0 bm.u64_array (λ k. ap (get_elem? bm.u64_array) (omega arith))
      (omega arith) (λ k lo hi fits. absurd (omega arith))
