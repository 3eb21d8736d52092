-- ===== src/Agent/Sorting.antt =====
-- insertSortIPAddress and insertSortBridgedInterface: a binary search by sort.Search, and an
-- insertion at the index that it finds.
use mathlib.Core.Path.{subst}
use mathlib.Core.List.{Mem, Permᴰ, mem-cons_self, mem-cons_of_mem}
use mathlib.Core.List.Permᴰ
use sfc_controller.Common.{
  ℕ, zero, suc, ◌+◌, ◌-◌, ◌/◌, ◌≤◌, ◌<◌, ◌≡◌, refl, ◌∙◌, ap, sym, Bool, true, false, none, some,
  List, [], ◌∷◌, ◌++◌, arith, ltb, if◌then◌else◌, Bool-cases, inl, inr, length, get_elem?, take,
  drop, All, Text,
}
use sfc_controller.Common.Order.{text_lt, text_lt_asym, text_lt_antisym, text_le_trans}

-- sort.Search: for i < j { h := (i+j)/2; if !f(h) { i = h+1 } else { j = h } }, on fuel.
unfoldable pub search : ℕ → (ℕ → Bool) → ℕ → ℕ → ℕ
search zero f i j = i
search (suc fuel) f i j =
    let h = (i + j) / 2 in
    let right = search fuel f (h + 1) j in
    let left = search fuel f i h in if ltb i j then (if f h then left else right) else i

-- A test that is false below `b` and true from `b` to `n` is found at `b`, with a round for each
-- index of the range.
pub search_lem :
    (fuel : ℕ) (f : ℕ → Bool) (b n i j : ℕ)
    → ((k : ℕ) → k < b → f k ≡ false)
    → ((k : ℕ) → b ≤ k → k < n → f k ≡ true)
    → i ≤ b
    → b ≤ j
    → j ≤ n
    → j - i ≤ fuel
    → search fuel f i j ≡ b
unfolding search
search_lem zero f b n i j low high h1 h2 h3 h4 = omega arith
search_lem (suc fuel) f b n i j low high h1 h2 h3 h4 = elim (Bool-cases (ltb i j)) [
  | inr done ↦ ground (arith, done)
  | inl go ↦
      let h = (i + j) / 2 in
      elim (Bool-cases (ltb h b)) [
        | inl below ↦
            let no_hit : f h ≡ false = low h (ground (arith, below)) in
            rw (go, no_hit)
              (search_lem fuel f b n (h + 1) j low high (ground (arith, below)) h2 h3
                (ground (arith, go)))
        | inr above ↦
            let hit : f h ≡ true = high h (ground (arith, above)) (ground (arith, go)) in
            rw (go, hit)
              (search_lem fuel f b n i h low high h1 (ground (arith, above)) (ground (arith, go))
                (ground (arith, go)))
      ]
]

module _ {A : Type 0} (key : A → Text) where
  -- data[i] > el; sort.Search asks only for indices of the list.
  abbrev pub is_after : List A → A → ℕ → Bool
  is_after data' el i = elim (get_elem? data' i) [
    | none ↦ false
    | some d ↦ text_lt (key el) (key d)
  ]

  unfoldable pub insert_sort : List A → A → List A
  insert_sort data' el =
      let index = search (length data') (is_after data' el) 0 (length data') in
      take index data' ++ el ∷ drop index data'

  unfoldable pub insert_all : List A → List A → List A
  insert_all data' [] = data'
  insert_all data' (el ∷ rest) = insert_all (insert_sort data' el) rest

  -- Each item is at most the later ones.
  abbrev pub IsSorted : List A → Type 0
  IsSorted [] = Unit
  IsSorted (d ∷ ds) = All (λ e. text_lt (key e) (key d) ≡ false) ds × IsSorted ds

  -- The insertion behind the items that are at most as large.
  abbrev ins : A → List A → List A
  ins el [] = el ∷ []
  ins el (d ∷ ds) = if text_lt (key el) (key d) then el ∷ d ∷ ds else d ∷ ins el ds

  abbrev lead : A → List A → ℕ
  lead el [] = 0
  lead el (d ∷ ds) = if text_lt (key el) (key d) then 0 else suc (lead el ds)

  lead-le : (el : A) (ds : List A) → lead el ds ≤ length ds
  lead-le el [] = omega arith
  lead-le el (d ∷ ds) = ground (arith, lead-le el ds)

  ins_at_lead :
      (el : A) (ds : List A) → take (lead el ds) ds ++ el ∷ drop (lead el ds) ds ≡ ins el ds
  ins_at_lead el [] = refl
  ins_at_lead el (d ∷ ds) = elim (Bool-cases (text_lt (key el) (key d))) [
    | inl e ↦ rw e refl
    | inr e ↦ rw e (ap (λ r. d ∷ r) (ins_at_lead el ds))
  ]

  before_lead : (el : A) (ds : List A) (k : ℕ) → k < lead el ds → is_after ds el k ≡ false
  before_lead el [] k h = refl
  before_lead el (d ∷ ds) zero h = ground (arith, h)
  before_lead el (d ∷ ds) (suc k) h = ground (arith, h, before_lead el ds k)

  All-after :
      (el : A) (ds : List A) (k : ℕ)
      → All (λ e. text_lt (key el) (key e) ≡ true) ds
      → k < length ds
      → is_after ds el k ≡ true
  All-after el [] k a h = absurd (omega arith)
  All-after el (d ∷ ds) zero a h = a.0
  All-after el (d ∷ ds) (suc k) a h = All-after el ds k a.1 (omega arith)

  larger :
      (el d : A) (ds : List A)
      → text_lt (key el) (key d) ≡ true
      → All (λ e. text_lt (key e) (key d) ≡ false) ds
      → All (λ e. text_lt (key el) (key e) ≡ true) ds
  larger el d [] h a = tt
  larger el d (e ∷ ds) h a =
      (ground (arith, h, a.0, text_le_trans (key d) (key e) (key el)), larger el d ds h a.1)

  from_lead :
      (el : A) (ds : List A) (k : ℕ)
      → IsSorted ds
      → lead el ds ≤ k
      → k < length ds
      → is_after ds el k ≡ true
  from_lead el [] k s h l = absurd (omega arith)
  from_lead el (d ∷ ds) zero s h l = ground (arith, h)
  from_lead el (d ∷ ds) (suc k) s h l = elim (Bool-cases (text_lt (key el) (key d))) [
    | inl e ↦ All-after el ds k (larger el d ds e s.0) (omega arith)
    | inr e ↦ from_lead el ds k s.1 (ground (arith, e, h)) (omega arith)
  ]

  -- On a sorted list the binary search inserts where a search from the front does.
  pub insert_sort-ins : (ds : List A) (el : A) → IsSorted ds → insert_sort ds el ≡ ins el ds
  unfolding insert_sort
  insert_sort-ins ds el s =
      let e : search (length ds) (is_after ds el) 0 (length ds) ≡ lead el ds =
        search_lem (length ds) (is_after ds el) (lead el ds) (length ds) 0 (length ds)
          (before_lead el ds) (λ k h l. from_lead el ds k s h l) (omega arith) (lead-le el ds)
          (omega arith) (omega arith) in
      rw e (ins_at_lead el ds)

  ins-All : (P : A → Type 0) (el : A) (ds : List A) → P el → All P ds → All P (ins el ds)
  ins-All P el [] p a = (p, tt)
  ins-All P el (d ∷ ds) p a = elim (Bool-cases (text_lt (key el) (key d))) [
    | inl e ↦ rw e (p, a)
    | inr e ↦ rw e (a.0, ins-All P el ds p a.1)
  ]

  All-map : {P Q : A → Type 0} (ds : List A) → ((d : A) → P d → Q d) → All P ds → All Q ds
  All-map [] f a = tt
  All-map (d ∷ ds) f a = (f d a.0, All-map ds f a.1)

  ins-IsSorted : (el : A) (ds : List A) → IsSorted ds → IsSorted (ins el ds)
  ins-IsSorted el [] s = (tt, tt)
  ins-IsSorted el (d ∷ ds) s = elim (Bool-cases (text_lt (key el) (key d))) [
    | inl e ↦ rw e (
      (
        (text_lt_asym (key el) (key d) e),
        All-map ds (λ x lt. text_lt_asym (key el) (key x) lt) (larger el d ds e s.0),
      ),
      s,
    )
    | inr e ↦
        rw e (ins-All (λ x. text_lt (key x) (key d) ≡ false) el ds e s.0, ins-IsSorted el ds s.1)
  ]

  ins_comm_lt :
      (x y : A) (ds : List A) → text_lt (key x) (key y) ≡ true → ins x (ins y ds) ≡ ins y (ins x ds)
  ins_comm_lt x y [] h = ground (arith, h, text_lt_asym (key x) (key y))
  ins_comm_lt x y (d ∷ ds) h = ground (
    arith,
    h,
    text_lt_asym (key x) (key y),
    text_le_trans (key d) (key x) (key y),
    ins_comm_lt x y ds h,
  )

  -- Two insertions commute if equal texts are those of equal items.
  ins_comm : (x y : A) (ds : List A) → (key x ≡ key y → x ≡ y) → ins x (ins y ds) ≡ ins y (ins x ds)
  ins_comm x y ds same = elim (Bool-cases (text_lt (key x) (key y))) [
    | inl e ↦ ins_comm_lt x y ds e
    | inr e ↦ elim (Bool-cases (text_lt (key y) (key x))) [
      | inl e' ↦ sym (ins_comm_lt y x ds e')
      | inr e' ↦
          let xy : x ≡ y = same (text_lt_antisym (key x) (key y) e e') in
          subst (λ z. ins x (ins z ds) ≡ ins z (ins x ds)) xy refl
    ]
  ]

  insert_all_step :
      (ds : List A) (el : A) (els : List A)
      → insert_all ds (el ∷ els) ≡ insert_all (insert_sort ds el) els
  insert_all_step ds el els = unfold insert_all in refl

  -- Items of the list with the same text are the same.
  abbrev pub IsKeyed : List A → Type 0
  IsKeyed xs = (x y : A) → Mem x xs → Mem y xs → key x ≡ key y → x ≡ y

  insert_sort-IsSorted : (ds : List A) (el : A) → IsSorted ds → IsSorted (insert_sort ds el)
  insert_sort-IsSorted ds el s =
      subst IsSorted (sym (insert_sort-ins ds el s)) (ins-IsSorted el ds s)

  insert_sort_comm :
      (x y : A) (ds : List A)
      → IsSorted ds
      → (key x ≡ key y → x ≡ y)
      → insert_sort (insert_sort ds x) y ≡ insert_sort (insert_sort ds y) x
  insert_sort_comm x y ds s same =
      insert_sort-ins (insert_sort ds x) y (insert_sort-IsSorted ds x s)
      ∙ ap (ins y) (insert_sort-ins ds x s)
      ∙ sym (ins_comm x y ds same)
      ∙ sym (ap (ins x) (insert_sort-ins ds y s))
      ∙ sym (insert_sort-ins (insert_sort ds y) x (insert_sort-IsSorted ds y s))

  -- All insertions of a list leave a sorted list.
  pub insert_all-IsSorted : (ds els : List A) → IsSorted ds → IsSorted (insert_all ds els)
  insert_all-IsSorted ds [] s = unfold insert_all in s
  insert_all-IsSorted ds (el ∷ els) s =
      subst IsSorted (sym (insert_all_step ds el els))
        (insert_all-IsSorted (insert_sort ds el) els (insert_sort-IsSorted ds el s))

  -- The order in which items are inserted does not matter.
  pub insert_all-perm :
      (ds : List A) {xs ys : List A}
      → Permᴰ xs ys
      → IsSorted ds
      → IsKeyed xs
      → insert_all ds xs ≡ insert_all ds ys
  insert_all-perm ds Permᴰ.nil s k = refl
  insert_all-perm ds (Permᴰ.cons {a} {b} {l₁} {l₂} e p) s k =
      insert_all_step ds a l₁
      ∙ insert_all-perm (insert_sort ds a) p (insert_sort-IsSorted ds a s)
          (λ x y m n. k x y (mem-cons_of_mem a m) (mem-cons_of_mem a n))
      ∙ ap (λ c. insert_all (insert_sort ds c) l₂) e
      ∙ sym (insert_all_step ds b l₂)
  insert_all-perm ds (Permᴰ.swap {a} {b} {a'} {b'} {l} e e') s k =
      insert_all_step ds a (b ∷ l)
      ∙ insert_all_step (insert_sort ds a) b l
      ∙ ap (λ r. insert_all r l)
          (insert_sort_comm a b ds s (k a b mem-cons_self (mem-cons_of_mem a mem-cons_self)))
      ∙ ap (λ c. insert_all (insert_sort (insert_sort ds c) a) l) e'
      ∙ ap (λ c. insert_all (insert_sort (insert_sort ds a') c) l) e
      ∙ sym (insert_all_step (insert_sort ds a') b' l)
      ∙ sym (insert_all_step ds a' (b' ∷ l))
  insert_all-perm ds (Permᴰ.trans {l₁} {l₂} {l₃} p q) s k =
      insert_all-perm ds p s k
      ∙ insert_all-perm ds q s
          (λ x y m n. k x y (Permᴰ.mem (Permᴰ.symm p) m) (Permᴰ.mem (Permᴰ.symm p) n))

  split_at : (i : ℕ) (ds : List A) → take i ds ++ drop i ds ≡ ds
  split_at zero ds = refl
  split_at (suc i) [] = refl
  split_at (suc i) (d ∷ ds) = ap (λ r. d ∷ r) (split_at i ds)

  insert_sort-content : (ds : List A) (el : A) → Permᴰ (insert_sort ds el) (el ∷ ds)
  unfolding insert_sort
  insert_sort-content ds el =
      let index = search (length ds) (is_after ds el) 0 (length ds) in
      subst (λ r. Permᴰ (insert_sort ds el) (el ∷ r)) (split_at index ds)
        (Permᴰ.middle el (take index ds) (drop index ds))

  -- Insertions lose and make up nothing.
  pub insert_all-content : (ds els : List A) → Permᴰ (insert_all ds els) (ds ++ els)
  insert_all-content ds [] = unfold insert_all in Permᴰ.symm (Permᴰ.append-nil ds)
  insert_all-content ds (el ∷ els) =
      subst (λ r. Permᴰ r (ds ++ el ∷ els)) (sym (insert_all_step ds el els))
        (Permᴰ.trans (insert_all-content (insert_sort ds el) els) (
          Permᴰ.trans (Permᴰ.append_right els (insert_sort-content ds el))
            (Permᴰ.symm (Permᴰ.middle el ds els))))
