-- ===== src/Vni/Order.antt =====
-- The ids that a new allocator hands out, in order, until the range is used up.
use mathlib.Core.Option
use sfc_controller.Common.{
  ℕ, zero, suc, ◌+◌, ◌^◌, ◌≤◌, ◌<◌, ◌≡◌, refl, ◌∙◌, inl, inr, true, false, Option, none, some, List,
  [], ◌∷◌, map, arith, ltb, leb, if◌then◌else◌,
}
use sfc_controller.Vni.{VniAllocator, outside, allocate_vni, new_vni_allocator}
use sfc_controller.Vni.Range.{IsValid, IsTake, taken, allocate_vni_lem, new_vni_allocator_lem}

-- The results of `n` calls of AllocateVni one after the other; `none` is a panic.
unfoldable pub allocate_times : ℕ → VniAllocator → Option (VniAllocator × List (Option ℕ))
allocate_times zero v = some (v, [])
allocate_times (suc n) v = elim (allocate_vni v) [
  | none ↦ none
  | some (v', r) ↦ Option.map (λ (w, rs). (w, r ∷ rs)) (allocate_times n v')
]

abbrev pub count_up : ℕ → ℕ → List ℕ
count_up zero w = []
count_up (suc n) w = w ∷ count_up n (w + 1)

abbrev pub up_to : ℕ → ℕ → Option ℕ
up_to e w = if leb w e then some w else none

-- The ids below the cursor `c` are taken, and no other.
record TakenTo (s e c : ℕ) (v : VniAllocator) : Type 0 where
  valid : IsValid v
  start : v.start_vni ≡ s
  end' : v.end_vni ≡ e
  from : s ≤ c
  view : (w : ℕ) → outside v w ≡ false → taken v w ≡ ltb w c

module _ (s e : ℕ) where
  abbrev Next : ℕ → VniAllocator → Type 0
  Next c v = (v' : VniAllocator) × (allocate_vni v ≡ some (v', up_to e c)) × TakenTo s e (c + 1) v'

  used_up :
      (c : ℕ) (v : VniAllocator)
      → TakenTo s e c v
      → allocate_vni v ≡ some (v, none)
      → ((w : ℕ) → outside v w ≡ false → taken v w ≡ true)
      → Next c v
  used_up c v t p full =
      let past : leb c e ≡ false = ground (arith, t.start, t.end', t.from, full c, t.view c) in
      (
        v,
        rw past p,
        record {
          valid = t.valid;
          start = t.start;
          end' = t.end';
          from = omega (arith, t.from);
          view = λ w ins. ground (arith, t.start, t.end', full w ins);
        },
      )

  found :
      (c : ℕ) (v v' : VniAllocator) (vni : ℕ)
      → TakenTo s e c v
      → allocate_vni v ≡ some (v', some vni)
      → outside v vni ≡ false
      → taken v vni ≡ false
      → ((w : ℕ) → outside v w ≡ false → w < vni → taken v w ≡ true)
      → IsTake v vni v'
      → Next c v
  found c v v' vni t p ins free lower k =
      let low : c ≤ vni = ground (arith, t.view vni ins) in
      let high : vni ≤ c = ground (arith, t.start, t.end', t.from, t.view c, lower c) in
      let here : vni ≡ c = omega arith in
      let fits : leb c e ≡ true = ground (arith, t.end') in
      (
        v',
        rw (fits, ← here) p,
        record {
          valid = k.valid;
          start = k.same_start ∙ t.start;
          end' = k.same_end ∙ t.end';
          from = omega (arith, t.from);
          view = λ w ins'. ground (arith, k.view w, k.same_start, k.same_end, t.view w);
        },
      )

  next : (c : ℕ) (v : VniAllocator) → TakenTo s e c v → Next c v
  next c v t = elim (allocate_vni_lem v t.valid) [
    | inl (p, full) ↦ used_up c v t p full
    | inr (v', vni, p, ins, free, lower, k) ↦ found c v v' vni t p ins free lower k
  ]

  allocate_times_step :
      (n : ℕ) (v v' w : VniAllocator) (r : Option ℕ) (rs : List (Option ℕ))
      → allocate_vni v ≡ some (v', r)
      → allocate_times n v' ≡ some (w, rs)
      → allocate_times (suc n) v ≡ some (w, r ∷ rs)
  unfolding allocate_times
  allocate_times_step n v v' w r rs p q = ground (arith, p, q)

  allocate_times_from :
      (n c : ℕ) (v : VniAllocator)
      → TakenTo s e c v
      → (v' : VniAllocator) × (allocate_times n v ≡ some (v', map (up_to e) (count_up n c)))
  allocate_times_from zero c v t = (v, unfold allocate_times in refl)
  allocate_times_from (suc n) c v t =
      let (v', p, t') = next c v t in
      let (w, q) = allocate_times_from n (c + 1) v' t' in (w, allocate_times_step n v v' w _ _ p q)

-- However often AllocateVni is called on a new allocator over the range `s` to `e`, where
-- 1 ≤ s ≤ e < 2 ^ 32, it does not panic: the calls return s, s + 1, ..., e in that order, and after that report that all ids are
-- allocated. So no id is handed out twice, and none outside the range.
pub allocate_times_new :
    (s e n : ℕ)
    → 1 ≤ s
    → s ≤ e
    → e < 2 ^ 32
    → (v' : VniAllocator) × (allocate_times n (new_vni_allocator s e)
        ≡ some (v', map (up_to e) (count_up n s)))
allocate_times_new s e n lo le hi =
    let (valid, empty) = new_vni_allocator_lem s e lo le hi in
    allocate_times_from s e n s (new_vni_allocator s e) (record {
      valid = valid;
      start = unfold new_vni_allocator in refl;
      end' = unfold new_vni_allocator in refl;
      from = omega arith;
      view = λ w ins. unfold new_vni_allocator in ground (arith, empty w);
    })
