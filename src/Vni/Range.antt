-- ===== src/Vni/Range.antt =====
-- The allocator as a set of taken ids in a range: SetVni, AllocateVni and the order of allocation.
use sfc_controller.Common.{
  ℕ, ◌+◌, ◌-◌, ◌%◌, ◌^◌, ◌≤◌, ◌<◌, ◌≡◌, refl, ◌∙◌, ◌⊎◌, inl, inr, Bool, true, false, Option, none,
  some, arith, ◌==◌, if◌then◌else◌, Bool-cases,
}
use sfc_controller.Bitmap.{Bitmap, find_first_clear, new_bitmap, out_of_range}
use sfc_controller.Bitmap.View
use sfc_controller.Bitmap.View.{bit_at, bit_at-out_of_range}
use sfc_controller.Bitmap.Updates.{IsUpdate, set_bit_lem, new_bitmap_lem}
use sfc_controller.Bitmap.Search.{find_first_clear_lem}
use sfc_controller.Vni.{
  VniAllocator, outside, bit_of, set_vni, allocate_vni, new_vni_allocator, vni_out_of_range,
}

-- A range of ids that starts at 1 or later, as a validated overlay has, with a bitmap of its size.
pub record IsValid (v : VniAllocator) : Type 0 where
  pub starts : 1 ≤ v.start_vni
  pub ordered : v.start_vni ≤ v.end_vni
  pub ends : v.end_vni < 2 ^ 32
  pub bitmap : View.IsValid v.bm
  pub sized : v.bm.num_bits ≡ v.end_vni - v.start_vni + 1

-- Whether an id is taken; no id outside the range is.
unfoldable pub taken : VniAllocator → ℕ → Bool
taken v vni = if outside v vni then false else bit_at v.bm (vni - v.start_vni + 1)

-- `v'` has the range of `v` and its taken ids, and `vni` besides.
pub record IsTake (v : VniAllocator) (vni : ℕ) (v' : VniAllocator) : Type 0 where
  pub valid : IsValid v'
  pub same_start : v'.start_vni ≡ v.start_vni
  pub same_end : v'.end_vni ≡ v.end_vni
  pub view : (w : ℕ) → taken v' w ≡ (if vni == w then true else taken v w)

module _ (v : VniAllocator) (h : IsValid v) where
  set_bit-IsTake :
      (vni : ℕ) (b : Bitmap)
      → outside v vni ≡ false
      → IsUpdate v.bm (vni - v.start_vni + 1) true b
      → IsTake v vni (record v { bm = b })
  unfolding taken
  set_bit-IsTake vni b e u = record {
    valid = record {
      starts = h.starts;
      ordered = h.ordered;
      ends = h.ends;
      bitmap = u.valid;
      sized = u.same_size ∙ h.sized;
    };
    same_start = refl;
    same_end = refl;
    view = λ w. ground (arith, u.view (w - v.start_vni + 1));
  }

  inside_bit : (vni : ℕ) → outside v vni ≡ false → out_of_range v.bm (vni - v.start_vni + 1) ≡ false
  inside_bit vni e = ground (arith, h.sized, h.ordered)

  set_inside :
      (vni : ℕ)
      → outside v vni ≡ false
      → (v' : VniAllocator) × (set_vni v vni ≡ some (v', none)) × IsTake v vni v'
  set_inside vni e =
      let i = vni - v.start_vni + 1 in
      let same : bit_of v vni ≡ i = ground (arith, h.ends, h.ordered) in
      let (b, p, u) = set_bit_lem v.bm i h.bitmap in
      let r = inside_bit vni e in
      (
        record v { bm = b },
        unfold set_vni in rw (e, same, p, r),
        set_bit-IsTake vni b e (rw r at u),
      )

  -- The least free id, or none: what AllocateVni finds.
  abbrev pub Allocates : Option (VniAllocator × Option ℕ) → Type 0
  Allocates r =
      ((r ≡ some (v, none)) × ((w : ℕ) → outside v w ≡ false → taken v w ≡ true))
      ⊎ ((v' : VniAllocator) × (vni : ℕ) × (r ≡ some (v', some vni))
          × (outside v vni ≡ false)
          × (taken v vni ≡ false)
          × ((w : ℕ) → outside v w ≡ false → w < vni → taken v w ≡ true)
          × IsTake v vni v')

  none_free :
      find_first_clear v.bm ≡ some 0
      → ((i : ℕ) → 1 ≤ i → i < v.bm.num_bits + 1 → i ≤ v.bm.num_bits → bit_at v.bm i ≡ true)
      → Allocates (allocate_vni v)
  unfolding taken
  none_free e full = inl (
    unfold allocate_vni in rw (e, allocate_vni),
    λ w inside. rw inside (
        full (w - v.start_vni + 1) (omega arith) (ground (arith, h.sized))
          (ground (arith, h.sized))),
  )

  one_free :
      (r : ℕ)
      → find_first_clear v.bm ≡ some r
      → 1 ≤ r
      → r ≤ v.bm.num_bits
      → bit_at v.bm r ≡ false
      → ((i : ℕ) → 1 ≤ i → i < r → i ≤ v.bm.num_bits → bit_at v.bm i ≡ true)
      → Allocates (allocate_vni v)
  one_free r e lo hi free lower =
      let vni = r + v.start_vni - 1 in
      let (b, p, u) = set_bit_lem v.bm r h.bitmap in
      let i = out_of_range v.bm r in
      let inside : outside v vni ≡ false = ground (arith, h.sized, h.ordered) in
      let back : vni - v.start_vni + 1 ≡ r = omega arith in
      let in_range : out_of_range v.bm r ≡ false = ground arith in
      let wrap : (r + v.start_vni + 2 ^ 32 - 1) % 2 ^ 32 ≡ vni =
        omega (arith, h.sized, h.ordered, h.ends) in
      let nonzero : (r == 0) ≡ false = ground arith in
      inr (
        record v { bm = b },
        vni,
        unfold allocate_vni in ground (arith, e, p, wrap),
        inside,
        unfold taken in rw (inside, back) free,
        λ w ins below.
            unfold taken in
            (rw ins
              (lower (w - v.start_vni + 1) (omega arith) (ground arith) (ground (arith, h.sized)))),
        set_bit-IsTake vni b inside (rw back (rw in_range at u)),
      )

-- AllocateVni on a valid allocator never panics. Either every id of the range is taken, it reports
-- that and changes nothing; or it returns the smallest free id of the range, which it takes, and
-- leaves every other id as it was.
pub allocate_vni_lem : (v : VniAllocator) (h : IsValid v) → Allocates v h (allocate_vni v)
allocate_vni_lem v h =
    let (r, e, first) = find_first_clear_lem v.bm h.bitmap in
    elim first [
      | inl (zero_free, full) ↦ none_free v h (rw zero_free at e) full
      | inr (lo, hi, free, lower) ↦ one_free v h r e lo hi free lower
    ]

-- SetVni on a valid allocator never panics: in the range it takes the id and no other, and returns
-- no error; out of the range it returns the error and changes nothing.
pub set_vni_lem :
    (v : VniAllocator) (vni : ℕ)
    → IsValid v
    → ((outside v vni ≡ true)
        × (set_vni v vni ≡ some (v, some (vni_out_of_range vni v.start_vni v.end_vni))))
      ⊎ ((v' : VniAllocator) × (outside v vni ≡ false)
          × (set_vni v vni ≡ some (v', none))
          × IsTake v vni v')
set_vni_lem v vni h = elim (Bool-cases (outside v vni)) [
  | inl e ↦ inl (e, unfold set_vni in rw e refl)
  | inr e ↦ let (v', p, t) = set_inside v h vni e in inr (v', e, p, t)
]

-- A new allocator over a range from 1 on is valid and has no taken id.
pub new_vni_allocator_lem :
    (s e : ℕ)
    → 1 ≤ s
    → s ≤ e
    → e < 2 ^ 32
    → IsValid (new_vni_allocator s e) × ((w : ℕ) → taken (new_vni_allocator s e) w ≡ false)
unfolding new_vni_allocator taken
new_vni_allocator_lem s e lo le hi =
    let n = (e + 2 ^ 32 - s + 1) % 2 ^ 32 in
    let size : n ≡ e - s + 1 = omega arith in
    let (valid, empty) = new_bitmap_lem n (omega arith) (omega arith) in
    (
      record {
        starts = lo;
        ordered = le;
        ends = hi;
        bitmap = valid;
        sized = unfold new_bitmap in size;
      },
      λ w. ground (arith, empty (w - s + 1)),
    )
