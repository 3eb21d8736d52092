-- ===== src/Vni/Examples.antt =====
-- Tests of the allocator of VXLAN ids, and its theorems at the range 5000 to 5002.
use sfc_controller.Common.{ℕ, ◌≡◌, ◌⊎◌, true, false, none, some, [], ◌∷◌, arith}
use sfc_controller.Vni.{
  VniAllocator, vni_out_of_range, outside, set_vni, allocate_vni, new_vni_allocator,
}
use sfc_controller.Vni.Range.{
  IsValid, taken, IsTake, Allocates, allocate_vni_lem, set_vni_lem, new_vni_allocator_lem,
}
use sfc_controller.Vni.Order.{allocate_times, allocate_times_new}

abbrev three : VniAllocator
three = new_vni_allocator 5000 5002

three-IsValid : IsValid three
three-IsValid = (new_vni_allocator_lem 5000 5002 (omega arith) (omega arith) (omega arith)).0

new_vni_allocator_lem_test : IsValid three × ((w : ℕ) → taken three w ≡ false)
new_vni_allocator_lem_test =
    new_vni_allocator_lem 5000 5002 (omega arith) (omega arith) (omega arith)

allocate_vni_lem_example : Allocates three three-IsValid (allocate_vni three)
allocate_vni_lem_example = allocate_vni_lem three three-IsValid

set_vni_lem_test :
    ((outside three 5001 ≡ true)
      × (set_vni three 5001
          ≡ some (three, some (vni_out_of_range 5001 three.start_vni three.end_vni))))
    ⊎ ((v' : VniAllocator) × (outside three 5001 ≡ false)
        × (set_vni three 5001 ≡ some (v', none))
        × IsTake three 5001 v')
set_vni_lem_test = set_vni_lem three 5001 three-IsValid

allocate_times_new_example :
    (v' : VniAllocator) × (allocate_times 5 (new_vni_allocator 5000 5002)
      ≡ some (v', some 5000 ∷ some 5001 ∷ some 5002 ∷ none ∷ none ∷ []))
allocate_times_new_example =
    allocate_times_new 5000 5002 5 (omega arith) (omega arith) (omega arith)
