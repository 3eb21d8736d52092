-- ===== src/Vni.antt =====
-- plugins/controller/idapi/vxlan.go: the allocator of VXLAN network ids, over a bitmap.
-- `none` is a run-time panic; an operation gives the allocator after the call and its result.
pub mod Range
pub mod Order
mod Examples
use mathlib.Core.Option
use sfc_controller.Common.{
  ℕ, ◌+◌, ◌-◌, ◌%◌, ◌^◌, Bool, ◌||◌, Option, none, some, ltb, ◌==◌, if◌then◌else◌,
}
use sfc_controller.Bitmap
use sfc_controller.Bitmap.{Bitmap, find_first_clear, set_bit, new_bitmap}

pub record VniAllocator : Type 0 where
  pub start_vni : ℕ
  pub end_vni : ℕ
  pub num_bits : ℕ
  pub bm : Bitmap

pub data Error : Type 0 where
  vni_out_of_range : ℕ → ℕ → ℕ → Error
  bitmap_error : Bitmap.Error → Error

abbrev pub outside : VniAllocator → ℕ → Bool
outside v vni = ltb vni v.start_vni || ltb v.end_vni vni

-- vni - v.StartVni + 1, modulo 2 ^ 32
abbrev pub bit_of : VniAllocator → ℕ → ℕ
bit_of v vni = (vni + 2 ^ 32 - v.start_vni + 1) % 2 ^ 32

unfoldable pub set_vni : VniAllocator → ℕ → Option (VniAllocator × Option Error)
set_vni v vni =
    if outside v vni
    then some (v, some (vni_out_of_range vni v.start_vni v.end_vni))
    else Option.map (λ (b, e). (record v { bm = b }, Option.map bitmap_error e))
        (set_bit v.bm (bit_of v vni))

-- The second result is the allocated id, or `none` for "all vni's allocated". The error of Set is
-- dropped by the source.
unfoldable pub allocate_vni : VniAllocator → Option (VniAllocator × Option ℕ)
allocate_vni v = elim (find_first_clear v.bm) [
  | none ↦ none
  | some free_bit ↦
      if free_bit == 0
      then some (v, none)
      else Option.map
          (λ (b, e). (record v { bm = b }, some ((free_bit + v.start_vni + 2 ^ 32 - 1) % 2 ^ 32)))
          (set_bit v.bm free_bit)
]

-- The arithmetic is that of uint32.
unfoldable pub new_vni_allocator : ℕ → ℕ → VniAllocator
new_vni_allocator start_vni end_vni =
    let num_bits = (end_vni + 2 ^ 32 - start_vni + 1) % 2 ^ 32 in
    record {
      start_vni = start_vni;
      end_vni = end_vni;
      num_bits = num_bits;
      bm = new_bitmap num_bits;
    }
