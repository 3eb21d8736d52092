-- ===== src/Ids/Examples.antt =====
-- Tests of the counters, and their theorems at small ids.
use sfc_controller.Common.{ℕ, ◌+◌, ◌≡◌, refl, codes, arith}
use sfc_controller.Ids.{
  allocate_memif, allocate_vrf, set_vrf_allocator_initial_value, format_mac_address,
}
use sfc_controller.Ids.Macs.{
  format_mac_address_injective, allocate_mac_addr_distinct, allocate_twice,
}

format_test : format_mac_address 0x12AB ≡ codes "02:00:00:00:12:AB"
unfolding format_mac_address
format_test = refl

abbrev three : ℕ
three = 3

format_mac_address_injective_example : three ≡ three
format_mac_address_injective_example =
    format_mac_address_injective three three (omega arith) (omega arith) refl

allocate_mac_addr_distinct_test : three ≡ three
allocate_mac_addr_distinct_test =
    allocate_mac_addr_distinct three three (omega arith) (omega arith) refl

allocate_twice_test :
    let (m1, a) = allocate_memif (record { memif_id = 4 }) in
    let (m2, b) = allocate_memif m1 in
    let (v1, c) = allocate_vrf (set_vrf_allocator_initial_value 10 (record { vrf_id = 0 })) in
    let (v2, d) = allocate_vrf v1 in (a ≡ 4 + 1) × (b ≡ 4 + 2) × (c ≡ 10) × (d ≡ 10 + 1)
allocate_twice_test =
    allocate_twice (record { memif_id = 4 }) (record { vrf_id = 0 }) 10 (omega arith) (omega arith)
