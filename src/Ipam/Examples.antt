-- ===== src/Ipam/Examples.antt =====
-- Tests of the allocator of addresses, and its theorems at small pools on 10.0.0.0/30.
use sfc_controller.Common.{
  ℕ, ◌≡◌, ◌↔◌, refl, ◌⊎◌, true, false, some, [], ◌∷◌, arith, ◌+◌, ◌-◌, ◌≤◌, ◌<◌, ◌^◌, Text, codes,
}
use sfc_controller.Common.Decimals.{decimal}
use sfc_controller.Common.Sets.{member, add, IsWithin}
use sfc_controller.Ipam.{
  PoolAllocator, Cidr, Ip, ok, err, no_more_addresses, address_u32, format_ip_address, out_of_range,
  allocate_ip_address, contains, set_ip_addr_if_inside_pool, first_id, last_id, new_pool_allocator,
}
use sfc_controller.Ipam.Pool.{
  IsValid, Outcome, allocate_ip_address_lem, allocate_ip_address_complete,
}
use sfc_controller.Ipam.Address.{IsNetwork, set_ip_addr_if_inside_pool-address_u32}
use sfc_controller.Ipam.Fresh.{
  new_pool_allocator_lem, default_range_lem, host_route_leaves_network, static_addresses_fill_pool,
}

abbrev name : Text
name = codes "pool"

abbrev network : Text
network = codes "10.0.0.0/30"

-- A pool on 10.0.0.0/30 with the ids 1 and 2, of which 2 is taken.
abbrev pool : PoolAllocator
pool = record {
  name = name;
  start_range = 1;
  end_range = 2;
  next_in_range = 2;
  total_in_range = 2;
  network = network;
  ip_networku32 = 0x0A000000;
  ip_masku32 = 0xFFFFFFFC;
  num_bits_in_mask = 30;
  allocated = 2 ∷ [];
}

format_test : format_ip_address pool 1 ≡ codes "10.0.0.1/30"
unfolding format_ip_address decimal
format_test = refl

pool-IsValid : IsValid pool
pool-IsValid = record {
  ordered = omega arith;
  ends = omega arith;
  next_from = omega arith;
  next_to = omega arith;
  sized = refl;
  no_repeats = (unfold member in refl, tt);
}

allocate_ip_address_lem_example : Outcome pool (allocate_ip_address 4 pool)
allocate_ip_address_lem_example = allocate_ip_address_lem 4 pool pool-IsValid (omega arith)

pool-IsWithin : IsWithin pool.start_range pool.total_in_range pool.allocated
pool-IsWithin = (omega arith, omega arith, tt)

set_ip_addr_if_inside_pool-address_u32_example :
    (pool.ip_networku32 ≤ address_u32 pool 3)
    × (address_u32 pool 3 < pool.ip_networku32 + 2 ^ 2)
    × (set_ip_addr_if_inside_pool pool (some (Ip.v4 (address_u32 pool 3)))
        ≡ record pool { allocated = add 3 pool.allocated })
set_ip_addr_if_inside_pool-address_u32_example =
    set_ip_addr_if_inside_pool-address_u32 pool 2 0x02800000
      (record { hosts = omega arith; fits = omega arith; base = refl; mask = refl }) 3 (omega arith)

new_pool_allocator_lem_example :
    (p : PoolAllocator) × (new_pool_allocator name 0 0 network (some (Cidr.v4 0x0A000001 30))
      ≡ some p)
    × IsValid p
    × IsNetwork p 2 0x02800000
    × (p.start_range ≡ 1)
    × (p.end_range ≡ 2)
    × (p.allocated ≡ [])
new_pool_allocator_lem_example =
    new_pool_allocator_lem name network 0 0 0x0A000001 30 (omega arith) (omega arith) (omega arith)
      (omega arith)

default_range_lem_test :
    ((first_id 0 ≤ 6) × (6 ≤ last_id 0 29)) ↔ ((0 < 6) × (6 + 1 < 2 ^ (32 - 29)))
default_range_lem_test = default_range_lem 29 6 (omega arith)

host_route_leaves_network_example :
    (p p' : PoolAllocator) × (new_pool_allocator name 0 0 network (some (Cidr.v4 0x0A000000 32))
      ≡ some p)
    × (p.end_range ≡ 2 ^ 32 - 1)
    × (allocate_ip_address 1 p ≡ some (p', ok (format_ip_address p 1, 1)))
    × (contains p (address_u32 p 1) ≡ false)
host_route_leaves_network_example =
    host_route_leaves_network name network 0x0A000000 0 (omega arith) refl

allocate_ip_address_complete_example :
    ((allocate_ip_address 4 pool ≡ some (pool, err (no_more_addresses name)))
      × ((i : ℕ) → 1 ≤ i → i < 3 → member i pool.allocated ≡ true))
    ⊎ ((p' : PoolAllocator) × (id : ℕ) × (allocate_ip_address 4 pool
          ≡ some (p', ok (format_ip_address pool id, id)))
        × (out_of_range pool id ≡ false)
        × (member id pool.allocated ≡ false))
allocate_ip_address_complete_example =
    allocate_ip_address_complete 4 pool pool-IsValid (omega arith) pool-IsWithin

static_addresses_fill_pool_example :
    (p : PoolAllocator) × (new_pool_allocator name 0 0 network (some (Cidr.v4 0x0A000000 30))
      ≡ some p)
    × (let register = λ (q : PoolAllocator) (id : ℕ).
          set_ip_addr_if_inside_pool q (some (Ip.v4 (address_u32 p id))) in
        let full = register (register p 3) 0 in
        (allocate_ip_address 1 full ≡ some (full, err (no_more_addresses name)))
        × (p.start_range ≡ 1)
        × (p.end_range ≡ 2)
        × (member 1 full.allocated ≡ false)
        × (member 2 full.allocated ≡ false))
static_addresses_fill_pool_example =
    static_addresses_fill_pool name network 0x0A000000 1 (omega arith)
