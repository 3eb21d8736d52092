-- ===== src/Ipam/Fresh.antt =====
-- Pools as NewIPAMPoolAllocator makes them: the ranges that it allows, and two kinds of pool whose
-- allocator leaves its network or gives up while ids are free.
use native.Mathlib.Nat.{pow-le-pow_right}
use sfc_controller.Common.{
  ℕ, suc, ◌+◌, ◌-◌, ◌/◌, ◌%◌, ◌^◌, ◌≤◌, ◌<◌, ◌≡◌, ◌↔◌, refl, ◌∙◌, ap, bit_and, bit_or, false, some,
  List, [], ◌∷◌, arith, Text,
}
use sfc_controller.Common.Masks.{bit_and_high, bit_or_low}
use sfc_controller.Common.Sets.{member, add}
use sfc_controller.Ipam.{
  PoolAllocator, Cidr, Ip, ok, err, no_more_addresses, address_u32, format_ip_address, contains,
  first_id, last_id, set_ip_addr_if_inside_pool, new_pool_allocator, allocate_ip_address, scan_up,
  take_address,
}
use sfc_controller.Ipam.Pool.{IsValid}
use sfc_controller.Ipam.Address.{
  IsNetwork, network_of, mask_u32_lem, set_ip_addr_if_inside_pool-address_u32,
}

module _ (name network : Text) (start_range end_range a ones : ℕ) where
  -- A pool on an IPv4 network whose range is in order and ends below the last 32-bit number is
  -- valid, empty, and on the network that the CIDR text names.
  pub new_pool_allocator_lem :
      a < 2 ^ 32
      → ones ≤ 32
      → first_id start_range ≤ last_id end_range ones
      → last_id end_range ones + 1 < 2 ^ 32
      → (p : PoolAllocator) × (new_pool_allocator name start_range end_range network
            (some (Cidr.v4 a ones))
          ≡ some p)
        × IsValid p
        × IsNetwork p (32 - ones) (a / 2 ^ (32 - ones))
        × (p.start_range ≡ first_id start_range)
        × (p.end_range ≡ last_id end_range ones)
        × (p.allocated ≡ [])
  unfolding new_pool_allocator
  new_pool_allocator_lem ha h ordered ends = (
    _,
    refl,
    record {
      ordered = ordered;
      ends = ends;
      next_from = omega arith;
      next_to = ordered;
      sized = omega arith;
      no_repeats = tt;
    },
    record {
      hosts = omega arith;
      fits = let e : 32 - (32 - ones) ≡ ones = omega arith in rw e ((network_of a ones ha h).0);
      base = (network_of a ones ha h).1;
      mask = let e : 32 - (32 - ones) ≡ ones = omega arith in rw e (mask_u32_lem ones h);
    },
    refl,
    refl,
    refl,
  )

-- With no range given, on a prefix of at most 30 digits, the ids of the range are those between
-- the address of the network and its broadcast address.
pub default_range_lem :
    (ones id : ℕ)
    → ones ≤ 30
    → ((first_id 0 ≤ id) × (id ≤ last_id 0 ones)) ↔ ((0 < id) × (id + 1 < 2 ^ (32 - ones)))
default_range_lem ones id h =
    let k = 32 - ones in
    let low = pow-le-pow_right {n = 2} (omega arith) {i = 2} {j = k} (omega arith) in
    let high = pow-le-pow_right {n = 2} (omega arith) {i = k} {j = 32} (omega arith) in
    (λ r. (r.0, omega arith), λ r. (r.0, omega arith))

-- With no range given, on a prefix of 32 digits with an even address, the range ends at the last
-- 32-bit number, and the first address that is allocated, with the id 1, is not in the network.
pub host_route_leaves_network :
    (name network : Text) (a fuel : ℕ)
    → a < 2 ^ 32
    → a % 2 ≡ 0
    → (p p' : PoolAllocator) × (new_pool_allocator name 0 0 network (some (Cidr.v4 a 32)) ≡ some p)
      × (p.end_range ≡ 2 ^ 32 - 1)
      × (allocate_ip_address (suc fuel) p ≡ some (p', ok (format_ip_address p 1, 1)))
      × (contains p (address_u32 p 1) ≡ false)
host_route_leaves_network name network a fuel ha even = (
  fresh,
  take_address fresh 1,
  unfold new_pool_allocator in refl,
  refl,
  unfold allocate_ip_address scan_up member in refl,
  outside,
)
  where
    fresh : PoolAllocator
    fresh = record {
      name = name;
      start_range = 1;
      end_range = 2 ^ 32 - 1;
      next_in_range = 1;
      total_in_range = 2 ^ 32 - 1;
      network = network;
      ip_networku32 = bit_and a (2 ^ 32 - 1);
      ip_masku32 = 2 ^ 32 - 1;
      num_bits_in_mask = 32;
      allocated = [];
    }

    whole : (n : ℕ) → n < 2 ^ 32 → bit_and n (2 ^ 32 - 1) ≡ n
    whole n h =
        ap (λ (m : ℕ). bit_and m (2 ^ 32 - 1)) (omega arith)
        ∙ bit_and_high 0 32 n 0 h (omega arith)
        ∙ omega arith

    next_address : bit_or a 1 ≡ a + 1
    next_address =
        ap (λ (m : ℕ). bit_or m 1) (omega arith)
        ∙ bit_or_low 1 (a / 2) 1 (omega arith)
        ∙ omega arith

    outside : contains fresh (address_u32 fresh 1) ≡ false
    outside = ground (arith, whole a ha, next_address, whole (a + 1) (omega arith))

-- On a prefix of 30 digits with no range given, once the addresses of the network and of the
-- broadcast are registered as static ones, the allocator reports that it has no more addresses,
-- though both ids of its range are free.
pub static_addresses_fill_pool :
    (name network : Text) (a fuel : ℕ)
    → a < 2 ^ 32
    → (p : PoolAllocator) × (new_pool_allocator name 0 0 network (some (Cidr.v4 a 30)) ≡ some p)
      × (let register = λ (q : PoolAllocator) (id : ℕ).
            set_ip_addr_if_inside_pool q (some (Ip.v4 (address_u32 p id))) in
          let full = register (register p 3) 0 in
          (allocate_ip_address fuel full ≡ some (full, err (no_more_addresses name)))
          × (p.start_range ≡ 1)
          × (p.end_range ≡ 2)
          × (member 1 full.allocated ≡ false)
          × (member 2 full.allocated ≡ false))
static_addresses_fill_pool name network a fuel ha = (
  fresh [],
  unfold new_pool_allocator in refl,
  (
    rw filled (unfold allocate_ip_address in refl),
    refl,
    refl,
    rw filled (unfold member in refl),
    rw filled (unfold member in refl),
  ),
)
  where
    fresh : List ℕ → PoolAllocator
    fresh ids = record {
      name = name;
      start_range = 1;
      end_range = 2;
      next_in_range = 1;
      total_in_range = 2;
      network = network;
      ip_networku32 = bit_and a (2 ^ 32 - 4);
      ip_masku32 = 2 ^ 32 - 4;
      num_bits_in_mask = 30;
      allocated = ids;
    }

    on_network : (ids : List ℕ) → IsNetwork (fresh ids) 2 (a / 4)
    on_network ids = record {
      hosts = omega arith;
      fits = (network_of a 30 ha (omega arith)).0;
      base = (network_of a 30 ha (omega arith)).1;
      mask = mask_u32_lem 30 (omega arith);
    }

    register : PoolAllocator → ℕ → PoolAllocator
    register p id = set_ip_addr_if_inside_pool p (some (Ip.v4 (address_u32 (fresh []) id)))

    step : (ids : List ℕ) (id : ℕ) → id < 4 → register (fresh ids) id ≡ fresh (add id ids)
    step ids id h =
        (set_ip_addr_if_inside_pool-address_u32 (fresh ids) 2 (a / 4) (on_network ids) id h).2

    filled : register (register (fresh []) 3) 0 ≡ fresh (0 ∷ 3 ∷ [])
    filled =
        ap (λ q. register q 0) (step [] 3 (omega arith))
        ∙ (unfold add member in step (add 3 []) 0 (omega arith))
