-- ===== src/Ipam/Address.antt =====
-- The addresses of a pool: ids and IPv4 addresses of its network correspond to one another, and
-- pools whose allocator leaves its network or gives up too early.
use native.Mathlib.Nat.{one-le-pow, mul-sub, div-lt_iff_lt-mul, mod-lt, div-add-mod'}
use sfc_controller.Common.{
  ℕ, ◌+◌, ◌-◌, ◌*◌, ◌/◌, ◌%◌, ◌^◌, ◌≤◌, ◌<◌, ◌≡◌, ◌∙◌, sym, ap, bit_and, bit_xor, true, some, arith,
}
use sfc_controller.Common.Masks.{bit_and_high, bit_or_low, bit_xor_high, pow_add}
use sfc_controller.Common.Sets.{add}
use sfc_controller.Ipam.{
  PoolAllocator, Ip, address_u32, contains, mask_u32, set_ip_addr_if_inside_pool,
}

-- The network of the pool has the number `q` and `k` digits for its hosts.
pub record IsNetwork (p : PoolAllocator) (k q : ℕ) : Type 0 where
  pub hosts : k ≤ 32
  pub fits : q < 2 ^ (32 - k)
  pub base : p.ip_networku32 ≡ q * 2 ^ k
  pub mask : p.ip_masku32 ≡ (2 ^ (32 - k) - 1) * 2 ^ k

pub mask_u32_lem : (ones : ℕ) → ones ≤ 32 → mask_u32 ones ≡ (2 ^ ones - 1) * 2 ^ (32 - ones)
mask_u32_lem ones h =
    let k = 32 - ones in
    let e : ones + k ≡ 32 = omega arith in
    let whole : 2 ^ ones * 2 ^ k ≡ 2 ^ 32 = sym (pow_add ones k) ∙ ap (λ (n : ℕ). 2 ^ n) e in
    omega (arith, whole, mul-sub (2 ^ k) (2 ^ ones) 1)

-- The network that ParseCIDR's address stands in.
pub network_of :
    (a ones : ℕ)
    → a < 2 ^ 32
    → ones ≤ 32
    → (a / 2 ^ (32 - ones) < 2 ^ ones)
      × (bit_and a (mask_u32 ones) ≡ a / 2 ^ (32 - ones) * 2 ^ (32 - ones))
network_of a ones ha h =
    let k = 32 - ones in
    let e : ones + k ≡ 32 = omega arith in
    let whole : 2 ^ ones * 2 ^ k ≡ 2 ^ 32 = sym (pow_add ones k) ∙ ap (λ (n : ℕ). 2 ^ n) e in
    let pos : 0 < 2 ^ k = one-le-pow k 2 (omega arith) in
    let below : a / 2 ^ k < 2 ^ ones = (div-lt_iff_lt-mul pos).1 (omega arith) in
    let r_lt : a % 2 ^ k < 2 ^ k = mod-lt a pos in
    let split : a / 2 ^ k * 2 ^ k + a % 2 ^ k ≡ a = div-add-mod' a (2 ^ k) in
    (
      below,
      rw (mask_u32_lem ones h) (
          ap (λ n. bit_and n ((2 ^ ones - 1) * 2 ^ k)) (sym split)
          ∙ bit_and_high k ones (a / 2 ^ k) (a % 2 ^ k) below r_lt),
    )

module _ (p : PoolAllocator) (k q : ℕ) (h : IsNetwork p k q) (id : ℕ) (fits : id < 2 ^ k) where
  -- The address of an id is that of the network plus the id.
  pub address_u32_lem : address_u32 p id ≡ p.ip_networku32 + id
  address_u32_lem = rw h.base (bit_or_low k q id fits)

  pub network_part : bit_and (address_u32 p id) p.ip_masku32 ≡ q * 2 ^ k
  network_part =
      rw (h.mask, h.base, bit_or_low k q id fits) (bit_and_high k (32 - k) q id h.fits fits)

  pub host_part : bit_xor (address_u32 p id) (bit_and (address_u32 p id) p.ip_masku32) ≡ id
  host_part = rw (network_part, h.base, bit_or_low k q id fits) (bit_xor_high k q id fits)

  pub address_inside : contains p (address_u32 p id) ≡ true
  address_inside = ground (arith, network_part, h.base)

  -- In a pool whose network leaves `k` digits for its hosts, an id below 2 ^ k has an address of the
  -- network, from the network's own up to the last one, and registering that address by
  -- SetIPAddrIfInsidePool takes that id and changes nothing else.
  pub set_ip_addr_if_inside_pool-address_u32 :
      (p.ip_networku32 ≤ address_u32 p id)
      × (address_u32 p id < p.ip_networku32 + 2 ^ k)
      × (set_ip_addr_if_inside_pool p (some (Ip.v4 (address_u32 p id)))
          ≡ record p { allocated = add id p.allocated })
  unfolding set_ip_addr_if_inside_pool
  set_ip_addr_if_inside_pool-address_u32 = (
    omega (arith, address_u32_lem),
    omega (arith, address_u32_lem, fits),
    rw (address_inside, host_part),
  )
