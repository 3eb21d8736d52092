-- ===== src/Ipam.antt =====
-- plugins/controller/idapi/ipam/ipam.go: the allocator of IPv4 addresses of one pool.
-- Parsing an address text is the business of Go's package net: what it returns is an argument,
-- a `Cidr` or an `Ip`. An IPv4-mapped IPv6 network is not considered.
mod Search
pub mod Pool
pub mod Address
pub mod Fresh
mod Examples
use mathlib.Core.Option
use sfc_controller.Common.{
  ℕ, zero, suc, ◌+◌, ◌-◌, ◌*◌, ◌/◌, ◌%◌, ◌^◌, bit_and, bit_or, bit_xor, Bool, true, false, ◌||◌,
  Option, none, some, List, [], ◌∷◌, ◌++◌, ltb, leb, ◌==◌, if◌then◌else◌, length, Text, codes,
}
use sfc_controller.Common.Sets.{member, add}
use sfc_controller.Common.Decimals.{decimal}

-- What net.ParseCIDR returns without an error: the address and the length of the prefix, or
-- an address that is no IPv4 address.
pub data Cidr : Type 0 where
  v4 : ℕ → ℕ → Cidr
  v6 : Cidr

-- What net.ParseIP returns if it is not nil.
pub data Ip : Type 0 where
  v4 : ℕ → Ip
  v6 : Ip

pub record PoolAllocator : Type 0 where
  pub name : Text
  pub start_range : ℕ
  pub end_range : ℕ
  pub next_in_range : ℕ
  pub total_in_range : ℕ
  pub network : Text
  pub ip_networku32 : ℕ
  pub ip_masku32 : ℕ
  pub num_bits_in_mask : ℕ
  pub allocated : List ℕ

pub data Error : Type 0 where
  address_out_of_range : ℕ → ℕ → ℕ → Error
  address_not_found : ℕ → ℕ → ℕ → Error
  no_more_addresses : Text → Error
  internal_error : Text → Error

pub data Result {ℓ} (A : Type ℓ) : Type ℓ where
  ok : A → Result A
  err : Error → Result A

-- p.ipNetworku32 | ipID
abbrev pub address_u32 : PoolAllocator → ℕ → ℕ
address_u32 p id = bit_or p.ip_networku32 id

-- "%d.%d.%d.%d/%d"; the octets are (a>>24)&0xFF and so on.
unfoldable pub format_ip_address : PoolAllocator → ℕ → Text
format_ip_address p id =
    let a = address_u32 p id in
    decimal (a / 2 ^ 24 % 256)
    ++ b'.'
      ∷ (decimal (a / 2 ^ 16 % 256)
          ++ b'.'
            ∷ (decimal (a / 2 ^ 8 % 256)
                ++ b'.' ∷ (decimal (a % 256) ++ b'/' ∷ decimal p.num_bits_in_mask)))

-- GetAllocatedAddressesStatus: "%d of %d addresses are set, %d are free"
unfoldable pub allocated_status : PoolAllocator → Text
allocated_status p =
    let n = length p.allocated in
    decimal n
    ++ (codes " of "
        ++ (decimal p.total_in_range
            ++ (codes " addresses are set, "
                ++ (decimal ((p.total_in_range + 2 ^ 32 - n % 2 ^ 32) % 2 ^ 32)
                    ++ codes " are free"))))

abbrev pub out_of_range : PoolAllocator → ℕ → Bool
out_of_range p id = ltb id p.start_range || ltb p.end_range id

unfoldable pub is_address_set : PoolAllocator → ℕ → Result Text
is_address_set p id =
    if out_of_range p id
    then err (address_out_of_range id p.start_range p.end_range)
    else if member id p.allocated
    then ok (format_ip_address p id)
    else err (address_not_found id p.start_range p.end_range)

unfoldable pub set_address : PoolAllocator → ℕ → PoolAllocator × Result Text
set_address p id =
    if out_of_range p id
    then (p, err (address_out_of_range id p.start_range p.end_range))
    else (record p { allocated = add id p.allocated }, ok (format_ip_address p id))

-- for addrID := first; addrID <= last; addrID++ { if !allocated { return } }, with uint32 counters
-- and fuel: `none` if the fuel ran out, `some none` if the loop ended without a return.
unfoldable pub scan_up : ℕ → List ℕ → ℕ → ℕ → Option (Option ℕ)
scan_up zero taken last id = none
scan_up (suc fuel) taken last id =
    let rest = scan_up fuel taken last ((id + 1) % 2 ^ 32) in
    if ltb last id then some none else if member id taken then rest else some (some id)

-- for addrID := first; addrID < stop; addrID++ { if !allocated { return } }
unfoldable pub scan_below : ℕ → List ℕ → ℕ → ℕ → Option (Option ℕ)
scan_below zero taken stop id = none
scan_below (suc fuel) taken stop id =
    let rest = scan_below fuel taken stop ((id + 1) % 2 ^ 32) in
    if leb stop id then some none else if member id taken then rest else some (some id)

-- The body of both loops for a free id.
unfoldable pub take_address : PoolAllocator → ℕ → PoolAllocator
take_address p id =
    let next = (id + 1) % 2 ^ 32 in
    record p {
      next_in_range = if ltb p.end_range next then p.start_range else next;
      allocated = add id p.allocated;
    }

-- The pool after the call, and the address and its id; `none` if a loop ran out of fuel.
unfoldable pub allocate_ip_address : ℕ → PoolAllocator → Option (PoolAllocator × Result (Text × ℕ))
allocate_ip_address fuel p =
    if length p.allocated % 2 ^ 32 == p.total_in_range
    then some (p, err (no_more_addresses p.name))
    else elim (scan_up fuel p.allocated p.end_range p.next_in_range) [
      | none ↦ none
      | some (some id) ↦ some (take_address p id, ok (format_ip_address p id, id))
      | some none ↦ elim (scan_below fuel p.allocated p.next_in_range p.start_range) [
        | none ↦ none
        | some (some id) ↦ some (take_address p id, ok (format_ip_address p id, id))
        | some none ↦ some (p, err (internal_error p.name))
      ]
    ]

-- n.IP and n.Mask of the network of a CIDR text, and IPNet.Contains
abbrev pub mask_u32 : ℕ → ℕ
mask_u32 ones = 2 ^ 32 - 2 ^ (32 - ones)

abbrev pub contains : PoolAllocator → ℕ → Bool
contains p a = bit_and a p.ip_masku32 == p.ip_networku32

-- The argument is net.ParseIP of the text. The id is ipAddressu32 &^ p.ipMasku32.
unfoldable pub set_ip_addr_if_inside_pool : PoolAllocator → Option Ip → PoolAllocator
set_ip_addr_if_inside_pool p none = p
set_ip_addr_if_inside_pool p (some Ip.v6) = p
set_ip_addr_if_inside_pool p (some (Ip.v4 a)) =
    if contains p a
    then record p { allocated = add (bit_xor a (bit_and a p.ip_masku32)) p.allocated }
    else p

-- (1 << uint32(32-numBitsInMask)) - 2, in uint32
abbrev pub last_host : ℕ → ℕ
last_host ones = (2 ^ (32 - ones) + 2 ^ 32 - 2) % 2 ^ 32

abbrev pub first_id : ℕ → ℕ
first_id start_range = if start_range == 0 then 1 else start_range

abbrev pub last_id : ℕ → ℕ → ℕ
last_id end_range ones = if end_range == 0 then last_host ones else end_range

-- The fourth argument is the text of the network, the fifth what net.ParseCIDR makes of it.
unfoldable pub new_pool_allocator : Text → ℕ → ℕ → Text → Option Cidr → Option PoolAllocator
new_pool_allocator name start_range end_range network none = none
new_pool_allocator name start_range end_range network (some Cidr.v6) = none
new_pool_allocator name start_range end_range network (some (Cidr.v4 a ones)) =
    let start = first_id start_range in
    let end' = last_id end_range ones in
    some (record {
      name = name;
      start_range = start;
      end_range = end';
      next_in_range = start;
      total_in_range = (end' + 2 ^ 32 - start + 1) % 2 ^ 32;
      network = network;
      ip_networku32 = bit_and a (mask_u32 ones);
      ip_masku32 = mask_u32 ones;
      num_bits_in_mask = ones;
      allocated = [];
    })
