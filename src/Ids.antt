-- ===== src/Ids.antt =====
-- plugins/controller/idapi/memif.go, vrf.go and mac_addr.go: three counters of uint32, and the text
-- of a MAC address. An allocation gives the allocator after the call and its result.
pub mod Macs
mod Examples
use sfc_controller.Common.{
  ℕ, zero, suc, ◌+◌, ◌/◌, ◌%◌, ◌^◌, Text, List, [], ◌∷◌, ◌++◌, ltb, if◌then◌else◌, codes,
}

pub record MemifAllocator : Type 0 where
  pub memif_id : ℕ

unfoldable pub allocate_memif : MemifAllocator → MemifAllocator × ℕ
allocate_memif m = let id = (m.memif_id + 1) % 2 ^ 32 in (record { memif_id = id }, id)

abbrev pub new_memif_allocator : MemifAllocator
new_memif_allocator = record { memif_id = 0 }

pub record VrfAllocator : Type 0 where
  pub vrf_id : ℕ

unfoldable pub allocate_vrf : VrfAllocator → VrfAllocator × ℕ
allocate_vrf v = (record { vrf_id = (v.vrf_id + 1) % 2 ^ 32 }, v.vrf_id)

unfoldable pub set_vrf_allocator_initial_value : ℕ → VrfAllocator → VrfAllocator
set_vrf_allocator_initial_value initial_value v = record { vrf_id = initial_value }

abbrev pub new_vrf_allocator : VrfAllocator
new_vrf_allocator = record { vrf_id = 10 }

pub record MacAddrAllocator : Type 0 where
  pub mac_addr_id : ℕ

-- A digit of "%02X", and an octet below 256.
abbrev pub hex_digit : ℕ → ℕ
hex_digit d = if ltb d 10 then d + b'0' else d + 55

abbrev pub hex_octet : ℕ → Text
hex_octet o = hex_digit (o / 16) ∷ hex_digit (o % 16) ∷ []

-- The octets are 0x02, and 0xFF & (id >> 32) to 0xFF & id.
unfoldable pub format_mac_address : ℕ → Text
format_mac_address id =
    hex_octet 2
    ++ b':'
      ∷ (hex_octet (id / 2 ^ 32 % 256)
          ++ b':'
            ∷ (hex_octet (id / 2 ^ 24 % 256)
                ++ b':'
                  ∷ (hex_octet (id / 2 ^ 16 % 256)
                      ++ b':' ∷ (hex_octet (id / 2 ^ 8 % 256) ++ b':' ∷ hex_octet (id % 256)))))

unfoldable pub allocate_mac_addr : MacAddrAllocator → MacAddrAllocator × (Text × ℕ)
allocate_mac_addr m =
    let id = (m.mac_addr_id + 1) % 2 ^ 32 in
    (record { mac_addr_id = id }, (format_mac_address id, id))

abbrev pub new_mac_addr_allocator : MacAddrAllocator
new_mac_addr_allocator = record { mac_addr_id = 0 }
