-- ===== src/Ids/Macs.antt =====
-- The ids of successive allocations, and that different ids have different MAC addresses.
use sfc_controller.Common.{
  ℕ, zero, suc, ◌+◌, ◌/◌, ◌%◌, ◌^◌, ◌<◌, ◌≡◌, refl, Text, [], ◌∷◌, ◌++◌, arith,
}
use sfc_controller.Ids.{
  MemifAllocator, VrfAllocator, MacAddrAllocator, allocate_memif, allocate_vrf, allocate_mac_addr,
  new_mac_addr_allocator, set_vrf_allocator_initial_value, hex_digit, hex_octet, format_mac_address,
}

cons_head : {x y : ℕ} {s t : Text} → x ∷ s ≡ y ∷ t → x ≡ y
cons_head e = ground (arith, e)

cons_tail : {x y : ℕ} {s t : Text} → x ∷ s ≡ y ∷ t → s ≡ t
cons_tail e = ground (arith, e)

hex_digit_injective : (a b : ℕ) → a < 16 → b < 16 → hex_digit a ≡ hex_digit b → a ≡ b
hex_digit_injective a b ha hb e = ground (arith, e)

-- The first two characters of a text give an octet back.
hex_octet-append :
    (a b : ℕ) (s t : Text)
    → a < 256
    → b < 256
    → hex_octet a ++ s ≡ hex_octet b ++ t
    → (a ≡ b) × (s ≡ t)
hex_octet-append a b s t ha hb e =
    let high : hex_digit (a / 16) ≡ hex_digit (b / 16) = cons_head e in
    let rest : hex_digit (a % 16) ∷ s ≡ hex_digit (b % 16) ∷ t = cons_tail e in
    let low : hex_digit (a % 16) ≡ hex_digit (b % 16) = cons_head rest in
    let h = hex_digit_injective (a / 16) (b / 16) (omega arith) (omega arith) high in
    let l = hex_digit_injective (a % 16) (b % 16) (omega arith) (omega arith) low in
    (omega arith, cons_tail rest)

-- Different ids have different MAC addresses.
pub format_mac_address_injective :
    (a b : ℕ) → a < 2 ^ 32 → b < 2 ^ 32 → format_mac_address a ≡ format_mac_address b → a ≡ b
unfolding format_mac_address
format_mac_address_injective a b ha hb e =
    let after_octet0 = cons_tail (cons_tail (cons_tail e)) in
    let (o1, r1) = octet (a / 2 ^ 32) (b / 2 ^ 32) after_octet0 in
    let (o2, r2) = octet (a / 2 ^ 24) (b / 2 ^ 24) (cons_tail r1) in
    let (o3, r3) = octet (a / 2 ^ 16) (b / 2 ^ 16) (cons_tail r2) in
    let (o4, r4) = octet (a / 2 ^ 8) (b / 2 ^ 8) (cons_tail r3) in
    let (o5, r5) = octet a b {s = []} {t = []} (cons_tail r4) in omega arith
  where
    octet :
        (x y : ℕ) {s t : Text}
        → hex_octet (x % 256) ++ s ≡ hex_octet (y % 256) ++ t
        → (x % 256 ≡ y % 256) × (s ≡ t)
    octet x y {s} {t} e = hex_octet-append (x % 256) (y % 256) s t (omega arith) (omega arith) e

-- The allocator after `n` calls of Allocate on a new one.
unfoldable pub mac_after : ℕ → MacAddrAllocator
mac_after zero = new_mac_addr_allocator
mac_after (suc n) = (allocate_mac_addr (mac_after n)).0

mac_after_id : (n : ℕ) → n < 2 ^ 32 → (mac_after n).mac_addr_id ≡ n
mac_after_id zero h = unfold mac_after in refl
mac_after_id (suc n) h = step n (mac_after_id n (omega arith)) h
  where
    step :
        (n : ℕ)
        → (mac_after n).mac_addr_id ≡ n
        → suc n < 2 ^ 32
        → (mac_after (suc n)).mac_addr_id ≡ suc n
    step n e h = unfold mac_after allocate_mac_addr in omega (arith, e)

-- Among the first 2 ^ 32 - 1 calls of Allocate on a new allocator, no two return the same address.
pub allocate_mac_addr_distinct :
    (i j : ℕ)
    → i + 1 < 2 ^ 32
    → j + 1 < 2 ^ 32
    → (allocate_mac_addr (mac_after i)).1.0 ≡ (allocate_mac_addr (mac_after j)).1.0
    → i ≡ j
unfolding allocate_mac_addr
allocate_mac_addr_distinct i j hi hj e =
    let ei = mac_after_id i (omega arith) in
    let ej = mac_after_id j (omega arith) in
    let same =
      format_mac_address_injective (((mac_after i).mac_addr_id + 1) % 2 ^ 32)
        (((mac_after j).mac_addr_id + 1) % 2 ^ 32) (omega arith) (omega arith) e in
    omega (arith, ei, ej, same)

-- Two successive allocations of a memif id return the next two numbers after the last id, and two
-- of a VRF id the value set and its successor, as long as neither passes 2 ^ 32.
pub allocate_twice :
    (m : MemifAllocator) (v : VrfAllocator) (n : ℕ)
    → m.memif_id + 2 < 2 ^ 32
    → n + 2 < 2 ^ 32
    → let (m1, a) = allocate_memif m in
      let (m2, b) = allocate_memif m1 in
      let (v1, c) = allocate_vrf (set_vrf_allocator_initial_value n v) in
      let (v2, d) = allocate_vrf v1 in
      (a ≡ m.memif_id + 1) × (b ≡ m.memif_id + 2) × (c ≡ n) × (d ≡ n + 1)
unfolding allocate_memif allocate_vrf set_vrf_allocator_initial_value
allocate_twice m v n hm hn = (omega arith, omega arith, refl, omega arith)
