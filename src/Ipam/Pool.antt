-- ===== src/Ipam/Pool.antt =====
-- AllocateIPAddress: the id that it returns is the next free one in cyclic order, and the errors
-- come when no id of the range is free.
use sfc_controller.Common.{
  ℕ, ◌+◌, ◌-◌, ◌%◌, ◌^◌, ◌≤◌, ◌<◌, ◌≡◌, refl, ◌⊎◌, inl, inr, true, false, Option, none, some, arith,
  ltb, ◌==◌, ==_iff, if◌then◌else◌, length, Text, Bool-cases,
}
use sfc_controller.Common.Sets.{
  member, member-add, IsSetOf, add-IsSetOf, count_in_full, count_in-le, count_in_all, IsWithin,
  length_within,
}
use sfc_controller.Ipam.{
  PoolAllocator, Result, ok, err, no_more_addresses, internal_error, format_ip_address,
  out_of_range, scan_up, scan_below, take_address, allocate_ip_address,
}
use sfc_controller.Ipam.Search.{AllTaken, scan_up_lem, scan_below_lem}

-- A pool over a range whose end is not the last number of 32 bits.
pub record IsValid (p : PoolAllocator) : Type 0 where
  pub ordered : p.start_range ≤ p.end_range
  pub ends : p.end_range + 1 < 2 ^ 32
  pub next_from : p.start_range ≤ p.next_in_range
  pub next_to : p.next_in_range ≤ p.end_range
  pub sized : p.total_in_range ≡ p.end_range - p.start_range + 1
  pub no_repeats : IsSetOf p.allocated

-- `id` is the first free id from NextInRange on, in cyclic order.
abbrev pub IsNextFree : PoolAllocator → ℕ → Type 0
IsNextFree p id =
    ((p.next_in_range ≤ id) × AllTaken p.allocated p.next_in_range id)
    ⊎ ((id < p.next_in_range)
        × AllTaken p.allocated p.next_in_range (p.end_range + 1)
        × AllTaken p.allocated p.start_range id)

-- `p'` is `p` with `id` taken and the cursor behind it, and with the same name, range and network.
pub record IsTake (p : PoolAllocator) (id : ℕ) (p' : PoolAllocator) : Type 0 where
  pub valid : IsValid p'
  pub same_start : p'.start_range ≡ p.start_range
  pub same_end : p'.end_range ≡ p.end_range
  pub same_network : p'.ip_networku32 ≡ p.ip_networku32
  pub same_mask : p'.num_bits_in_mask ≡ p.num_bits_in_mask
  pub same_name : p'.name ≡ p.name
  pub view : (i : ℕ) → member i p'.allocated ≡ (if id == i then true else member i p.allocated)

-- The outcomes of AllocateIPAddress.
abbrev pub Outcome : PoolAllocator → Option (PoolAllocator × Result (Text × ℕ)) → Type 0
Outcome p r =
    ((p' : PoolAllocator) × (id : ℕ) × (r ≡ some (p', ok (format_ip_address p id, id)))
      × (out_of_range p id ≡ false)
      × (member id p.allocated ≡ false)
      × IsNextFree p id
      × IsTake p id p')
    ⊎ ((r ≡ some (p, err (no_more_addresses p.name)))
        × (length p.allocated % 2 ^ 32 ≡ p.total_in_range))
    ⊎ ((r ≡ some (p, err (internal_error p.name)))
        × AllTaken p.allocated p.start_range (p.end_range + 1))

take_address-IsTake :
    (p : PoolAllocator) (id : ℕ)
    → IsValid p
    → out_of_range p id ≡ false
    → IsTake p id (take_address p id)
unfolding take_address
take_address-IsTake p id h inside = record {
  valid = record {
    ordered = h.ordered;
    ends = h.ends;
    next_from = ground (arith, h.ordered, h.ends);
    next_to = ground (arith, h.ordered, h.ends);
    sized = h.sized;
    no_repeats = add-IsSetOf id p.allocated h.no_repeats;
  };
  same_start = refl;
  same_end = refl;
  same_network = refl;
  same_mask = refl;
  same_name = refl;
  view = λ i. member-add id i p.allocated;
}

module _ (fuel : ℕ) (p : PoolAllocator) (h : IsValid p) where
  allocate_full :
      length p.allocated % 2 ^ 32 ≡ p.total_in_range
      → allocate_ip_address fuel p ≡ some (p, err (no_more_addresses p.name))
  unfolding allocate_ip_address
  allocate_full e = ground (arith, e)

  module _ (room : (length p.allocated % 2 ^ 32 == p.total_in_range) ≡ false) where
    allocate_found_up :
        (id : ℕ)
        → scan_up fuel p.allocated p.end_range p.next_in_range ≡ some (some id)
        → allocate_ip_address fuel p ≡ some (take_address p id, ok (format_ip_address p id, id))
    unfolding allocate_ip_address
    allocate_found_up id e = ground (arith, e, room)

    module _ (first : scan_up fuel p.allocated p.end_range p.next_in_range ≡ some none) where
      allocate_found_below :
          (id : ℕ)
          → scan_below fuel p.allocated p.next_in_range p.start_range ≡ some (some id)
          → allocate_ip_address fuel p ≡ some (take_address p id, ok (format_ip_address p id, id))
      unfolding allocate_ip_address
      allocate_found_below id e = ground (arith, first, e, room)

      allocate_nothing :
          scan_below fuel p.allocated p.next_in_range p.start_range ≡ some none
          → allocate_ip_address fuel p ≡ some (p, err (internal_error p.name))
      unfolding allocate_ip_address
      allocate_nothing e = ground (arith, first, e, room)

  taken_at :
      (id : ℕ)
      → allocate_ip_address fuel p ≡ some (take_address p id, ok (format_ip_address p id, id))
      → out_of_range p id ≡ false
      → member id p.allocated ≡ false
      → IsNextFree p id
      → Outcome p (allocate_ip_address fuel p)
  taken_at id e inside free next =
      inl (take_address p id, id, e, inside, free, next, take_address-IsTake p id h inside)

  allocate_second :
      (length p.allocated % 2 ^ 32 == p.total_in_range) ≡ false
      → p.end_range + 1 < fuel
      → scan_up fuel p.allocated p.end_range p.next_in_range ≡ some none
      → AllTaken p.allocated p.next_in_range (p.end_range + 1)
      → Outcome p (allocate_ip_address fuel p)
  allocate_second room enough e upper =
      elim (scan_below_lem p.allocated fuel p.next_in_range p.start_range
        (omega (arith, h.next_to, h.ends)) h.next_from (omega (arith, h.next_to))) [
          | inl (e', lower) ↦ inr (
              inr (
                allocate_nothing room e e',
                λ i lo hi. elim (Bool-cases (ltb i p.next_in_range)) [
                  | inl low ↦ lower i lo (ground arith)
                  | inr high ↦ upper i (ground arith) hi
                ],
              ))
          | inr (id, e', lo, hi, free, lower) ↦
              taken_at id (allocate_found_below room e id e') (ground (arith, h.next_to)) free
                (inr (hi, upper, lower))
        ]

-- With fuel for the range AllocateIPAddress ends, and either returns the first free id in cyclic
-- order from the cursor on, with its address, and takes it and no other; or reports that the pool
-- is full, and then the number of taken ids is that of the range; or reports the internal error,
-- and then every id of the range is taken. The errors change nothing.
pub allocate_ip_address_lem :
    (fuel : ℕ) (p : PoolAllocator)
    → IsValid p
    → p.end_range + 1 < fuel
    → Outcome p (allocate_ip_address fuel p)
allocate_ip_address_lem fuel p h enough =
    elim (Bool-cases (length p.allocated % 2 ^ 32 == p.total_in_range)) [
      | inl full ↦
          let e = (==_iff _ p.total_in_range).0 full in inr (inl (allocate_full fuel p h e, e))
      | inr room ↦
          elim (scan_up_lem p.allocated fuel p.end_range p.next_in_range h.ends
            (omega (arith, h.next_to)) (omega arith)) [
              | inl (e, upper) ↦ allocate_second fuel p h room enough e upper
              | inr (id, e, lo, hi, free, lower) ↦
                  taken_at fuel p h id (allocate_found_up fuel p h room id e)
                    (ground (arith, h.next_from)) free (inl (lo, lower))
            ]
    ]

-- If only ids of the range were ever taken, AllocateIPAddress fails exactly when no id of the
-- range is free, and the internal error never happens.
pub allocate_ip_address_complete :
    (fuel : ℕ) (p : PoolAllocator)
    → IsValid p
    → p.end_range + 1 < fuel
    → IsWithin p.start_range p.total_in_range p.allocated
    → ((allocate_ip_address fuel p ≡ some (p, err (no_more_addresses p.name)))
        × AllTaken p.allocated p.start_range (p.end_range + 1))
      ⊎ ((p' : PoolAllocator) × (id : ℕ) × (allocate_ip_address fuel p
            ≡ some (p', ok (format_ip_address p id, id)))
          × (out_of_range p id ≡ false)
          × (member id p.allocated ≡ false))
allocate_ip_address_complete fuel p h enough within =
    let n = p.total_in_range in
    let counted = length_within p.start_range n p.allocated h.no_repeats within in
    let small : n < 2 ^ 32 = omega (arith, h.sized, h.ends) in
    let few = count_in-le p.start_range n p.allocated in
    elim (allocate_ip_address_lem fuel p h enough) [
      | inl (p', id, e, inside, free, next, take) ↦ inr (p', id, e, inside, free)
      | inr (inl (e, full)) ↦ inl (
        e,
        λ i lo hi.
            count_in_full p.start_range n p.allocated (omega arith) i lo (omega (arith, h.sized)),
      )
      | inr (inr (e, all)) ↦
          let c =
            count_in_all p.start_range n p.allocated
              (λ i lo hi. all i lo (omega (arith, h.sized, h.ordered))) in
          inl (allocate_full fuel p h (omega arith), all)
    ]
