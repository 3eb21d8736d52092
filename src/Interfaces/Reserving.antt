-- ===== src/Interfaces/Reserving.antt =====
-- plugins/controller/interfaces.go and ipampool.go: which static addresses the pools take.
use sfc_controller.Common.{
  ◌≡◌, ◌∙◌, ap, inl, inr, Text, Option, none, some, List, [], ◌∷◌, arith, All, text_eq, text_eq_iff,
  Bool-cases, Option-cases,
}
use sfc_controller.Common.Texts.{HasNoSlash}
use sfc_controller.Common.Maps.{Map, lookup, lookup-insert}
use sfc_controller.Ipam.{Ip, PoolAllocator, set_ip_addr_if_inside_pool}
use sfc_controller.Pools.{
  Pools, Pool, set_address_if_in_pool, find_allocator, allocator_name, entity_of, note_status,
  change,
}
use sfc_controller.Interfaces.{mark_address, mark_addresses}

-- The same allocators under all names.
abbrev pub SameAllocators : Pools → Pools → Type 0
SameAllocators p p' = (k : Text) → lookup k p'.allocators ≡ lookup k p.allocators

note_status-allocators :
    (pool_name : Text) (pool : Pool) (a : PoolAllocator) (s s' : Pools)
    → note_status pool_name pool a s ≡ some s'
    → s'.allocators ≡ s.allocators
note_status-allocators pool_name pool a s s' h = elim (Option-cases pool.status) [
  | inl e ↦ ground (arith, h, e)
  | inr (none, e) ↦ ground (arith, h, e)
  | inr (some m, e) ↦ ground (arith, h, e)
]

note_status-same :
    (pool_name name : Text) (pool : Pool) (a : PoolAllocator) (p p' : Pools)
    → lookup name p.allocators ≡ some (some a)
    → note_status pool_name pool a (change name a p) ≡ some p'
    → SameAllocators p p'
note_status-same pool_name name pool a p p' e h k =
    ap (lookup k) (note_status-allocators pool_name pool a (change name a p) p' h)
    ∙ elim (Bool-cases (text_eq name k)) [
      | inl t ↦
          let at_k : lookup k p.allocators ≡ some (some a) = rw ((text_eq_iff name k).0 t) at e in
          ground (arith, lookup-insert name k (some a) p.allocators, t, at_k)
      | inr t ↦ ground (arith, lookup-insert name k (some a) p.allocators, t)
    ]

unparsed_same :
    (p p' : Pools) (pool_name node service : Text)
    → set_address_if_in_pool p pool_name node service none ≡ some p'
    → SameAllocators p p'
unfolding set_address_if_in_pool find_allocator set_ip_addr_if_inside_pool
unparsed_same p p' pool_name node service h k = elim (Option-cases (lookup pool_name p.pools)) [
  | inl e ↦ ground (arith, h, e)
  | inr (pool, e) ↦
      let name = allocator_name pool (entity_of pool node service) in
      elim (Option-cases (lookup name p.allocators)) [
        | inl f ↦ ground (arith, h, e, f)
        | inr (none, f) ↦ ground (arith, h, e, f)
        | inr (some a, f) ↦
            note_status-same pool_name name pool a p p' f (ground (arith, h, e, f)) k
      ]
]

module _ (node service : Text) (parse_ip : Text → Option Ip) where
  one_same :
      (address : Text) (pools : Map Pool) (p p' : Pools)
      → parse_ip address ≡ none
      → mark_address node service parse_ip address pools p ≡ some p'
      → SameAllocators p p'
  unfolding mark_address
  one_same address [] p p' u h k = ground (arith, h)
  one_same address ((key, pool) ∷ rest) p p' u h k =
      elim (Option-cases (set_address_if_in_pool p pool.name node service (parse_ip address))) [
        | inl e ↦ absurd (ground (arith, h, e))
        | inr (p1, e) ↦
            one_same address rest p1 p' u (rw e at h) k
            ∙ unparsed_same p p1 pool.name node service (rw u at e) k
      ]

  -- When no text with a slash is an address to net.ParseIP, the walk over addresses that have a
  -- slash, as validate demands of the static ones and as the pools print theirs, leaves every
  -- allocator as it was: no pool learns of a static address inside its range.
  pub mark_addresses_lem :
      (addresses : List Text) (p p' : Pools)
      → ((a : Text) → ¬ HasNoSlash a → parse_ip a ≡ none)
      → All (λ a. ¬ HasNoSlash a) addresses
      → mark_addresses node service parse_ip addresses p ≡ some p'
      → SameAllocators p p'
  unfolding mark_addresses
  mark_addresses_lem [] p p' net slash h k = ground (arith, h)
  mark_addresses_lem (address ∷ rest) p p' net slash h k =
      elim (Option-cases (mark_address node service parse_ip address p.pools p)) [
        | inl e ↦ absurd (ground (arith, h, e))
        | inr (p1, e) ↦
            mark_addresses_lem rest p1 p' net slash.1 (rw e at h) k
            ∙ one_same address p.pools p p1 (net address slash.0) e k
      ]
