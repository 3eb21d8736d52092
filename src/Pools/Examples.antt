-- ===== src/Pools/Examples.antt =====
-- Tests of the registry of pools, and its theorems at two pools for the system and one for nodes.
use sfc_controller.Common.{
  ℕ, ◌≡◌, refl, ◌⊎◌, inl, Text, codes, false, Option, some, [], ◌∷◌, arith, text_eq, text_eq_iff,
  if◌then◌else◌,
}
use sfc_controller.Common.Maps.{Map, lookup, insert, IsMap, AllEntries-lookup}
use sfc_controller.Common.Sets.{member}
use sfc_controller.Ipam.{PoolAllocator, Cidr, format_ip_address, out_of_range, new_pool_allocator}
use sfc_controller.Ipam.Pool.{IsTake}
use sfc_controller.Ipam.Pool
use sfc_controller.Pools.{
  Pools, Pool, cannot_allocate, ok, err, allocator_name, entity_of, find_allocator,
  allocate_address, entity_create, create_for_all, create_for, entity_delete, delete_pool,
  scope_system, scope_node,
}
use sfc_controller.Pools.Addresses.{allocator_name_injective, allocate_address_lem}
use sfc_controller.Pools.SystemPools.{delete_pool_lem}
use sfc_controller.Pools.Registry.{Named, there_or, made, entity_create_lem, entity_create_keeps}
use sfc_controller.Pools.Removal.{HasStatus, clean, is_named, entity_delete_lem}

abbrev pool_a : Pool
pool_a = record {
  name = codes "a";
  scope = scope_system;
  network = codes "10.0.0.0/30";
  start_range = 0;
  end_range = 0;
  status = some (some []);
}

abbrev pool_b : Pool
pool_b = record pool_a { name = codes "b" }

abbrev pool_n : Pool
pool_n = record pool_a { name = codes "n"; scope = scope_node }

-- The allocator of the pool "a".
abbrev allocator_a : PoolAllocator
allocator_a = record {
  name = codes "/system/a";
  start_range = 1;
  end_range = 2;
  next_in_range = 1;
  total_in_range = 2;
  network = codes "10.0.0.0/30";
  ip_networku32 = 0x0A000000;
  ip_masku32 = 0xFFFFFFFC;
  num_bits_in_mask = 30;
  allocated = [];
}

abbrev three : Pools
three = record {
  pools = (codes "a", pool_a) ∷ (codes "b", pool_b) ∷ (codes "n", pool_n) ∷ [];
  allocators = (codes "/system/a", some allocator_a) ∷ [];
}

-- Every text is read as the network 10.0.0.0/30.
abbrev parse : Text → Option Cidr
parse t = some (Cidr.v4 0x0A000000 30)

three-IsMap : IsMap three.pools
unfolding lookup text_eq
three-IsMap = (refl, (refl, (refl, tt)))

three-Named : Named three.pools
three-Named k p e =
    AllEntries-lookup (λ k p. p.name ≡ k) three.pools k p (refl, (refl, (refl, tt))) e

three-HasStatus : HasStatus three.pools
three-HasStatus k p e =
    AllEntries-lookup (λ k p. (x : Option (Map Text)) × (p.status ≡ some x)) three.pools k p
      ((_, refl), ((_, refl), ((_, refl), tt))) e

allocator_test :
    lookup (codes "/system/b") (entity_create parse [] scope_system three).allocators
    ≡ some (new_pool_allocator (codes "/system/b") 0 0 (codes "10.0.0.0/30") (parse []))
unfolding entity_create create_for_all create_for find_allocator lookup insert text_eq
    allocator_name
allocator_test = refl

allocator_name_injective_example :
    (pool_n.scope ≡ pool_n.scope) × (pool_n.name ≡ pool_n.name) × (codes "x" ≡ codes "x")
allocator_name_injective_example =
    allocator_name_injective pool_n pool_n (codes "x") (codes "x") (inl refl) (inl refl) (refl, tt)
      (refl, tt) refl

at_a : lookup (codes "a") three.pools ≡ some pool_a
unfolding lookup text_eq
at_a = refl

at_b : lookup (codes "b") three.pools ≡ some pool_b
unfolding lookup text_eq
at_b = refl

its_allocator :
    lookup (allocator_name pool_a (entity_of pool_a [] [])) three.allocators
    ≡ some (some allocator_a)
unfolding lookup text_eq allocator_name
its_allocator = refl

allocator_a-IsValid : Pool.IsValid allocator_a
allocator_a-IsValid = record {
  ordered = omega arith;
  ends = omega arith;
  next_from = omega arith;
  next_to = omega arith;
  sized = refl;
  no_repeats = tt;
}

allocate_address_lem_example :
    ((s' : Pools) × (a' : PoolAllocator) × (id : ℕ) × (allocate_address 4 three (codes "a") [] []
        ≡ some (s', ok (format_ip_address allocator_a id, id)))
      × (out_of_range allocator_a id ≡ false)
      × (member id allocator_a.allocated ≡ false)
      × IsTake allocator_a id a'
      × ((k : Text)
          → lookup k s'.allocators ≡ (
              if text_eq (allocator_name pool_a (entity_of pool_a [] [])) k
              then some (some a')
              else lookup k three.allocators)))
    ⊎ ((s' : Pools) × (allocate_address 4 three (codes "a") [] []
          ≡ some (s', err (cannot_allocate (codes "a"))))
        × ((k : Text) → lookup k s'.allocators ≡ lookup k three.allocators)
        × (s'.pools ≡ three.pools))
allocate_address_lem_example =
    allocate_address_lem 4 three (codes "a") [] [] pool_a allocator_a at_a its_allocator refl
      allocator_a-IsValid (omega arith)

entity_create_lem_example :
    find_allocator (entity_create parse [] scope_system three) (codes "b") []
    ≡ ok (
        there_or
          (lookup (allocator_name pool_b []) three.allocators)
          (made parse [] scope_system pool_b))
entity_create_lem_example =
    entity_create_lem parse [] scope_system three (codes "b") pool_b three-IsMap three-Named
      (inl refl) at_b ((text_eq_iff scope_system scope_system).1 refl)

there : lookup (codes "/system/a") three.allocators ≡ some (some allocator_a)
unfolding lookup text_eq
there = refl

entity_create_keeps_test :
    let s' = entity_create parse [] scope_system three in
    (s'.pools ≡ three.pools) × (lookup (codes "/system/a") s'.allocators ≡ some (some allocator_a))
entity_create_keeps_test =
    entity_create_keeps parse [] scope_system three (codes "/system/a") (some allocator_a)
      three-IsMap three-Named there

entity_delete_lem_example :
    (s' : Pools) × (entity_delete [] scope_system three ≡ some s')
    × ((j : Text)
        → lookup j s'.allocators ≡ (
            if is_named [] scope_system three.pools j
            then clean (lookup j three.allocators)
            else lookup j three.allocators))
entity_delete_lem_example =
    entity_delete_lem [] scope_system three three-IsMap three-Named three-HasStatus

apart : text_eq (codes "b") (codes "a") ≡ false
unfolding text_eq
apart = refl

delete_pool_lem_example :
    (s' : Pools) × (delete_pool (codes "b") three ≡ some s')
    × (lookup (allocator_name pool_b (codes "b")) s'.allocators
        ≡ lookup (allocator_name pool_b (codes "b")) three.allocators)
    × (lookup (allocator_name pool_a (codes "b")) s'.allocators
        ≡ clean (lookup (allocator_name pool_a (codes "b")) three.allocators))
delete_pool_lem_example =
    delete_pool_lem three (codes "b") (codes "a") pool_b pool_a three-IsMap three-Named
      three-HasStatus at_b refl at_a refl apart
