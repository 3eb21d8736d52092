-- ===== src/Pools.antt =====
-- plugins/controller/ipampool.go: the IPAM pools and their allocators, one for each node, service
-- or system that a pool serves. `none` is a run-time panic, or too little fuel for an allocation.
pub mod Registry
pub mod Removal
pub mod SystemPools
pub mod Addresses
mod Examples
use mathlib.Core.Option
use sfc_controller.Common.{
  ℕ, Text, codes, Bool, true, false, ◌||◌, Option, none, some, List, [], ◌∷◌, ◌++◌, text_eq,
  if◌then◌else◌, ◌>>=◌,
}
use sfc_controller.Common.Maps.{Map, lookup, insert, erase}
use sfc_controller.Ipam
use sfc_controller.Ipam.{
  Cidr, Ip, PoolAllocator, new_pool_allocator, allocate_ip_address, set_ip_addr_if_inside_pool,
  allocated_status,
}

abbrev pub scope_any : Text
scope_any = codes "any"

abbrev pub scope_system : Text
scope_system = codes "system"

abbrev pub scope_node : Text
scope_node = codes "node"

abbrev pub scope_network_service : Text
scope_network_service = codes "network_service"

-- Metadata.Name, the fields of Spec, and Status with its map of addresses: a nil pointer is
-- `none`, and so is a nil map.
pub record Pool : Type 0 where
  pub name : Text
  pub scope : Text
  pub network : Text
  pub start_range : ℕ
  pub end_range : ℕ
  pub status : Option (Option (Map Text))

-- ipamPoolCache, and ramCache.IPAMPoolAllocators, whose pointers may be nil.
pub record Pools : Type 0 where
  pub pools : Map Pool
  pub allocators : Map (Option PoolAllocator)

pub data Error : Type 0 where
  pool_not_found : Text → Error
  allocator_not_found : Text → Text → Error
  no_allocator_for : Text → Error → Error
  cannot_allocate : Text → Error

pub data Result {ℓ} (A : Type ℓ) : Type ℓ where
  ok : A → Result A
  err : Error → Result A

unfoldable pub allocator_name : Pool → Text → Text
allocator_name p entity =
    if text_eq p.scope scope_system
    then b'/' ∷ (p.scope ++ b'/' ∷ p.name)
    else if text_eq p.scope scope_node || text_eq p.scope scope_network_service
    then b'/' ∷ (p.scope ++ b'/' ∷ (p.name ++ b'/' ∷ entity))
    else []

-- The switch on the scope: the entity that the pool keeps an allocator for.
abbrev pub entity_of : Pool → Text → Text → Text
entity_of p node service =
    if text_eq p.scope scope_node
    then node
    else if text_eq p.scope scope_network_service
    then service
    else []

unfoldable pub find_allocator : Pools → Text → Text → Result (Option PoolAllocator)
find_allocator s pool_name entity = elim (lookup pool_name s.pools) [
  | none ↦ err (pool_not_found pool_name)
  | some pool ↦ elim (lookup (allocator_name pool entity) s.allocators) [
    | none ↦ err (allocator_not_found pool_name (allocator_name pool entity))
    | some a ↦ ok a
  ]
]

-- ipamPool.Status.Addresses[allocatorPool.Name] = ...
abbrev pub note_status : Text → Pool → PoolAllocator → Pools → Option Pools
note_status pool_name pool a s = elim pool.status [
  | some (some addresses) ↦
      let addresses' = insert a.name (allocated_status a) addresses in
      some (record s {
        pools = insert pool_name (record pool { status = some (some addresses') }) s.pools;
      })
  | _ ↦ none
]

-- The allocator that a pointer of the map refers to is changed in place.
abbrev pub change : Text → PoolAllocator → Pools → Pools
change name a s = record s { allocators = insert name (some a) s.allocators }

unfoldable pub allocate_address :
    ℕ → Pools → Text → Text → Text → Option (Pools × Result (Text × ℕ))
allocate_address fuel s pool_name node service = elim (lookup pool_name s.pools) [
  | none ↦ some (s, err (pool_not_found pool_name))
  | some pool ↦
      let entity = entity_of pool node service in
      elim (find_allocator s pool_name entity) [
        | err e ↦ some (s, err (no_allocator_for pool_name e))
        | ok none ↦ none
        | ok (some a) ↦ elim (allocate_ip_address fuel a) [
          | none ↦ none
          | some (a', Ipam.err e) ↦
              some (change (allocator_name pool entity) a' s, err (cannot_allocate pool_name))
          | some (a', Ipam.ok r) ↦
              Option.map (λ s'. (s', ok r))
                (note_status pool_name pool a' (change (allocator_name pool entity) a' s))
        ]
      ]
]

unfoldable pub set_address : Pools → Text → Text → Text → ℕ → Option (Pools × Result Text)
set_address s pool_name node service id = elim (lookup pool_name s.pools) [
  | none ↦ some (s, err (pool_not_found pool_name))
  | some pool ↦
      let entity = entity_of pool node service in
      elim (find_allocator s pool_name entity) [
        | err e ↦ some (s, err (no_allocator_for pool_name e))
        | ok none ↦ none
        | ok (some a) ↦
            let (a', answer) = Ipam.set_address a id in
            elim answer [
              | Ipam.err e ↦
                  some (change (allocator_name pool entity) a' s, err (cannot_allocate pool_name))
              | Ipam.ok r ↦
                  Option.map (λ s'. (s', ok r))
                    (note_status pool_name pool a' (change (allocator_name pool entity) a' s))
            ]
      ]
]

-- The last argument is net.ParseIP of the text of the address.
unfoldable pub set_address_if_in_pool : Pools → Text → Text → Text → Option Ip → Option Pools
set_address_if_in_pool s pool_name node service ip = elim (lookup pool_name s.pools) [
  | none ↦ some s
  | some pool ↦
      let entity = entity_of pool node service in
      elim (find_allocator s pool_name entity) [
        | err e ↦ some s
        | ok none ↦ none
        | ok (some a) ↦
            let a' = set_ip_addr_if_inside_pool a ip in
            note_status pool_name pool a' (change (allocator_name pool entity) a' s)
      ]
]

-- The argument is net.ParseCIDR.
module _ (parse_cidr : Text → Option Cidr) where
  -- One round of the loop of EntityCreate.
  unfoldable pub create_for : Text → Text → Pool → Pools → Pools
  create_for entity scope pool s =
      if text_eq pool.scope scope
      then elim (find_allocator s pool.name entity) [
        | ok a ↦ s
        | err e ↦
            let name = allocator_name pool entity in
            let a =
              new_pool_allocator name pool.start_range pool.end_range pool.network
                (parse_cidr pool.network) in
            record s { allocators = insert name a s.allocators }
      ]
      else s

  unfoldable pub create_for_all : Text → Text → Map Pool → Pools → Pools
  create_for_all entity scope [] s = s
  create_for_all entity scope ((key, pool) ∷ rest) s =
      create_for_all entity scope rest (create_for entity scope pool s)

  unfoldable pub entity_create : Text → Text → Pools → Pools
  entity_create entity scope s = create_for_all entity scope s.pools s

  unfoldable pub entity_create_each : List Text → Text → Pools → Pools
  entity_create_each [] scope s = s
  entity_create_each (entity ∷ rest) scope s =
      entity_create_each rest scope (entity_create entity scope s)

  -- HandleCRUDOperationCU up to the write to the datastore; the lists are the names of the nodes and
  -- of the services.
  unfoldable pub create_update : List Text → List Text → Pool → Pools → Pools
  create_update nodes services pool s =
      let fresh = record pool { status = none } in
      let s1 = record s { pools = insert pool.name fresh s.pools } in
      let s2 =
        if text_eq pool.scope scope_system
        then entity_create [] pool.scope s1
        else if text_eq pool.scope scope_node
        then entity_create_each nodes pool.scope s1
        else if text_eq pool.scope scope_network_service
        then entity_create_each services pool.scope s1
        else s1 in
      record s2 { pools = insert pool.name (record fresh { status = some (some []) }) s2.pools }

-- One round of the loop of EntityDelete.
unfoldable pub delete_for : Text → Text → Text → Pool → Pools → Option Pools
delete_for entity scope key pool s =
    if text_eq pool.scope scope || text_eq scope scope_any
    then elim (find_allocator s pool.name entity) [
      | ok (some a) ↦ elim pool.status [
        | none ↦ none
        | some addresses ↦
            let name = allocator_name pool entity in
            let status = some (Option.map (erase name) addresses) in
            some (record {
              pools = insert key (record pool { status = status }) s.pools;
              allocators = erase name s.allocators;
            })
      ]
      | _ ↦ some s
    ]
    else some s

unfoldable pub delete_for_all : Text → Text → Map Pool → Pools → Option Pools
delete_for_all entity scope [] s = some s
delete_for_all entity scope ((key, pool) ∷ rest) s = do
  s' ← delete_for entity scope key pool s
  delete_for_all entity scope rest s'

unfoldable pub entity_delete : Text → Text → Pools → Option Pools
entity_delete entity scope s = delete_for_all entity scope s.pools s

-- HandleCRUDOperationD, whose call of the datastore cannot fail.
unfoldable pub delete_pool : Text → Pools → Option Pools
delete_pool name s = elim (lookup name s.pools) [
  | none ↦ some s
  | some pool ↦ entity_delete name pool.scope (record s { pools = erase name s.pools })
]
