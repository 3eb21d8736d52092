-- ===== src/Pools/Addresses.antt =====
-- AllocateAddress through the registry of pools, and the names that keep the allocators apart.
use sfc_controller.Common.{
  ℕ, ◌+◌, ◌<◌, ◌≡◌, refl, ◌∙◌, sym, ap, ◌⊎◌, inl, inr, Text, false, some, [], ◌∷◌, ◌++◌, arith,
  text_eq, text_eq_iff, if◌then◌else◌, Bool-cases,
}
use sfc_controller.Common.Texts.{HasNoSlash}
use sfc_controller.Common.Maps.{Map, lookup, insert, lookup-insert}
use sfc_controller.Ipam
use sfc_controller.Ipam.{
  PoolAllocator, allocate_ip_address, format_ip_address, out_of_range, allocated_status,
}
use sfc_controller.Ipam.Pool.{IsTake, allocate_ip_address_lem}
use sfc_controller.Ipam.Pool
use sfc_controller.Common.Sets.{member}
use sfc_controller.Pools.{
  Pools, Pool, cannot_allocate, ok, err, allocator_name, entity_of, find_allocator, note_status,
  change, allocate_address, scope_node, scope_network_service,
}

-- A text up to its first slash.
split_unique :
    (s t u v : Text)
    → HasNoSlash s
    → HasNoSlash t
    → s ++ b'/' ∷ u ≡ t ++ b'/' ∷ v
    → (s ≡ t) × (u ≡ v)
split_unique [] [] u v hs ht e = (refl, ground (arith, e))
split_unique [] (d ∷ t) u v hs ht e = ground (arith, e, ht.0)
split_unique (c ∷ s) [] u v hs ht e = ground (arith, e, hs.0)
split_unique (c ∷ s) (d ∷ t) u v hs ht e =
    let heads : c ≡ d = ground (arith, e) in
    let tails : s ++ b'/' ∷ u ≡ t ++ b'/' ∷ v = ground (arith, e) in
    let (p, q) = split_unique s t u v hs.1 ht.1 tails in (ground (arith, heads, p), q)

abbrev pub IsScoped : Pool → Type 0
IsScoped p = (p.scope ≡ scope_node) ⊎ (p.scope ≡ scope_network_service)

scope_node_text : HasNoSlash scope_node
scope_node_text = (refl, (refl, (refl, (refl, tt))))

scope_network_service_text : HasNoSlash scope_network_service
scope_network_service_text = (
  refl,
  (
    refl,
    (
      refl,
      (
        refl,
        (refl, (refl, (refl, (refl, (refl, (refl, (refl, (refl, (refl, (refl, (refl, tt))))))))))),
      ),
    ),
  ),
)

allocator_name_scoped :
    (p : Pool) (e : Text)
    → IsScoped p
    → HasNoSlash p.scope × (allocator_name p e ≡ b'/' ∷ (p.scope ++ b'/' ∷ (p.name ++ b'/' ∷ e)))
unfolding allocator_name text_eq
allocator_name_scoped p e (inl h) = rw h (scope_node_text, refl)
allocator_name_scoped p e (inr h) = rw h (scope_network_service_text, refl)

-- Two allocators of pools for nodes or services, of which no pool has a slash in its name, have the same name
-- only if scope, pool and entity are the same.
pub allocator_name_injective :
    (p q : Pool) (e f : Text)
    → IsScoped p
    → IsScoped q
    → HasNoSlash p.name
    → HasNoSlash q.name
    → allocator_name p e ≡ allocator_name q f
    → (p.scope ≡ q.scope) × (p.name ≡ q.name) × (e ≡ f)
allocator_name_injective p q e f hp hq np nq same =
    let (sp, ep) = allocator_name_scoped p e hp in
    let (sq, eq) = allocator_name_scoped q f hq in
    let tails : p.scope ++ b'/' ∷ (p.name ++ b'/' ∷ e) ≡ q.scope ++ b'/' ∷ (q.name ++ b'/' ∷ f) =
      ground (arith, sym ep ∙ same ∙ eq) in
    let (scopes, rest) =
      split_unique p.scope q.scope (p.name ++ b'/' ∷ e) (q.name ++ b'/' ∷ f) sp sq tails in
    let (names, entities) = split_unique p.name q.name e f np nq rest in (scopes, names, entities)

module _ (fuel : ℕ) (s : Pools) (pool_name node service : Text) (pool : Pool) (a : PoolAllocator)
    (here : lookup pool_name s.pools ≡ some pool)
    (allocator : lookup (allocator_name pool (entity_of pool node service)) s.allocators
      ≡ some (some a)) where
  abbrev name : Text
  name = allocator_name pool (entity_of pool node service)

  found : find_allocator s pool_name (entity_of pool node service) ≡ ok (some a)
  unfolding find_allocator
  found = ground (arith, here, allocator)

  refused :
      (e : Ipam.Error)
      → allocate_ip_address fuel a ≡ some (a, Ipam.err e)
      → allocate_address fuel s pool_name node service
        ≡ some (change name a s, err (cannot_allocate pool_name))
  unfolding allocate_address
  refused e p = ground (arith, here, found, p)

  granted :
      (a' : PoolAllocator) (r : Text × ℕ) (s' : Pools)
      → allocate_ip_address fuel a ≡ some (a', Ipam.ok r)
      → note_status pool_name pool a' (change name a' s) ≡ some s'
      → allocate_address fuel s pool_name node service ≡ some (s', ok r)
  unfolding allocate_address
  granted a' r s' p q = ground (arith, here, found, p, q)

  noted :
      (a' : PoolAllocator) (addresses : Map Text)
      → pool.status ≡ some (some addresses)
      → (s' : Pools) × (note_status pool_name pool a' (change name a' s) ≡ some s')
        × (s'.allocators ≡ insert name (some a') s.allocators)
  noted a' addresses e =
      let noted_pool = record pool {
        status = some (some (insert a'.name (allocated_status a') addresses));
      } in
      (
        record (change name a' s) { pools = insert pool_name noted_pool s.pools },
        ground (arith, e),
        refl,
      )

  unchanged : (k : Text) → lookup k (change name a s).allocators ≡ lookup k s.allocators
  unchanged k = elim (Bool-cases (text_eq name k)) [
    | inl h ↦
        let at_k : lookup k s.allocators ≡ some (some a) =
          rw ((text_eq_iff name k).0 h) at allocator in
        ground (arith, lookup-insert name k (some a) s.allocators, h, at_k)
    | inr h ↦ ground (arith, lookup-insert name k (some a) s.allocators, h)
  ]

  -- AllocateAddress, for a pool whose allocator is there and valid and whose status has its map,
  -- with fuel for the range: it does not panic. Either it returns an address whose id is in the
  -- range and was free, takes it in this allocator and leaves the other allocators as they were;
  -- or it returns the error and leaves all allocators and pools as they were.
  pub allocate_address_lem :
      {addresses : Map Text}
      → pool.status ≡ some (some addresses)
      → Pool.IsValid a
      → a.end_range + 1 < fuel
      → ((s' : Pools) × (a' : PoolAllocator) × (id : ℕ) × (allocate_address fuel s pool_name node
              service
            ≡ some (s', ok (format_ip_address a id, id)))
          × (out_of_range a id ≡ false)
          × (member id a.allocated ≡ false)
          × IsTake a id a'
          × ((k : Text)
              → lookup k s'.allocators
                ≡ (if text_eq name k then some (some a') else lookup k s.allocators)))
        ⊎ ((s' : Pools) × (allocate_address fuel s pool_name node service
              ≡ some (s', err (cannot_allocate pool_name)))
            × ((k : Text) → lookup k s'.allocators ≡ lookup k s.allocators)
            × (s'.pools ≡ s.pools))
  allocate_address_lem {addresses} status h enough =
      elim (allocate_ip_address_lem fuel a h enough) [
        | inl (a', id, e, inside, free, next, take) ↦
            let (s', p, same) = noted a' addresses status in
            inl (
              s',
              a',
              id,
              granted a' _ s' e p,
              inside,
              free,
              take,
              λ k. ap (lookup k) same ∙ lookup-insert name k (some a') s.allocators,
            )
        | inr (inl (e, full)) ↦ inr (change name a s, refused _ e, unchanged, refl)
        | inr (inr (e, full)) ↦ inr (change name a s, refused _ e, unchanged, refl)
      ]
