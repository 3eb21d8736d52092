-- ===== src/Pools/SystemPools.antt =====
-- The delete of a system pool, HandleCRUDOperationD: the allocators that it leaves and takes away.
use sfc_controller.Common.{
  ◌≡◌, refl, ◌∙◌, sym, inl, inr, Text, true, false, some, ◌∷◌, ◌++◌, arith, text_eq, text_eq_iff,
  Bool-cases,
}
use sfc_controller.Common.Maps.{lookup, erase, lookup-erase, IsMap, erase-IsMap}
use sfc_controller.Pools.{
  Pools, Pool, allocator_name, entity_delete, delete_pool, scope_system, scope_any,
}
use sfc_controller.Pools.Registry.{Named}
use sfc_controller.Pools.Removal.{
  HasStatus, clean, in_scope, is_named, entity_delete_lem, is_named-lookup, is_named_none,
}

allocator_name_system :
    (p : Pool) (e : Text)
    → p.scope ≡ scope_system
    → allocator_name p e ≡ b'/' ∷ (scope_system ++ b'/' ∷ p.name)
unfolding allocator_name text_eq
allocator_name_system p e h = rw h refl

same_system_name :
    (p q : Pool) (e : Text)
    → p.scope ≡ scope_system
    → q.scope ≡ scope_system
    → allocator_name p e ≡ allocator_name q e
    → p.name ≡ q.name
same_system_name p q e hp hq same =
    let tails : scope_system ++ b'/' ∷ p.name ≡ scope_system ++ b'/' ∷ q.name =
      ground (arith, sym (allocator_name_system p e hp) ∙ same ∙ allocator_name_system q e hq) in
    ground (arith, tails)

-- Only the scope "system" is that scope.
is_system : (p : Pool) (e : Text) → in_scope e scope_system p ≡ true → p.scope ≡ scope_system
unfolding text_eq
is_system p e h = (text_eq_iff p.scope scope_system).0 (ground (arith, h, system_is_not_any))
  where
    system_is_not_any : text_eq scope_system scope_any ≡ false
    system_is_not_any = refl

delete_pool_found :
    (s : Pools) (name : Text) (p : Pool)
    → lookup name s.pools ≡ some p
    → p.scope ≡ scope_system
    → delete_pool name s ≡ entity_delete name scope_system (record s { pools = erase name s.pools })
unfolding delete_pool
delete_pool_found s name p hp sp = ground (arith, hp, sp)

-- The delete of a pool with the scope "system", in a registry whose pools stand under their own
-- names and have a status: the allocator of the pool itself is kept, and that of each other pool
-- with this scope is taken away.
pub delete_pool_lem :
    (s : Pools) (name other : Text) (p q : Pool)
    → IsMap s.pools
    → Named s.pools
    → HasStatus s.pools
    → lookup name s.pools ≡ some p
    → p.scope ≡ scope_system
    → lookup other s.pools ≡ some q
    → q.scope ≡ scope_system
    → text_eq name other ≡ false
    → (s' : Pools) × (delete_pool name s ≡ some s')
      × (lookup (allocator_name p name) s'.allocators ≡ lookup (allocator_name p name) s.allocators)
      × (lookup (allocator_name q name) s'.allocators
          ≡ clean (lookup (allocator_name q name) s.allocators))
delete_pool_lem s name other p q h named has hp sp hq sq apart =
    let s0 = record s { pools = erase name s.pools } in
    let left : (k : Text) (r : Pool) → lookup k s0.pools ≡ some r → lookup k s.pools ≡ some r =
      λ k r e. ground (arith, e, lookup-erase name k s.pools) in
    let (s', e, all) =
      entity_delete_lem name scope_system s0 (erase-IsMap name s.pools h)
        (λ k r e. named k r (left k r e)) (λ k r e. has k r (left k r e)) in
    let own : is_named name scope_system s0.pools (allocator_name p name) ≡ false =
      is_named_none name scope_system s0.pools (allocator_name p name) (erase-IsMap name s.pools h)
        (λ k r e i. elim (Bool-cases (text_eq (allocator_name r name) (allocator_name p name))) [
          | inl same ↦
              let names : r.name ≡ p.name =
                same_system_name r p name (is_system r name i) sp
                  ((text_eq_iff (allocator_name r name) (allocator_name p name)).0 same) in
              let key : text_eq name k ≡ true =
                (text_eq_iff name k).1
                  (sym (named name p hp) ∙ sym names ∙ named k r (left k r e)) in
              absurd (ground (arith, e, lookup-erase name k s.pools, key))
          | inr different ↦ different
        ]) in
    let its : is_named name scope_system s0.pools (allocator_name q name) ≡ true =
      is_named-lookup name scope_system s0.pools other q
        (ground (arith, hq, apart, lookup-erase name other s.pools))
        (ground (arith, (text_eq_iff q.scope scope_system).1 sq)) in
    (
      s',
      delete_pool_found s name p hp sp ∙ e,
      ground (arith, all (allocator_name p name), own),
      ground (arith, all (allocator_name q name), its),
    )
