-- ===== src/Pools/Removal.antt =====
-- EntityDelete: which allocators it takes away.
use mathlib.Core.Option
use sfc_controller.Common.{
  ◌≡◌, refl, ◌∙◌, sym, ap, inl, inr, Text, Bool, true, false, ◌||◌, ◌&&◌, Option, none, some, [],
  ◌∷◌, arith, text_eq, text_eq_iff, text_eq_refl, if◌then◌else◌, Bool-cases, Option-cases,
}
use sfc_controller.Common.Maps.{
  Map, lookup, insert, erase, lookup-insert, lookup-erase, IsMap, AllEntries, AllEntries-lookup,
  lookup-AllEntries,
}
use sfc_controller.Ipam.{PoolAllocator}
use sfc_controller.Pools.{
  Pools, Pool, allocator_name, find_allocator, delete_for, delete_for_all, entity_delete, scope_any,
}
use sfc_controller.Pools.Registry.{Named}

-- A pointer that is not nil is taken away.
abbrev pub clean : Option (Option PoolAllocator) → Option (Option PoolAllocator)
clean (some (some a)) = none
clean o = o

clean_twice : (o : Option (Option PoolAllocator)) → clean (clean o) ≡ clean o
clean_twice none = refl
clean_twice (some none) = refl
clean_twice (some (some a)) = refl

-- The status of each pool is there.
abbrev pub HasStatus : Map Pool → Type 0
HasStatus m =
    (k : Text) (p : Pool) → lookup k m ≡ some p → (x : Option (Map Text)) × (p.status ≡ some x)

module _ (entity scope : Text) where
  abbrev pub in_scope : Pool → Bool
  in_scope p = text_eq p.scope scope || text_eq scope scope_any

  -- Whether a pool of the scope has its allocator for the entity under the name `j`.
  abbrev pub is_named : Map Pool → Text → Bool
  is_named [] j = false
  is_named ((k, p) ∷ m) j = (in_scope p && text_eq (allocator_name p entity) j) || is_named m j

  abbrev Ready : Pools → Text → Pool → Type 0
  Ready s k p =
      (lookup k s.pools ≡ some p) × (p.name ≡ k) × ((x : Option (Map Text)) × (p.status ≡ some x))

  record IsCleaned (k : Text) (p : Pool) (s s' : Pools) : Type 0 where
    others : (j : Text) → text_eq k j ≡ false → lookup j s'.pools ≡ lookup j s.pools
    allocators :
        (j : Text)
        → lookup j s'.allocators ≡ (
            if in_scope p && text_eq (allocator_name p entity) j
            then clean (lookup j s.allocators)
            else lookup j s.allocators)

  module _ (k : Text) (p : Pool) (s : Pools) (r : Ready s k p) where
    abbrev name : Text
    name = allocator_name p entity

    skipped : in_scope p ≡ false → delete_for entity scope k p s ≡ some s
    unfolding delete_for
    skipped e = ground (arith, e)

    found : find_allocator s p.name entity ≡ find_allocator s k entity
    found = ap (λ j. find_allocator s j entity) r.1

    nothing :
        clean (lookup name s.allocators) ≡ lookup name s.allocators
        → delete_for entity scope k p s ≡ some s
    unfolding delete_for find_allocator
    nothing e = elim (Option-cases (lookup name s.allocators)) [
      | inl h ↦ ground (arith, r.0, r.1, h)
      | inr (none, h) ↦ ground (arith, r.0, r.1, h)
      | inr (some a, h) ↦ absurd (ground (arith, e, h))
    ]

    abbrev erased : Option (Map Text) → Pool
    erased x = record p { status = some (Option.map (erase name) x) }

    abbrev removed : Option (Map Text) → Pools
    removed x = record { pools = insert k (erased x) s.pools; allocators = erase name s.allocators }

    taken :
        (a : PoolAllocator)
        → in_scope p ≡ true
        → lookup name s.allocators ≡ some (some a)
        → delete_for entity scope k p s ≡ some (removed r.2.0)
    unfolding delete_for find_allocator
    taken a e h = ground (arith, e, h, r.0, r.1, r.2.1)

    delete_for_lem : (s' : Pools) × (delete_for entity scope k p s ≡ some s') × IsCleaned k p s s'
    delete_for_lem = elim (Bool-cases (in_scope p)) [
      | inr e ↦ (s, skipped e, record { others = λ j h. refl; allocators = λ j. ground (arith, e) })
      | inl e ↦ elim (Option-cases (lookup name s.allocators)) [
        | inr (some a, h) ↦ (
          removed r.2.0,
          taken a e h,
          record {
            others = λ j h. ground (arith, lookup-insert k j (erased r.2.0) s.pools, h);
            allocators = λ j. elim (Bool-cases (text_eq name j)) [
              | inl c ↦
                  let at_j : lookup j s.allocators ≡ some (some a) =
                    rw ((text_eq_iff name j).0 c) at h in
                  ground (arith, e, c, at_j, lookup-erase name j s.allocators)
              | inr c ↦ ground (arith, e, c, lookup-erase name j s.allocators)
            ];
          },
        )
        | inr (none, h) ↦ kept_as_is (ap clean h ∙ sym h)
        | inl h ↦ kept_as_is (ap clean h ∙ sym h)
      ]
    ]
      where
        kept_as_is :
            clean (lookup name s.allocators) ≡ lookup name s.allocators
            → (s' : Pools) × (delete_for entity scope k p s ≡ some s') × IsCleaned k p s s'
        kept_as_is same = (
          s,
          nothing same,
          record {
            others = λ j h. refl;
            allocators = λ j. elim (Bool-cases (text_eq name j)) [
              | inl c ↦
                  let at_j : clean (lookup j s.allocators) ≡ lookup j s.allocators =
                    rw ((text_eq_iff name j).0 c) at same in
                  ground (arith, c, at_j)
              | inr c ↦ ground (arith, c)
            ];
          },
        )

  delete_step :
      (k : Text) (p : Pool) (m : Map Pool) (s s1 : Pools)
      → delete_for entity scope k p s ≡ some s1
      → delete_for_all entity scope ((k, p) ∷ m) s ≡ delete_for_all entity scope m s1
  delete_step k p m s s1 e = unfold delete_for_all in ground (arith, e)

  -- What holds of the later entries holds after a change of the first.
  Ready-rest :
      (k : Text) (p : Pool) (m : Map Pool) (s s1 : Pools)
      → lookup k m ≡ none
      → IsCleaned k p s s1
      → AllEntries (Ready s) m
      → IsMap m
      → AllEntries (Ready s1) m
  Ready-rest k p m s s1 fresh c h unique = lookup-AllEntries (Ready s1) m unique (λ j q e.
      let r = AllEntries-lookup (Ready s) m j q h e in (c.others j (apart j q e) ∙ r.0, r.1, r.2))
    where
      apart : (j : Text) (q : Pool) → lookup j m ≡ some q → text_eq k j ≡ false
      apart j q e = elim (Bool-cases (text_eq k j)) [
        | inl w ↦
            let gone : lookup j m ≡ none = rw ((text_eq_iff k j).0 w) at fresh in
            absurd (ground (arith, gone, e))
        | inr w ↦ w
      ]

  delete_for_all_lem :
      (m : Map Pool) (s : Pools)
      → IsMap m
      → AllEntries (Ready s) m
      → (s' : Pools) × (delete_for_all entity scope m s ≡ some s')
        × ((j : Text)
            → lookup j s'.allocators
              ≡ (if is_named m j then clean (lookup j s.allocators) else lookup j s.allocators))
  delete_for_all_lem [] s h r = (s, unfold delete_for_all in refl, λ j. refl)
  delete_for_all_lem ((k, p) ∷ m) s h r =
      let (s1, e, c) = delete_for_lem k p s r.0 in
      let (s', q, all) = delete_for_all_lem m s1 h.1 (Ready-rest k p m s s1 h.0 c r.1 h.1) in
      (
        s',
        delete_step k p m s s1 e ∙ q,
        λ j. ground (arith, all j, c.allocators j, clean_twice (lookup j s.allocators)),
      )

  -- EntityDelete on a registry whose pools stand under their own names and have a status: it does
  -- not panic. An allocator is taken away exactly when its name is that of a pool of the scope, or of any
  -- pool for the scope "any", for the entity; a nil pointer stays.
  pub entity_delete_lem :
      (s : Pools)
      → IsMap s.pools
      → Named s.pools
      → HasStatus s.pools
      → (s' : Pools) × (entity_delete entity scope s ≡ some s')
        × ((j : Text)
            → lookup j s'.allocators ≡ (
                if is_named s.pools j
                then clean (lookup j s.allocators)
                else lookup j s.allocators))
  unfolding entity_delete
  entity_delete_lem s h named has =
      delete_for_all_lem s.pools s h
        (lookup-AllEntries (Ready s) s.pools h (λ k p e. (e, named k p e, has k p e)))

  -- A pool of the scope names its allocator.
  pub is_named-lookup :
      (m : Map Pool) (k : Text) (p : Pool)
      → lookup k m ≡ some p
      → in_scope p ≡ true
      → is_named m (allocator_name p entity) ≡ true
  unfolding lookup
  is_named-lookup [] k p e i = absurd (ground (arith, e))
  is_named-lookup ((j, q) ∷ m) k p e i = elim (Bool-cases (text_eq j k)) [
    | inl c ↦
        let same : q ≡ p = ground (arith, e, c) in
        rw same (ground (arith, i, text_eq_refl (allocator_name p entity)))
    | inr c ↦ ground (arith, is_named-lookup m k p (ground (arith, e, c)) i)
  ]

  -- A name that is not that of the allocator of a pool of the scope.
  pub is_named_none :
      (m : Map Pool) (j : Text)
      → IsMap m
      → ((k : Text) (p : Pool)
          → lookup k m ≡ some p
          → in_scope p ≡ true
          → text_eq (allocator_name p entity) j ≡ false)
      → is_named m j ≡ false
  is_named_none m j h f = go m (
      lookup-AllEntries (λ k p. in_scope p && text_eq (allocator_name p entity) j ≡ false) m h
        (λ k p e. ground (arith, f k p e)))
    where
      go :
          (m : Map Pool)
          → AllEntries (λ k p. (in_scope p && text_eq (allocator_name p entity) j) ≡ false) m
          → is_named m j ≡ false
      go [] a = refl
      go ((k, p) ∷ m) a = ground (arith, a.0, go m a.1)
