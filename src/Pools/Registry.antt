-- ===== src/Pools/Registry.antt =====
-- The allocators that exist: what EntityCreate adds, and what the delete of a pool takes away.
use mathlib.Core.Path.{subst}
use mathlib.Core.List.{append_cancel_right}
use sfc_controller.Common.{
  ◌≡◌, refl, ◌∙◌, sym, ap, ◌⊎◌, inl, inr, Text, true, false, Option, none, some, [], ◌∷◌, arith,
  text_eq, text_eq_iff, text_eq_refl, Bool-cases, Option-cases,
}
use sfc_controller.Common.Maps.{
  Map, lookup, insert, lookup-insert, IsMap, AllEntries, AllEntries-lookup, lookup-AllEntries,
}
use sfc_controller.Ipam.{PoolAllocator, Cidr, new_pool_allocator}
use sfc_controller.Pools.{
  Pools, Pool, ok, allocator_name, find_allocator, create_for, create_for_all, entity_create,
  scope_system, scope_node, scope_network_service,
}

-- Each pool stands under its own name.
abbrev pub Named : Map Pool → Type 0
Named m = (k : Text) (p : Pool) → lookup k m ≡ some p → p.name ≡ k

-- A scope that pools have.
abbrev pub IsScope : Text → Type 0
IsScope scope = (scope ≡ scope_system) ⊎ (scope ≡ scope_node) ⊎ (scope ≡ scope_network_service)

-- The allocator that was there, or a new one.
abbrev pub there_or : Option (Option PoolAllocator) → Option PoolAllocator → Option PoolAllocator
there_or (some a) new = a
there_or none new = new

-- The name of an allocator tells its pool, among those of one scope and for one entity.
allocator_name-name :
    (p q : Pool) (entity : Text)
    → IsScope p.scope
    → q.scope ≡ p.scope
    → allocator_name p entity ≡ allocator_name q entity
    → p.name ≡ q.name
unfolding allocator_name text_eq
allocator_name-name p q entity (inl h) same e =
    let e' : p.name ≡ q.name = ground (arith, rw (same, h) at e) in e'
allocator_name-name p q entity (inr (inl h)) same e =
    append_cancel_right p.name q.name (b'/' ∷ entity) (ground (arith, rw (same, h) at e))
allocator_name-name p q entity (inr (inr h)) same e =
    append_cancel_right p.name q.name (b'/' ∷ entity) (ground (arith, rw (same, h) at e))

module _ (parse_cidr : Text → Option Cidr) (entity scope : Text) where
  -- What the constructor makes for the pool; nil if its network is not one of IPv4.
  abbrev pub made : Pool → Option PoolAllocator
  made p =
      new_pool_allocator (allocator_name p entity) p.start_range p.end_range p.network
        (parse_cidr p.network)

  -- The allocator stands under the name of one of a pool of the scope, and is the one made for it.
  abbrev IsMade : Pools → Text → Option PoolAllocator → Type 0
  IsMade s k a =
      (q : Pool) × (lookup q.name s.pools ≡ some q)
      × (q.scope ≡ scope)
      × (allocator_name q entity ≡ k)
      × (made q ≡ a)

  -- The registry keeps its pools and its allocators, where `s'` may have more of these, made for its
  -- pools.
  record IsMore (s s' : Pools) : Type 0 where
    same_pools : s'.pools ≡ s.pools
    keeps :
        (k : Text) (a : Option PoolAllocator)
        → lookup k s.allocators ≡ some a
        → lookup k s'.allocators ≡ some a
    origin :
        (k : Text) (a : Option PoolAllocator)
        → lookup k s'.allocators ≡ some a
        → (lookup k s.allocators ≡ some a) ⊎ IsMade s k a

  abbrev HasAllocator : Pool → Pools → Type 0
  HasAllocator p s =
      (a : Option PoolAllocator) × (lookup (allocator_name p entity) s.allocators ≡ some a)

  abbrev added : Pool → Pools → Pools
  added p s = record s { allocators = insert (allocator_name p entity) (made p) s.allocators }

  create_new :
      (p : Pool) (s : Pools)
      → lookup p.name s.pools ≡ some p
      → text_eq p.scope scope ≡ true
      → lookup (allocator_name p entity) s.allocators ≡ none
      → create_for parse_cidr entity scope p s ≡ added p s
  unfolding create_for find_allocator
  create_new p s here e new = ground (arith, here, e, new)

  create_old :
      (p : Pool) (s : Pools) (a : Option PoolAllocator)
      → lookup p.name s.pools ≡ some p
      → text_eq p.scope scope ≡ true
      → lookup (allocator_name p entity) s.allocators ≡ some a
      → create_for parse_cidr entity scope p s ≡ s
  unfolding create_for find_allocator
  create_old p s a here e old = ground (arith, here, e, old)

  create_other :
      (p : Pool) (s : Pools)
      → text_eq p.scope scope ≡ false
      → create_for parse_cidr entity scope p s ≡ s
  unfolding create_for
  create_other p s e = ground (arith, e)

  IsMore-self : (s : Pools) → IsMore s s
  IsMore-self s = record { same_pools = refl; keeps = λ k a h. h; origin = λ k a h. inl h }

  abbrev Served : Pools → Text → Pool → Type 0
  Served s k p = (text_eq p.scope scope ≡ false) ⊎ HasAllocator p s

  create_for_lem :
      (k : Text) (p : Pool) (s : Pools)
      → lookup p.name s.pools ≡ some p
      → let s' = create_for parse_cidr entity scope p s in IsMore s s' × Served s' k p
  create_for_lem k p s here = elim (Bool-cases (text_eq p.scope scope)) [
    | inr e ↦
        subst (λ s'. IsMore s s' × Served s' k p) (sym (create_other p s e)) (IsMore-self s, inl e)
    | inl e ↦ elim (Option-cases (lookup (allocator_name p entity) s.allocators)) [
      | inl new ↦
          let name = allocator_name p entity in
          subst (λ s'. IsMore s s' × Served s' k p) (sym (create_new p s here e new))
            (
              record {
                same_pools = refl;
                keeps = λ j a h. elim (Bool-cases (text_eq name j)) [
                  | inl c ↦
                      let free : lookup j s.allocators ≡ none =
                        rw ((text_eq_iff name j).0 c) at new in
                      absurd (ground (arith, free, h))
                  | inr c ↦ ground (arith, lookup-insert name j (made p) s.allocators, c, h)
                ];
                origin = λ j a h. elim (Bool-cases (text_eq name j)) [
                  | inl c ↦
                      let same : made p ≡ a =
                        ground (arith, lookup-insert name j (made p) s.allocators, c, h) in
                      inr (p, here, (text_eq_iff p.scope scope).0 e, (text_eq_iff name j).0 c, same)
                  | inr c ↦ inl (ground (arith, lookup-insert name j (made p) s.allocators, c, h))
                ];
              },
              inr (
                made p,
                ground (arith, lookup-insert name name (made p) s.allocators, text_eq_refl name),
              ),
            )
      | inr (a, old) ↦
          subst (λ s'. IsMore s s' × Served s' k p) (sym (create_old p s a here e old))
            (IsMore-self s, inr (a, old))
    ]
  ]

  IsMore-trans : (s t u : Pools) → IsMore s t → IsMore t u → IsMore s u
  IsMore-trans s t u m n = record {
    same_pools = n.same_pools ∙ m.same_pools;
    keeps = λ k a h. n.keeps k a (m.keeps k a h);
    origin = λ k a h. elim (n.origin k a h) [
      | inl there ↦ m.origin k a there
      | inr (q, here, scoped, named, new) ↦
          inr (q, ap (lookup q.name) (sym m.same_pools) ∙ here, scoped, named, new)
    ];
  }

  Served-more : (k : Text) (p : Pool) (s t : Pools) → IsMore s t → Served s k p → Served t k p
  Served-more k p s t m (inl e) = inl e
  Served-more k p s t m (inr (a, h)) = inr (a, m.keeps (allocator_name p entity) a h)

  create_for_all_lem :
      (m : Map Pool) (s : Pools)
      → AllEntries (λ k p. lookup p.name s.pools ≡ some p) m
      → let s' = create_for_all parse_cidr entity scope m s in
        IsMore s s' × AllEntries (Served s') m
  create_for_all_lem [] s h = (unfold create_for_all in IsMore-self s, tt)
  create_for_all_lem ((k, p) ∷ m) s h =
      let s1 = create_for parse_cidr entity scope p s in
      let (more, here) = create_for_lem k p s h.0 in
      let (more', rest) =
        create_for_all_lem m s1
          (subst (λ q. AllEntries (λ k p. lookup p.name q ≡ some p) m) (sym more.same_pools) h.1) in
      subst (λ s'. IsMore s s' × AllEntries (Served s') ((k, p) ∷ m)) (sym (step k p m s))
        (IsMore-trans s s1 _ more more', (Served-more k p s1 _ more' here, rest))
    where
      step :
          (k : Text) (p : Pool) (m : Map Pool) (s : Pools)
          → create_for_all parse_cidr entity scope ((k, p) ∷ m) s
            ≡ create_for_all parse_cidr entity scope m (create_for parse_cidr entity scope p s)
      step k p m s = unfold create_for_all in refl

  created :
      (s : Pools)
      → IsMap s.pools
      → Named s.pools
      → let s' = entity_create parse_cidr entity scope s in
        IsMore s s' × AllEntries (Served s') s.pools
  unfolding entity_create
  created s h named = create_for_all_lem s.pools s (
      lookup-AllEntries (λ k p. lookup p.name s.pools ≡ some p) s.pools h
        (λ k p e. ap (λ j. lookup j s.pools) (named k p e) ∙ e))

  -- EntityCreate, for one of the three scopes of pools, on a registry whose pools stand under their own
  -- names: for each pool of the scope, FindAllocator then finds for the entity the pointer that was
  -- there, and if there was none the allocator that is made of the range and the network of the
  -- pool, which is nil only if the network is not one of IPv4.
  pub entity_create_lem :
      (s : Pools) (k : Text) (p : Pool)
      → IsMap s.pools
      → Named s.pools
      → IsScope p.scope
      → lookup k s.pools ≡ some p
      → text_eq p.scope scope ≡ true
      → find_allocator (entity_create parse_cidr entity scope s) k entity
        ≡ ok (there_or (lookup (allocator_name p entity) s.allocators) (made p))
  unfolding find_allocator
  entity_create_lem s k p h named is_scope here in_scope =
      let (more, served) = created s h named in
      let name = allocator_name p entity in
      elim (AllEntries-lookup _ s.pools k p served here) [
        | inl other ↦ absurd (ground (arith, other, in_scope))
        | inr (a, found) ↦ elim (Option-cases (lookup name s.allocators)) [
          | inr (old, e) ↦
              let kept = more.keeps name old e in ground (arith, more.same_pools, here, kept, e)
          | inl e ↦ elim (more.origin name a found) [
            | inl old ↦ absurd (ground (arith, e, old))
            | inr (q, at_q, q_scope, q_name, q_made) ↦
                let names : p.name ≡ q.name =
                  allocator_name-name p q entity is_scope
                    (q_scope ∙ sym ((text_eq_iff p.scope scope).0 in_scope)) (sym q_name) in
                let at_p : lookup q.name s.pools ≡ some p =
                  ap (λ j. lookup j s.pools) (sym names ∙ named k p here) ∙ here in
                let same : q ≡ p = cc (at_q, at_p) in
                let a_made : made p ≡ a = subst (λ x. made x ≡ a) same q_made in
                ground (arith, more.same_pools, here, found, e, a_made)
          ]
        ]
      ]

  -- EntityCreate on a registry whose pools stand under their own names: it keeps the pools, and an
  -- allocator that was there is there still, with the addresses that it had allocated.
  pub entity_create_keeps :
      (s : Pools) (k : Text) (a : Option PoolAllocator)
      → IsMap s.pools
      → Named s.pools
      → lookup k s.allocators ≡ some a
      → let s' = entity_create parse_cidr entity scope s in
        (s'.pools ≡ s.pools) × (lookup k s'.allocators ≡ some a)
  entity_create_keeps s k a h named here =
      let (more, served) = created s h named in (more.same_pools, more.keeps k a here)
