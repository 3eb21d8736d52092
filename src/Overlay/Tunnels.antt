-- ===== src/Overlay/Tunnels.antt =====
-- plugins/controller/networknodeoverlay.go: AllocateVxlanAddress, with FindVxlanIPaddress and
-- FindInterfacesForThisLabelInNode of plugins/controller/networknode.go.
use mathlib.Core.Option
use sfc_controller.Common.{
  ℕ, ◌≡◌, Text, false, Option-cases, Bool-cases, inl, inr, arith, Option, none, some, List, [], ◌∷◌,
  ◌++◌, text_eq, text_eq_iff, if◌then◌else◌,
}
use sfc_controller.Common.Maps.{Map, lookup, insert, lookup-insert}
use sfc_controller.Model.{Interface, if_type_vxlan_tunnel, if_type_ethernet}
use sfc_controller.Ipam
use sfc_controller.Ipam.{PoolAllocator, allocate_ip_address}
use sfc_controller.Pools.{Pools, allocator_name, find_allocator, change}
use sfc_controller.Pools
use sfc_controller.Overlay.{State, NetworkNode}

pub data TunnelError : Type 0 where
  node_not_found : Text → TunnelError
  no_vxlan_address : Text → TunnelError
  not_one_interface : Text → TunnelError
  not_ethernet_with_address : Text → TunnelError
  no_vxlan_pool : Text → Pools.Error → TunnelError
  no_address : Text → TunnelError

pub data Answer : Type 0 where
  address : Text → ℕ → Answer
  failed : TunnelError → Answer

-- The first text that net.ParseCIDR takes, as the text of its address.
unfoldable pub first_address : (Text → Option Text) → List Text → Option Text
first_address ip_of [] = none
first_address ip_of (t ∷ ts) = elim (ip_of t) [ some ip ↦ some ip | none ↦ first_address ip_of ts ]

unfoldable pub first_tunnel : (Text → Option Text) → List Interface → Option Text
unfolding first_address
first_tunnel ip_of [] = none
first_tunnel ip_of (i ∷ is) =
    let rest = first_tunnel ip_of is in
    if text_eq i.if_type if_type_vxlan_tunnel
    then elim (first_address ip_of i.ip_addresses) [ some ip ↦ some ip | none ↦ rest ]
    else rest

-- A nil Spec panics.
unfoldable pub find_vxlan_ip_address : (Text → Option Text) → Text → Map NetworkNode → Option Answer
unfolding first_tunnel
find_vxlan_ip_address ip_of node nodes = elim (lookup node nodes) [
  | none ↦ some (failed (node_not_found node))
  | some nn ↦ elim nn.interfaces [
    | none ↦ none
    | some is ↦ elim (first_tunnel ip_of is) [
      | some ip ↦ some (address ip 0)
      | none ↦ some (failed (no_vxlan_address node))
    ]
  ]
]

-- An interface, once for each of its labels that is the label.
unfoldable pub with_label : Text → Interface → List Text → List Interface
with_label label i [] = []
with_label label i (l ∷ ls) =
    let rest = with_label label i ls in if text_eq l label then i ∷ rest else rest

unfoldable pub with_label_all : Text → List Interface → List Interface
unfolding with_label
with_label_all label [] = []
with_label_all label (i ∷ is) = with_label label i i.labels ++ with_label_all label is

-- At the one label that the overlays look for. A nil Spec panics.
unfoldable pub find_interfaces_for_label : Text → Text → Map NetworkNode → Option (List Interface)
unfolding with_label_all
find_interfaces_for_label node label nodes = elim (lookup node nodes) [
  | none ↦ some []
  | some nn ↦ elim nn.interfaces [ none ↦ none | some is ↦ some (with_label_all label is) ]
]

-- The address of the interface that has the label.
unfoldable pub labelled_address : Text → List Interface → Answer
labelled_address label [] = failed (not_one_interface label)
labelled_address label (i ∷ j ∷ is) = failed (not_one_interface label)
labelled_address label (i ∷ []) =
    if text_eq i.if_type if_type_ethernet
    then elim i.ip_addresses [
      | [] ↦ failed (not_ethernet_with_address label)
      | a ∷ more ↦ elim more [
        | [] ↦ address a 0
        | b ∷ bs ↦ failed (not_ethernet_with_address label)
      ]
    ]
    else failed (not_ethernet_with_address label)

-- No pool is named.
unfoldable pub configured_address :
    (Text → Option Text) → Text → Text → Map NetworkNode → Option Answer
unfolding find_vxlan_ip_address find_interfaces_for_label labelled_address
configured_address ip_of node label nodes = elim (find_vxlan_ip_address ip_of node nodes) [
  | none ↦ none
  | some (address ip id) ↦ some (address ip id)
  | some (failed e) ↦
      if text_eq label []
      then some (failed e)
      else elim (find_interfaces_for_label node label nodes) [
        | none ↦ none
        | some is ↦ some (labelled_address label is)
      ]
]

-- The name of the allocator that find_allocator finds, where it finds one.
unfoldable pub name_in : Text → Pools → Text
name_in pool_name p = elim (lookup pool_name p.pools) [
  | none ↦ []
  | some pool ↦ allocator_name pool []
]

-- What AllocateIPAddress of the allocator of the name gives.
unfoldable pub taken_from :
    Text → Text → Text → State → PoolAllocator × Ipam.Result (Text × ℕ) → State × Answer
taken_from pool_name name node s (a, Ipam.err e) =
    (record s { pools = change name a s.pools }, failed (no_address pool_name))
taken_from pool_name name node s (a, Ipam.ok (ip, id)) = (
  record s { pools = change name a s.pools; vxlan_addresses = insert node ip s.vxlan_addresses },
  address ip id,
)

-- A nil allocator panics; `none` stands too for a loop of the allocation that runs out of `fuel`.
unfoldable pub allocated_by :
    ℕ → Text → Text → Text → State → Pools.Result (Option PoolAllocator) → Option (State × Answer)
unfolding taken_from
allocated_by fuel pool_name name node s (Pools.err e) = some (s, failed (no_vxlan_pool pool_name e))
allocated_by fuel pool_name name node s (Pools.ok none) = none
allocated_by fuel pool_name name node s (Pools.ok (some a)) =
    Option.map (taken_from pool_name name node s) (allocate_ip_address fuel a)

-- The allocator of the pool for the system.
unfoldable pub pool_address : ℕ → Text → Text → State → Option (State × Answer)
unfolding allocated_by
pool_address fuel pool_name node s =
    allocated_by fuel pool_name (name_in pool_name s.pools) node s
      (find_allocator s.pools pool_name [])

-- `ip_of` is net.ParseCIDR with the text of its address.
unfoldable pub allocate_vxlan_address :
    (Text → Option Text) → ℕ → Text → Text → Text → State → Option (State × Answer)
unfolding configured_address pool_address
allocate_vxlan_address ip_of fuel pool_name node label s =
    if text_eq pool_name []
    then elim (configured_address ip_of node label s.nodes) [ none ↦ none | some r ↦ some (s, r) ]
    else elim (lookup node s.vxlan_addresses) [
      | some ip ↦ some (s, address ip 0)
      | none ↦ pool_address fuel pool_name node s
    ]

-- An address from an allocator is noted under the node.
taken_from_noted :
    (pool_name name node : Text) (s s' : State) (r : PoolAllocator × Ipam.Result (Text × ℕ))
    (ip : Text) (id : ℕ)
    → taken_from pool_name name node s r ≡ (s', address ip id)
    → lookup node s'.vxlan_addresses ≡ some ip
unfolding taken_from
taken_from_noted pool_name name node s s' (a, Ipam.err e) ip id h = ground (arith, h)
taken_from_noted pool_name name node s s' (a, Ipam.ok (ip', id')) ip id h =
    ground (arith, h, lookup-insert node node ip' s.vxlan_addresses, text_eq_iff node node)

allocated_by_noted :
    (fuel : ℕ) (pool_name name node : Text) (s s' : State) (r : Pools.Result (Option PoolAllocator))
    (ip : Text) (id : ℕ)
    → allocated_by fuel pool_name name node s r ≡ some (s', address ip id)
    → lookup node s'.vxlan_addresses ≡ some ip
unfolding allocated_by
allocated_by_noted fuel pool_name name node s s' (Pools.err e) ip id h = ground (arith, h)
allocated_by_noted fuel pool_name name node s s' (Pools.ok none) ip id h = ground (arith, h)
allocated_by_noted fuel pool_name name node s s' (Pools.ok (some a)) ip id h =
    elim (Option-cases (allocate_ip_address fuel a)) [
      | inl e ↦ ground (arith, h, e)
      | inr (r, e) ↦ taken_from_noted pool_name name node s s' r ip id (ground (arith, h, e))
    ]

pool_address_noted :
    (fuel : ℕ) (pool_name node : Text) (s s' : State) (ip : Text) (id : ℕ)
    → pool_address fuel pool_name node s ≡ some (s', address ip id)
    → lookup node s'.vxlan_addresses ≡ some ip
unfolding pool_address
pool_address_noted fuel pool_name node s s' ip id h =
    allocated_by_noted fuel pool_name (name_in pool_name s.pools) node s s'
      (find_allocator s.pools pool_name []) ip id h

-- What the call notes stays noted, whichever address it gives and whether it fails.
taken_from-keep :
    (pool_name name node : Text) (s : State) (r : PoolAllocator × Ipam.Result (Text × ℕ))
    (other ip : Text)
    → lookup other s.vxlan_addresses ≡ some ip
    → lookup node s.vxlan_addresses ≡ none
    → lookup other (taken_from pool_name name node s r).0.vxlan_addresses ≡ some ip
unfolding taken_from
taken_from-keep pool_name name node s (a, Ipam.err e) other ip h new = h
taken_from-keep pool_name name node s (a, Ipam.ok (ip', id)) other ip h new =
    elim (Bool-cases (text_eq node other)) [
      | inl e ↦
          let gone : lookup other s.vxlan_addresses ≡ none =
            rw ((text_eq_iff node other).0 e) at new in
          ground (arith, gone, h)
      | inr e ↦ ground (arith, e, h, lookup-insert node other ip' s.vxlan_addresses)
    ]

allocated_by-keep :
    (fuel : ℕ) (pool_name name node : Text) (s s' : State) (r : Pools.Result (Option PoolAllocator))
    (answer : Answer) (other ip : Text)
    → lookup other s.vxlan_addresses ≡ some ip
    → lookup node s.vxlan_addresses ≡ none
    → allocated_by fuel pool_name name node s r ≡ some (s', answer)
    → lookup other s'.vxlan_addresses ≡ some ip
unfolding allocated_by
allocated_by-keep fuel pool_name name node s s' (Pools.err e) answer other ip h new q =
    ground (arith, h, q)
allocated_by-keep fuel pool_name name node s s' (Pools.ok none) answer other ip h new q =
    ground (arith, q)
allocated_by-keep fuel pool_name name node s s' (Pools.ok (some a)) answer other ip h new q =
    elim (Option-cases (allocate_ip_address fuel a)) [
      | inl e ↦ ground (arith, q, e)
      | inr (r, e) ↦ ground (arith, q, e, taken_from-keep pool_name name node s r other ip h new)
    ]

-- A call of AllocateVxlanAddress.
pub record Call : Type 0 where
  pub fuel : ℕ
  pub pool_name : Text
  pub node : Text
  pub label : Text

module _ (ip_of : Text → Option Text) where
  unfoldable pub answer_to : Call → State → Option (State × Answer)
  unfolding allocate_vxlan_address
  answer_to c s = allocate_vxlan_address ip_of c.fuel c.pool_name c.node c.label s

  -- The state after calls of which none panics.
  unfoldable pub after_calls : List Call → State → Option State
  unfolding answer_to
  after_calls [] s = some s
  after_calls (c ∷ cs) s = elim (answer_to c s) [
    | none ↦ none
    | some (s', answer) ↦ after_calls cs s'
  ]

  call-keep :
      (c : Call) (s s' : State) (answer : Answer) (other ip : Text)
      → lookup other s.vxlan_addresses ≡ some ip
      → answer_to c s ≡ some (s', answer)
      → lookup other s'.vxlan_addresses ≡ some ip
  unfolding answer_to pool_address
  call-keep c s s' answer other ip h q = elim (Bool-cases (text_eq c.pool_name [])) [
    | inl e ↦ elim (Option-cases (configured_address ip_of c.node c.label s.nodes)) [
      | inl f ↦ ground (arith, q, e, f)
      | inr (r, f) ↦ ground (arith, q, e, f, h)
    ]
    | inr e ↦ elim (Option-cases (lookup c.node s.vxlan_addresses)) [
      | inr (old, f) ↦ ground (arith, q, e, f, h)
      | inl f ↦
          allocated_by-keep c.fuel c.pool_name (name_in c.pool_name s.pools) c.node s s'
            (find_allocator s.pools c.pool_name []) answer other ip h f (ground (arith, q, e, f))
    ]
  ]

  calls-keep :
      (cs : List Call) (s s' : State) (node ip : Text)
      → lookup node s.vxlan_addresses ≡ some ip
      → after_calls cs s ≡ some s'
      → lookup node s'.vxlan_addresses ≡ some ip
  unfolding after_calls
  calls-keep [] s s' node ip h q = ground (arith, h, q)
  calls-keep (c ∷ cs) s s' node ip h q = elim (Option-cases (answer_to c s)) [
    | inl e ↦ ground (arith, q, e)
    | inr ((s1, answer), e) ↦
        calls-keep cs s1 s' node ip (call-keep c s s1 answer node ip h e) (ground (arith, q, e))
  ]

-- Once AllocateVxlanAddress, with a pool named, has given an address to a node, any calls may follow,
-- for this node or others, with or without a pool, whether they fail or not, as long as none
-- panics: the next call for the node that names a pool, whichever pool and label it names,
-- returns the same address, with the id 0, and changes nothing.
pub allocate_vxlan_address_again :
    (ip_of : Text → Option Text) (fuel fuel' : ℕ) (pool_name pool_name' node label label' ip : Text)
    (id : ℕ) (s s' s'' : State) (cs : List Call)
    → text_eq pool_name [] ≡ false
    → text_eq pool_name' [] ≡ false
    → allocate_vxlan_address ip_of fuel pool_name node label s ≡ some (s', address ip id)
    → after_calls ip_of cs s' ≡ some s''
    → allocate_vxlan_address ip_of fuel' pool_name' node label' s'' ≡ some (s'', address ip 0)
unfolding allocate_vxlan_address
allocate_vxlan_address_again ip_of fuel fuel' pool_name pool_name' node label label' ip id s s' s''
      cs n n' h after =
    let noted : lookup node s'.vxlan_addresses ≡ some ip =
      elim (Option-cases (lookup node s.vxlan_addresses)) [
        | inr (old, e) ↦ ground (arith, n, h, e)
        | inl e ↦ pool_address_noted fuel pool_name node s s' ip id (ground (arith, n, h, e))
      ] in
    let still = calls-keep ip_of cs s' s'' node ip noted after in ground (arith, n', still)
