-- ===== src/Interfaces.antt =====
-- plugins/controller/interfaces.go: the status of the interfaces of nodes and services, with their
-- MAC addresses and their addresses from pools.
pub mod Allocation
pub mod Entries
pub mod Reserving
pub mod Examples
use sfc_controller.Common.{
  ℕ, Text, codes, Bool, true, false, Option, none, some, List, [], ◌∷◌, ◌++◌, text_eq,
  if◌then◌else◌, ◌>>=◌,
}
use sfc_controller.Common.Maps.{Map, lookup, insert, erase}
use sfc_controller.Model.{Interface, InterfaceStatus}
use sfc_controller.Names.{conn_pod_name, conn_interface_name}
use sfc_controller.Ids.{MemifAllocator, MacAddrAllocator, allocate_mac_addr}
use sfc_controller.Ipam.{Ip}
use sfc_controller.Pools.{
  Pools, Pool, Error, Result, ok, err, set_address, allocate_address, set_address_if_in_pool,
}

-- The datastore for the status of interfaces. The code drops the errors of both calls, so an
-- operation that fails is one that changes nothing.
pub record StatusStore : Type 1 where
  pub Store : Type 0
  pub put : Text → InterfaceStatus → Store → Store
  pub delete : Text → Store → Store

abbrev pub interface_status_key_prefix : Text
interface_status_key_prefix = codes "/sfc-controller/v2/status/interface/"

abbrev pub entity_interface_name : Text → Text → Text
entity_interface_name pod_name if_name = pod_name ++ b'/' ∷ if_name

abbrev pub empty_status : InterfaceStatus
empty_status = record {
  name = [];
  status = [];
  msg = [];
  mac_address = [];
  mac_addr_id = 0;
  ipam_pool_nums = some [];
  ip_addresses = [];
  memif_id = 0;
  node = [];
  host_port_label = [];
  vni = 0;
  nno_name = [];
}

abbrev pub add_address : Text → InterfaceStatus → InterfaceStatus
add_address address st = record st { ip_addresses = st.ip_addresses ++ address ∷ [] }

-- What a loop over pools comes to: the pools, the status as far as it was built, and an error.
abbrev pub Outcome : Type 0
Outcome = Option (Pools × InterfaceStatus × Option Error)

-- An error of a pool ends the loop; the result of no error is taken up.
unfoldable pub and_then :
    {A : Type 0} → Option (Pools × Result A) → InterfaceStatus → (Pools → A → Outcome) → Outcome
and_then none st next = none
and_then (some (p, err e)) st next = some (p, st, some e)
and_then (some (p, ok a)) st next = next p a

-- A second loop, if the first had no error.
unfoldable pub and_loop : Outcome → (Pools → InterfaceStatus → Outcome) → Outcome
and_loop none next = none
and_loop (some (p, st, some e)) next = some (p, st, some e)
and_loop (some (p, st, none)) next = next p st

-- The ids in pools; a nil map has none.
abbrev pub ids_of : InterfaceStatus → Map ℕ
ids_of st = elim st.ipam_pool_nums [ none ↦ [] | some ids ↦ ids ]

-- A write to a nil map panics.
unfoldable pub note_id : Text → Text → ℕ → InterfaceStatus → Option InterfaceStatus
note_id pool_name address ip_num st = elim st.ipam_pool_nums [
  | none ↦ none
  | some ids ↦
      some (record (add_address address st) { ipam_pool_nums = some (insert pool_name ip_num ids) })
]

-- The loop goes on with the status, unless the write panicked.
unfoldable pub and_note : Option InterfaceStatus → (InterfaceStatus → Outcome) → Outcome
and_note none next = none
and_note (some st) next = next st

module _ (vpp_agent entity_name : Text) where
  -- The loop over the ids that the interface holds.
  unfoldable pub set_known : List (Text × ℕ) → Pools → InterfaceStatus → Outcome
  set_known [] p st = some (p, st, none)
  set_known ((pool_name, ip_num) ∷ rest) p st =
      and_then (set_address p pool_name vpp_agent entity_name ip_num) st
        (λ p' address. set_known rest p' (add_address address st))

  -- The loop over the pools of the configuration.
  unfoldable pub allocate_new : ℕ → List Text → Pools → InterfaceStatus → Outcome
  allocate_new fuel [] p st = some (p, st, none)
  allocate_new fuel (pool_name ∷ rest) p st = elim (lookup pool_name (ids_of st)) [
    | some ip_num ↦ allocate_new fuel rest p st
    | none ↦
        and_then (allocate_address fuel p pool_name vpp_agent entity_name) st
          (λ p' r. and_note (note_id pool_name r.0 r.1 st) (λ st'. allocate_new fuel rest p' st'))
  ]

  -- An address in the pools of the list; `parse_ip` is net.ParseIP.
  unfoldable pub mark_address : (Text → Option Ip) → Text → Map Pool → Pools → Option Pools
  mark_address parse_ip address [] p = some p
  mark_address parse_ip address ((key, pool) ∷ rest) p =
      set_address_if_in_pool p pool.name vpp_agent entity_name (parse_ip address)
      >>= λ (p' : Pools). mark_address parse_ip address rest p'

  unfoldable pub mark_addresses : (Text → Option Ip) → List Text → Pools → Option Pools
  unfolding mark_address
  mark_addresses parse_ip [] p = some p
  mark_addresses parse_ip (address ∷ rest) p =
      mark_address parse_ip address p.pools p >>= λ (p' : Pools). mark_addresses parse_ip rest p'

-- The two loops over pools; `none` at the end is no error.
unfoldable pub pool_addresses : ℕ → Text → Text → Interface → Pools → InterfaceStatus → Outcome
unfolding set_known allocate_new
pool_addresses fuel entity_name vpp_agent i p st =
    and_loop
      (set_known vpp_agent entity_name (ids_of st) p (record st { ip_addresses = i.ip_addresses }))
      (λ p' st'. allocate_new vpp_agent entity_name fuel i.ipam_pool_names p' st')

-- The MAC address of the configuration, or the one that the interface holds, or a new one.
unfoldable pub settle_mac :
    Text → InterfaceStatus → MacAddrAllocator → InterfaceStatus × MacAddrAllocator
settle_mac configured st mac =
    if text_eq configured []
    then if text_eq st.mac_address []
      then (let (mac', allocated) = allocate_mac_addr mac in
          (record st { mac_address = allocated.0; mac_addr_id = allocated.1 }, mac'))
      else (st, mac)
    else (record st { mac_address = configured }, mac)

-- Where the code works: InterfaceStates, the allocators of MAC addresses and memif ids, the pools, and the datastore.
module _ ⦃S : StatusStore⦄ where
  pub record Ram : Type 0 where
    pub interface_states : Map InterfaceStatus
    pub mac_addr_allocator : MacAddrAllocator
    pub memif_id_allocator : MemifAllocator
    pub pools : Pools
    pub store : S.Store

  -- The status that the cache has, or a new one.
  abbrev pub existing_status : Text → Text → Ram → InterfaceStatus
  existing_status name vpp_agent r = elim (lookup name r.interface_states) [
    | some st ↦ st
    | none ↦ record empty_status { name = name; node = vpp_agent }
  ]

  -- A status of the cache is changed through its pointer, also when there is an error.
  abbrev pub write_back : Text → InterfaceStatus → Map InterfaceStatus → Map InterfaceStatus
  write_back name st states = elim (lookup name states) [
    | some old ↦ insert name st states
    | none ↦ states
  ]

  abbrev pub settle : Text → MacAddrAllocator → Ram → Pools → InterfaceStatus → Ram
  settle name mac r p st = record r {
    interface_states = write_back name st r.interface_states;
    mac_addr_allocator = mac;
    pools = p;
  }

  -- The end of InitInterfaceStatus, after the two loops over pools.
  unfoldable pub finish_status :
      (Text → Option Ip)
      → Text
      → Text
      → Text
      → MacAddrAllocator
      → Ram
      → Outcome
      → Option (Ram × Result InterfaceStatus)
  unfolding mark_addresses
  finish_status parse_ip entity_name vpp_agent name mac r none = none
  finish_status parse_ip entity_name vpp_agent name mac r (some (p, st, some e)) =
      some (settle name mac r p st, err e)
  finish_status parse_ip entity_name vpp_agent name mac r (some (p, st, none)) =
      mark_addresses vpp_agent entity_name parse_ip st.ip_addresses p >>= λ (p' : Pools).
      some (settle name mac r p' st, ok st)

  unfoldable pub init_interface_status :
      (Text → Option Ip) → ℕ → Text → Text → Interface → Ram → Option (Ram × Result InterfaceStatus)
  unfolding pool_addresses settle_mac finish_status
  init_interface_status parse_ip fuel entity_name vpp_agent i r =
      let name = entity_interface_name i.parent i.name in
      let (st, mac) =
        settle_mac i.mac_address (existing_status name vpp_agent r) r.mac_addr_allocator in
      finish_status parse_ip entity_name vpp_agent name mac r
        (pool_addresses fuel entity_name vpp_agent i r.pools st)

  unfoldable pub persist_interface_status :
      Text → Text → InterfaceStatus → Map InterfaceStatus → Ram → Map InterfaceStatus × Ram
  persist_interface_status pod_name if_name st interfaces r =
      let name = entity_interface_name pod_name if_name in
      (
        insert name st interfaces,
        record r {
          interface_states = insert name st r.interface_states;
          store = S.put (interface_status_key_prefix ++ name) st r.store;
        },
      )

  unfoldable pub retrieve_interface_status_from_ram_cache :
      Text → Map InterfaceStatus → Option InterfaceStatus
  retrieve_interface_status_from_ram_cache name interfaces = lookup name interfaces

  unfoldable pub remove_interface_status :
      Text → Text → Map InterfaceStatus → Ram → Map InterfaceStatus × Ram
  remove_interface_status pod_name if_name interfaces r =
      let name = entity_interface_name pod_name if_name in
      (
        erase name interfaces,
        record r {
          interface_states = erase name r.interface_states;
          store = S.delete (interface_status_key_prefix ++ name) r.store;
        },
      )

  -- The map loses entries while it is walked; the first list holds the entries to come.
  unfoldable pub delete_each :
      Map InterfaceStatus → Map InterfaceStatus → Ram → Map InterfaceStatus × Ram
  unfolding remove_interface_status
  delete_each [] interfaces r = (interfaces, r)
  delete_each ((key, st) ∷ rest) interfaces r =
      let (interfaces', r') =
        remove_interface_status (conn_pod_name st.name) (conn_interface_name st.name) interfaces
          r in
      delete_each rest interfaces' r'

  unfoldable pub delete_interface_entries : Map InterfaceStatus → Ram → Map InterfaceStatus × Ram
  unfolding delete_each
  delete_interface_entries interfaces r = delete_each interfaces interfaces r

  -- The ids and addresses of a status, taken in the pools.
  unfoldable pub update_ram_cache_allocators :
      (Text → Option Ip) → Text → InterfaceStatus → Ram → Option (Ram × Option Error)
  unfolding set_known mark_addresses
  update_ram_cache_allocators parse_ip entity_name st r =
      elim (set_known st.node entity_name (ids_of st) r.pools st) [
        | none ↦ none
        | some (p, st', some e) ↦ some (record r { pools = p }, some e)
        | some (p, st', none) ↦
            (mark_addresses st.node entity_name parse_ip st.ip_addresses p >>= λ (p' : Pools).
            some (record r { pools = p' }, none))
      ]
