-- ===== src/Interfaces/Examples.antt =====
-- The theorems of interface status at one pool for the system, and a status that is stored.
use sfc_controller.Common.{
  ℕ, Option-cases, ◌≡◌, ◌≢◌, inl, inr, refl, Text, codes, false, Option, none, some, [], ◌∷◌, arith,
  All, if◌then◌else◌, text_eq,
}
use sfc_controller.Common.Texts.{HasNoSlash}
use sfc_controller.Common.Maps.{Map, lookup, insert, erase, has}
use sfc_controller.Model.{Interface, InterfaceStatus}
use sfc_controller.Names.{index_of}
use sfc_controller.Ids.{allocate_mac_addr}
use sfc_controller.Ipam.{Ip, PoolAllocator, allocated_status, set_ip_addr_if_inside_pool}
use sfc_controller.Pools.{
  Pools, Pool, ok, scope_system, set_address_if_in_pool, find_allocator, allocator_name,
}
use sfc_controller.Interfaces.{
  StatusStore, Ram, empty_status, existing_status, entity_interface_name, settle_mac, set_known,
  allocate_new, and_then, and_loop, pool_addresses, mark_address, mark_addresses, finish_status,
  init_interface_status, delete_interface_entries,
}
use sfc_controller.Interfaces.Allocation.{Keeps, HasId, init_interface_status_lem}
use sfc_controller.Interfaces.Entries.{IsNamed, delete_interface_entries_lem}
use sfc_controller.Interfaces.Reserving.{SameAllocators, mark_addresses_lem}

-- A datastore that holds the statuses.
instance abbrev pub statuses : StatusStore
statuses = record {
  Store = Map InterfaceStatus;
  put = λ k st s. insert k st s;
  delete = λ k s. erase k s;
}

abbrev pub no_pools : Pools
no_pools = record { pools = []; allocators = [] }

abbrev pub ram : Ram
ram = record {
  interface_states = [];
  mac_addr_allocator = record { mac_addr_id = 0 };
  memif_id_allocator = record { memif_id = 0 };
  pools = no_pools;
  store = [];
}

-- An address without a slash parses.
abbrev pub parse_ip : Text → Option Ip
parse_ip a = elim (index_of b'/' a) [ none ↦ some (Ip.v4 0) | some n ↦ none ]

abbrev pub pod_interface : Interface
pod_interface = record {
  name = codes "m0";
  bypass_renderer = false;
  if_type = codes "memif";
  mac_address = [];
  mtu = 0;
  rx_mode = [];
  ip_addresses = codes "10.0.0.7/24" ∷ [];
  ipam_pool_names = [];
  admin_status = [];
  memif_parms = none;
  tap_parms = none;
  labels = [];
  parent = codes "p1";
  host_port_label = [];
  fwd = none;
  linux_namespace = none;
}

abbrev first_mac : Text × ℕ
first_mac = (allocate_mac_addr (record { mac_addr_id = 0 })).1

-- The status after the first call.
abbrev pub new_status : InterfaceStatus
new_status = record empty_status {
  name = codes "p1/m0";
  node = codes "n1";
  mac_address = (allocate_mac_addr (record { mac_addr_id = 0 })).1.0;
  mac_addr_id = (allocate_mac_addr (record { mac_addr_id = 0 })).1.1;
  ip_addresses = codes "10.0.0.7/24" ∷ [];
}

abbrev pub new_ram : Ram
new_ram = record ram { mac_addr_allocator = (allocate_mac_addr (record { mac_addr_id = 0 })).0 }

pub runs :
    init_interface_status parse_ip 9 (codes "s1") (codes "n1") pod_interface ram
    ≡ some (new_ram, ok new_status)
unfolding init_interface_status settle_mac pool_addresses set_known allocate_new and_loop and_then
    finish_status mark_addresses mark_address lookup insert text_eq
runs = refl

init_interface_status_lem_example :
    let old = existing_status (entity_interface_name (codes "p1") (codes "m0")) (codes "n1") ram in
    Keeps old new_status
    × All (HasId new_status) pod_interface.ipam_pool_names
    × (new_status.mac_address ≢ [])
    × (pod_interface.mac_address ≢ [] → new_status.mac_address ≡ pod_interface.mac_address)
    × (pod_interface.mac_address ≡ []
        → old.mac_address ≢ []
        → (new_status.mac_address ≡ old.mac_address)
          × (new_ram.mac_addr_allocator ≡ ram.mac_addr_allocator))
init_interface_status_lem_example =
    init_interface_status_lem parse_ip 9 (codes "s1") (codes "n1") pod_interface ram new_ram
      new_status runs

abbrev named : Map InterfaceStatus
named = (codes "p1/m0", new_status) ∷ []

named-IsNamed : IsNamed named
named-IsNamed = ((codes "p1", codes "m0", (refl, (refl, tt)), refl, refl), tt)

delete_interface_entries_lem_test :
    let (m, r') = delete_interface_entries named ram in
    (lookup (codes "p1/m0") m ≡ none)
    × (lookup (codes "p1/m0") r'.interface_states
        ≡ (if has (codes "p1/m0") named then none else lookup (codes "p1/m0") ram.interface_states))
delete_interface_entries_lem_test =
    delete_interface_entries_lem named ram (codes "p1/m0") named-IsNamed

abbrev allocator : PoolAllocator
allocator = record {
  name = codes "/system/a";
  start_range = 1;
  end_range = 14;
  next_in_range = 1;
  total_in_range = 14;
  network = codes "10.0.0.0/28";
  ip_networku32 = 0x0A000000;
  ip_masku32 = 0xFFFFFFF0;
  num_bits_in_mask = 28;
  allocated = [];
}

abbrev pool_a : Pool
pool_a = record {
  name = codes "a";
  scope = scope_system;
  network = codes "10.0.0.0/28";
  start_range = 1;
  end_range = 14;
  status = some (some []);
}

abbrev one_pool : Pools
one_pool = record {
  pools = (codes "a", pool_a) ∷ [];
  allocators = (codes "/system/a", some allocator) ∷ [];
}

-- The pool is noted in its status, with no address.
abbrev noted_pool : Pools
noted_pool = record one_pool {
  pools =
      (
        codes "a",
        record pool_a {
          status = some (some ((codes "/system/a", allocated_status allocator) ∷ []));
        },
      )
      ∷ [];
}

marks :
    mark_addresses (codes "n1") (codes "s1") parse_ip (codes "10.0.0.7/28" ∷ []) one_pool
    ≡ some noted_pool
unfolding mark_addresses mark_address set_address_if_in_pool find_allocator allocator_name lookup
    insert text_eq set_ip_addr_if_inside_pool index_of
marks = refl

no_slash : (a : Text) → index_of b'/' a ≡ none → HasNoSlash a
unfolding index_of
no_slash [] e = tt
no_slash (c ∷ a) e = (ground (arith, e), no_slash a (ground (arith, e)))

slash_unparsed : (a : Text) → ¬ HasNoSlash a → parse_ip a ≡ none
slash_unparsed a h = elim (Option-cases (index_of b'/' a)) [
  | inl e ↦ absurd (h (no_slash a e))
  | inr (n, e) ↦ ground (arith, e)
]

has_slash : ¬ HasNoSlash (codes "10.0.0.7/28")
has_slash h = ground (arith, h.1.1.1.1.1.1.1.1.0)

mark_addresses_lem_example : SameAllocators one_pool noted_pool
mark_addresses_lem_example =
    mark_addresses_lem (codes "n1") (codes "s1") parse_ip (codes "10.0.0.7/28" ∷ []) one_pool
      noted_pool slash_unparsed (has_slash, tt) marks
