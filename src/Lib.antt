-- ===== src/Lib.antt =====
-- Models of the SFC controller: the id allocators of plugins/controller/idapi, the IPAM pools of
-- plugins/controller/ipampool.go, the loop over operations of plugins/controller/model_mgrs.go, the
-- entries that the controller writes for VPP agents (plugins/controller/vppagent/database.go), and the
-- transaction that brings etcd in line with a rendering (plugins/controller/rendertxn.go), the
-- constructors of the entries (plugins/controller/vppagent/vpp_agent.go), network services with
-- their interfaces (plugins/controller/networkservice.go, networkservice_if.go, interfaces.go,
-- sysparms.go), and node overlays (networknodeoverlay.go).
--
-- How the parts interact: the loop hands each operation to its manager, and then renders: it opens a
-- transaction (RenderTxnConfigStart), renders each configured object as an entity
-- (RenderTxnConfigEntityStart, entries by RenderTxnAddVppEntryToTxn, RenderTxnConfigEntityEnd),
-- taking ids and addresses from the allocators, and closes the transaction (RenderTxnConfigEnd), which
-- deletes stale entries from etcd and writes the new ones.
--
-- The files:
--   Common     tests, lists, texts as lists of bytes, Go maps as association lists, sets of numbers,
--              binary digits and decimal texts; no code of its own.
--   Bitmap     plugins/controller/idapi/bitmap/bitmap.go: Bitmap is a list of words and a size;
--              is_set, set_bit, clear, find_first_clear and new_bitmap are IsSet, Set, Clear,
--              FindFirstClear and NewBitmap.
--   Vni        plugins/controller/idapi/vxlan.go: set_vni, allocate_vni and new_vni_allocator are
--              SetVni, AllocateVni and NewVxlanVniAllocator.
--   Ipam       plugins/controller/idapi/ipam/ipam.go: is_address_set, set_address,
--              allocate_ip_address, format_ip_address, set_ip_addr_if_inside_pool and
--              new_pool_allocator are the functions of those names.
--   Entry      plugins/controller/vppagent/database.go: Kv is KVType, equal is Equal, and value_of is
--              the message that WriteToEtcd puts.
--   Datastore  the interface of the key-value broker of cn-infra, by which
--              plugins/controller/database/database.go and the transaction reach etcd.
--   Txn        plugins/controller/rendertxn.go: Txn holds beforeMap, afterMap, txnLevel, the cache
--              ramCache.VppEntries and etcd; config_start, entity_start, entity_end,
--              entity_remove_entries, add_vpp_entry, config_end and delete_rendered are the
--              RenderTxn functions and DeleteRenderedVppAgentEntries.
--   Pools      plugins/controller/ipampool.go: Pools holds ipamPoolCache and the map of allocators in
--              ramCache; find_allocator, allocate_address, set_address, set_address_if_in_pool,
--              entity_create, entity_delete, create_update and delete_pool are FindAllocator,
--              AllocateAddress, SetAddress, SetAddressIfInPool, EntityCreate, EntityDelete and
--              HandleCRUDOperationCU (up to its write to the datastore) and HandleCRUDOperationD.
--   Names      plugins/controller/utils.go: the functions of those names.
--   Ids        plugins/controller/idapi/memif.go, vrf.go and mac_addr.go: the counters.
--   Ops        plugins/controller/model_mgrs.go: Loop holds the local variables of
--              ProcessOperationalMessages and the state of the system; dispatch is its switch,
--              render_if_pending what follows it. The managers and RenderAll are parameters.
--   Model      plugins/controller/model: the structs of controller.pb.go and the words of controller.go.
--   Messages   the messages of the vpp-agent with the fields that the controller sets, and an interface
--              of their texts and keys.
--   Agent      plugins/controller/vppagent/vpp_agent.go and keys.go: the keys and conversions; children
--              have the sorted insertions (Sorting), and the Construct functions (Interfaces, Network).
--   SysParms   plugins/controller/sysparms.go: the functions of those names.
--   Interfaces plugins/controller/interfaces.go: Ram holds InterfaceStates, the allocators of MAC addresses
--              and memif ids, the pools and the datastore; init_interface_status and the other
--              operations are the functions of those names.
--   Services   plugins/controller/networkservice.go: validate and its parts; Services/Crud has State, which
--              is networkServiceCache with the cache and the transaction, and the operations on it.
--              Services/HostName, Pairs and HostPairs are plugins/controller/networkservice_if.go: Work
--              is the status of a service with the cache and the transaction, and the Render functions
--              are those of these names.
--   Overlay    plugins/controller/networknodeoverlay.go: State is NetworkNodeOverlayMgr with the cache of
--              nodes and the pools; check_spec is validate, and handle_crud_operation_cu and
--              handle_crud_operation_d are the functions of those names. Overlay/Tunnels has
--              AllocateVxlanAddress and the lookups of plugins/controller/networknode.go that it makes.
--
-- A service is validated when it is created or updated, and again when it is rendered; a rendering asks
-- Interfaces for the status of each interface, builds entries by Agent, and adds them to Txn.
--
-- Conventions: uint32 arithmetic is written out modulo 2 ^ 32, and words are below 2 ^ 64. A
-- result `none` is a run-time panic (an index out of range, a write to a nil map, a nil pointer)
-- or the end of the process. A Go map is an association list, and statements hold for every order
-- of it, so for every order of iteration. The pointers in lists of the configuration are not nil.
-- The map of rendered entries to which a rendering adds is not nil, since renderConfig makes it;
-- the map of ids of an interface may be nil. sort.Search runs on fuel, one round for each index of
-- the list, which is enough since each round makes the range smaller. The loops of
-- AllocateIPAddress run on fuel: each round moves the counter by one, so more fuel than the end of
-- the range is enough, and the theorems on it are proved for all such fuel.
--
-- Parameters: the broker (Datastore) and the datastore of interface status (Interfaces), the messages of
-- the vpp-agent with their texts and keys (Entry, Messages), and what Go's package net makes of an
-- address text (an argument in Ipam, Pools, Interfaces, Services and Overlay). Whether a write of a configured
-- object to the datastore fails is an argument of its operation.
--
-- Not modelled: the mutex around a transaction, log texts, the exact texts of errors, reading of entries
-- from etcd, the rendering of whole connections and the bridge domains of services, which use the pairs
-- of interfaces, the rendering of overlays, and the managers of nodes and pods; generated code, plugin start, HTTP and the
-- Kubernetes plugin; vendored packages.
pub mod Common
pub mod Bitmap
pub mod Vni
pub mod Ipam
pub mod Pools
pub mod Names
pub mod Ids
pub mod Ops
pub mod Model
pub mod Messages
pub mod Agent
pub mod SysParms
pub mod Interfaces
pub mod Services
pub mod Entry
pub mod Datastore
pub mod Txn
pub mod Overlay
