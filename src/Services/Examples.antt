-- ===== src/Services/Examples.antt =====
-- The theorems of services at one service with one pod, and at a pair of memifs.
use sfc_controller.Common.{
  ℕ, ◌≡◌, ◌≢◌, ◌↔◌, ◌⊎◌, refl, ◌+◌, ◌≤◌, Text, codes, Bool, true, false, not, none, some, [], ◌∷◌,
  ◌++◌, arith, length, if◌then◌else◌, ◌==◌, text_eq, text_eq_refl,
}
use sfc_controller.Common.Maps.{Map, lookup, insert, erase, lookup-insert, lookup-erase}
use sfc_controller.Model.{Interface, InterfaceStatus, NetworkPod, Connection, NetworkServiceSpec}
use sfc_controller.Names.{conn_pod_name, conn_interface_name, conn_pod_interface_names, index_of}
use sfc_controller.Messages.{VppInterface, Memif, messages}
use sfc_controller.Entry.{Kv, Value}
use sfc_controller.Datastore.{Broker}
use sfc_controller.Ids.{allocate_memif, MacAddrAllocator, allocate_mac_addr}
use sfc_controller.Agent.{interface_key}
use sfc_controller.Interfaces.{
  Ram, init_interface_status, settle_mac, pool_addresses, set_known, allocate_new, and_loop,
  and_then, finish_status, mark_addresses, mark_address, persist_interface_status,
}
use sfc_controller.Txn.{Txn, Rendered}
use sfc_controller.Pools.{Error, ok, entity_create, create_for_all}
use sfc_controller.SysParms.{empty_parameters}
use sfc_controller.Agent.Examples.{api}
use sfc_controller.Interfaces.Examples.{
  statuses, ram, parse_ip, pod_interface, new_status, new_ram, runs,
}
use sfc_controller.Services.{
  Fault, valid, validate, ◌also◌, check_each, validate_network_pod, check_pod, check_interface,
  check_memif, check_tap, check_connection, check_conn_type, check_l2bd, check_pod_interface,
  found_verdict, find_network_pod_and_interface_in_list, first_found, find_in_pod,
}
use sfc_controller.Services.Verdicts.{NoPanic}
use sfc_controller.Services.HostName.{construct_base_host_name, construct_base_host_name_lem}
use sfc_controller.Services.Acceptance.{ServiceOk, validate_lem}
use sfc_controller.Services.Crud.{
  NetworkServiceStatus, NetworkService, State, handle_crud_operation_d, handle_crud_operation_cu,
  checked, checked_by, stored, append_status_msg,
}
use sfc_controller.Services.Lifecycle.{handle_crud_operation_cu_lem, delete_unrendered}
use sfc_controller.Services.Pairs.{
  if_name, host_port_label_of, Work, settle_memif, persist, render_conn_direct_inter_pod_memif_pair,
}
use sfc_controller.Services.Pairs.Sockets.{HasMemif, Fit}
use sfc_controller.Services.Pairs.Ends.{
  IsOpen, settled, render_conn_direct_inter_pod_memif_pair_lem,
}
use sfc_controller.Services.HostPairs.{linux_tap, vswitch_tap, render_conn_tap_pair}
use sfc_controller.Services.Taps.{render_conn_tap_pair_lem}

put_self : (k : Text) (v : Value) (s : Map Value) → lookup k (insert k v s) ≡ some v
put_self k v s = ground (arith, lookup-insert k k v s, text_eq_refl k)

put_ne :
    (k j : Text) (v : Value) (s : Map Value)
    → text_eq k j ≡ false
    → lookup j (insert k v s) ≡ lookup j s
put_ne k j v s e = ground (arith, lookup-insert k j v s, e)

delete_self : (k : Text) (s : Map Value) → lookup k (erase k s) ≡ none
delete_self k s = ground (arith, lookup-erase k k s, text_eq_refl k)

delete_ne : (k j : Text) (s : Map Value) → text_eq k j ≡ false → lookup j (erase k s) ≡ lookup j s
delete_ne k j s e = ground (arith, lookup-erase k j s, e)

instance abbrev memory : Broker
memory = record {
  Store = Map Value;
  get = lookup;
  put = λ k v s. (insert k v s, false);
  delete = λ k s. (erase k s, false);
  get-put_self = λ k v s e. put_self k v s;
  get-put_ne = put_ne;
  get-delete_self = λ k s e. delete_self k s;
  get-delete_ne = delete_ne;
}

construct_base_host_name_lem_example :
    (length (construct_base_host_name (codes "mypod") (codes "ethernet0")) ≤ 15)
    × (1 ≤ length (codes "mypod")
        → 1 ≤ length (codes "ethernet0")
        → length (codes "mypod") + length (codes "ethernet0") ≤ 15
        → construct_base_host_name (codes "mypod") (codes "ethernet0")
          ≡ codes "mypod" ++ codes "ethernet0")
construct_base_host_name_lem_example =
    construct_base_host_name_lem (codes "mypod") (codes "ethernet0") (omega arith) (omega arith)

abbrev parses : Text → Bool
parses a = not (text_eq a [])

abbrev pod : NetworkPod
pod = record {
  metadata = some (codes "p1");
  spec = some record { pod_type = codes "vppcontainer"; interfaces = pod_interface ∷ [] };
}

abbrev conn : Connection
conn = record {
  conn_type = codes "l2mp";
  network_node_overlay_name = [];
  pod_interfaces = codes "p1/m0" ∷ [];
  node_interfaces = [];
  node_interface_labels = [];
  use_node_l2bd = [];
  l2bd = none;
  vrf_id = 0;
  conn_method = [];
}

abbrev spec : NetworkServiceSpec
spec = record { network_pods = pod ∷ []; connections = conn ∷ [] }

validate_lem_example :
    ((validate parses empty_parameters (some (codes "s1")) (some spec) ≡ valid)
      ↔ ServiceOk parses empty_parameters (some (codes "s1")) (some spec))
    × (some spec ≢ none
        → NoPanic (validate parses empty_parameters (some (codes "s1")) (some spec)))
validate_lem_example = validate_lem parses empty_parameters (some (codes "s1")) (some spec)

abbrev service : NetworkService
service = record { metadata = some (codes "s1"); spec = some spec; status = none }

abbrev txn : Txn
txn = record {
  before_map = λ l. none;
  after_map = λ l. if l == 1 then some [] else none;
  txn_level = 1;
  vpp_entries = [];
  db = [];
}

abbrev state : State
state = record { services = []; ram = ram; txn = txn }

abbrev no_text : Fault → Text
no_text f = codes "fault"

handle_crud_operation_cu_lem_example :
    ((handle_crud_operation_cu parses (λ a. none) no_text empty_parameters false service state
        ≡ none)
      × ¬ ServiceOk parses empty_parameters service.metadata service.spec)
    ⊎ (ServiceOk parses empty_parameters service.metadata service.spec
        × ((name : Text) × (service.metadata ≡ some name)
            × (s' : State) × (handle_crud_operation_cu parses
                  (λ a. none)
                  no_text
                  empty_parameters
                  false
                  service
                  state
                ≡ some (s', not false))
            × ((k : Text)
                → lookup k s'.services ≡ (
                    if text_eq name k
                    then some (record service { status = none })
                    else lookup k state.services))))
handle_crud_operation_cu_lem_example =
    handle_crud_operation_cu_lem parses (λ a. none) no_text empty_parameters false service state

-- An entry that the service rendered.
abbrev entry : Rendered
entry = record { vpp_agent_key = codes "k1"; vpp_agent_type = codes "t" }

abbrev status : NetworkServiceStatus
status = record {
  oper_status = codes "OperUp";
  msg = codes "OK" ∷ [];
  rendered_vpp_agent_entries = (codes "k1", entry) ∷ [];
  interfaces = (codes "p1/m0", new_status) ∷ [];
}

abbrev rendered : NetworkService
rendered = record service { status = some status }

-- The cache and etcd hold the entry.
abbrev rendered_txn : Txn
rendered_txn = record txn {
  vpp_entries =
      (
        codes "k1",
        record {
          vpp_key = codes "k1";
          vpp_entry_type = codes "t";
          iface = none;
          l2bd = none;
          l3_route = none;
          x_conn = none;
          linux_iface = none;
          arp_entry = none;
        },
      )
      ∷ [];
  db = (codes "k1", Value.x_conn none) ∷ [];
}

abbrev rendered_state : State
rendered_state = record {
  services = (codes "s1", rendered) ∷ [];
  ram = record new_ram { interface_states = (codes "p1/m0", new_status) ∷ [] };
  txn = rendered_txn;
}

abbrev created : State
created = record state { services = (codes "s1", service) ∷ [] }

accepted : validate parses empty_parameters (some (codes "s1")) (some spec) ≡ valid
unfolding validate ◌also◌ check_each validate_network_pod check_pod check_interface check_memif
    check_tap check_connection check_conn_type check_l2bd check_pod_interface
    conn_pod_interface_names index_of found_verdict find_network_pod_and_interface_in_list
    first_found find_in_pod conn_pod_name conn_interface_name text_eq
accepted = refl

creates :
    handle_crud_operation_cu parses (λ a. none) no_text empty_parameters false service state
    ≡ some (created, true)
unfolding handle_crud_operation_cu checked checked_by append_status_msg stored entity_create
    create_for_all insert lookup text_eq
creates = rw accepted refl

delete_unrendered_example : handle_crud_operation_d (codes "s1") created ≡ none
delete_unrendered_example =
    delete_unrendered parses (λ a. none) no_text empty_parameters false service state created
      (codes "s1") true refl creates

abbrev work : Work
work = record { status = record status { interfaces = [] }; ram = ram; txn = txn }

abbrev error_text : Error → Text
error_text e = codes "error"

abbrev other_interface : Interface
other_interface = record pod_interface { parent = codes "p2" }

-- The status that the interface gets in a direct pair, and what is done then.
abbrev first_status : InterfaceStatus
first_status = record new_status { node = codes "p1" }

first_runs :
    init_interface_status parse_ip 9 (codes "s1") (codes "p1") pod_interface ram
    ≡ some (new_ram, ok first_status)
unfolding init_interface_status settle_mac pool_addresses set_known allocate_new and_loop and_then
    finish_status mark_addresses mark_address lookup insert text_eq
first_runs = refl

abbrev first_ram : Ram
first_ram = (settled pod_interface first_status new_ram work).0.ram

-- The other interface is new too.
abbrev second_mac : MacAddrAllocator × (Text × ℕ)
second_mac = allocate_mac_addr new_ram.mac_addr_allocator

abbrev second_status : InterfaceStatus
second_status = record new_status {
  name = codes "p2/m0";
  node = codes "p2";
  mac_address = second_mac.1.0;
  mac_addr_id = second_mac.1.1;
}

abbrev second_ram : Ram
second_ram = record first_ram { mac_addr_allocator = second_mac.0 }

second_runs :
    init_interface_status parse_ip 9 (codes "s1") (codes "p2") other_interface first_ram
    ≡ some (second_ram, ok second_status)
unfolding init_interface_status settle_mac pool_addresses set_known allocate_new and_loop and_then
    finish_status mark_addresses mark_address lookup insert text_eq settle_memif persist
    persist_interface_status
second_runs = refl

render_conn_direct_inter_pod_memif_pair_lem_example :
    (w' : Work) × (a b : Kv) × (f g : Memif) × (render_conn_direct_inter_pod_memif_pair parse_ip 9
        error_text empty_parameters
        (codes "s1")
        pod_interface
        other_interface
        work
      ≡ some (w', some tt))
    × IsOpen (insert b.vpp_key b (insert a.vpp_key a [])) w'
    × (a.vpp_key ≡ interface_key (codes "p1") (codes "m0"))
    × (b.vpp_key ≡ interface_key (codes "p2") (codes "m0"))
    × HasMemif a f
    × HasMemif b g
    × Fit f g
    × (f.id ≡ (
        if first_status.memif_id == 0
        then (allocate_memif new_ram.memif_id_allocator).1
        else first_status.memif_id))
render_conn_direct_inter_pod_memif_pair_lem_example =
    render_conn_direct_inter_pod_memif_pair_lem parse_ip 9 error_text empty_parameters (codes "s1")
      pod_interface other_interface work [] new_ram second_ram first_status second_status refl refl
      refl refl first_runs second_runs

render_conn_tap_pair_lem_example :
    let st' = record new_status { host_port_label = host_port_label_of pod_interface } in
    let linux =
      linux_tap parse_ip 9 error_text empty_parameters
        (codes "s1")
        (codes "n1")
        pod_interface
        st' in
    let switch =
      vswitch_tap parse_ip 9 error_text empty_parameters
        (codes "s1")
        (codes "n1")
        conn
        pod_interface in
    ((w' : Work) × (render_conn_tap_pair parse_ip 9 error_text empty_parameters
          (codes "s1")
          (codes "n1")
          conn
          pod_interface
          (codes "vppcontainer")
          work
        ≡ some (w', some ([], st')))
      × IsOpen (insert switch.vpp_key switch (insert linux.vpp_key linux [])) w')
    × ((face : VppInterface) × (switch.iface ≡ some face)
        × (face.name ≡ if_name (codes "IF_TAP_VSWITCH_") pod_interface))
render_conn_tap_pair_lem_example =
    render_conn_tap_pair_lem parse_ip 9 error_text empty_parameters (codes "s1") (codes "n1")
      (codes "vppcontainer") conn pod_interface work [] new_ram new_status refl runs
