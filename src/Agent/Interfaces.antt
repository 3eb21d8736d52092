-- ===== src/Agent/Interfaces.antt =====
-- plugins/controller/vppagent/vpp_agent.go: the constructors of interfaces.
use sfc_controller.Common.{
  ℕ, Text, codes, Bool, true, Option, none, some, List, [], ◌++◌, if◌then◌else◌, text_eq,
}
use sfc_controller.Model.{
  MemifParms, TapParms, LinuxNamespace, memif_directory_name, linux_namespace_microservice,
  linux_namespace_named, linux_namespace_pid, linux_namespace_file,
}
use sfc_controller.Messages.{
  RxMode, InterfaceType, MemifMode, Memif, Tap, VppInterface, NamespaceType, Namespace,
  LinuxInterfaceType, LinuxInterface, VppAgentApi, messages,
}
use sfc_controller.Entry.{Kv, new_kv_entry, type_interface, type_linux_interface}
use sfc_controller.Agent.{
  interface_key, linux_interface_key, rx_mode_controller_to_interface, admin_status_string_to_bool,
  memif_mode, str_to_uint32, sorted_ip_addresses, strip_slash_and_subnet_ip_address,
}

-- The fields that the constructors of VPP interfaces set alike.
unfoldable pub base_interface :
    InterfaceType → Text → List Text → Text → ℕ → Text → Option RxMode → VppInterface
base_interface t ifname ip_addresses mac_addr mtu admin_status rx = record {
  name = ifname;
  type = t;
  enabled = admin_status_string_to_bool admin_status;
  phys_address = mac_addr;
  ip_addresses = sorted_ip_addresses ip_addresses;
  mtu = mtu;
  vrf = 0;
  rx_mode_settings = rx;
  memif = none;
  vxlan = none;
  tap = none;
  afpacket = none;
}

-- What the parameters set in the memif; fields that they leave are zero.
unfoldable pub memif_settings : ℕ → Bool → Option MemifParms → Text → Text → Memif
memif_settings memif_id is_master none default_directory master_vpp_agent = record {
  id = memif_id;
  master = is_master;
  mode = MemifMode.ethernet;
  socket_filename =
      (if text_eq default_directory [] then memif_directory_name else default_directory)
      ++ (codes "/memif_" ++ (master_vpp_agent ++ codes ".sock"));
  ring_size = 0;
  buffer_size = 0;
  rx_queues = 0;
  tx_queues = 0;
  secret = [];
}
memif_settings memif_id is_master (some parms) default_directory master_vpp_agent =
    let directory : Text =
      if text_eq parms.memif_directory [] then default_directory else parms.memif_directory in
    record {
      id = memif_id;
      master = is_master;
      mode = if text_eq parms.mode [] then MemifMode.ethernet else memif_mode parms.mode;
      socket_filename =
          (if text_eq directory [] then memif_directory_name else directory)
          ++ (codes "/memif_" ++ (master_vpp_agent ++ codes ".sock"));
      ring_size = if text_eq parms.ring_size [] then 0 else str_to_uint32 parms.ring_size;
      buffer_size = if text_eq parms.buffer_size [] then 0 else str_to_uint32 parms.buffer_size;
      rx_queues = if text_eq parms.rx_queues [] then 0 else str_to_uint32 parms.rx_queues;
      tx_queues = if text_eq parms.tx_queues [] then 0 else str_to_uint32 parms.tx_queues;
      secret = parms.secret;
    }

unfoldable pub tap_settings : Text → Option TapParms → Tap
tap_settings host_if_name none = record {
  host_if_name = host_if_name;
  version = 2;
  namespace = [];
  rx_ring_size = 0;
  tx_ring_size = 0;
}
tap_settings host_if_name (some parms) = record {
  host_if_name = host_if_name;
  version = 2;
  namespace = parms.namespace;
  rx_ring_size = if text_eq parms.rx_ring_size [] then 0 else str_to_uint32 parms.rx_ring_size;
  tx_ring_size = if text_eq parms.tx_ring_size [] then 0 else str_to_uint32 parms.tx_ring_size;
}

abbrev empty_namespace : Namespace
empty_namespace = record {
  type = NamespaceType.pid_ref;
  pid = 0;
  microservice = [];
  name = [];
  filepath = [];
}

-- The namespace of a Linux tap.
unfoldable pub tap_namespace : Text → Text → Namespace
tap_namespace host_name_space micro_service_label =
    if text_eq host_name_space []
    then record empty_namespace {
      type = NamespaceType.microservice_ref;
      microservice = micro_service_label;
    }
    else record empty_namespace { type = NamespaceType.named; microservice = host_name_space }

-- The namespace of a veth.
unfoldable pub veth_namespace : Option LinuxNamespace → Text → Namespace
veth_namespace none vnf_name = record empty_namespace {
  type = NamespaceType.microservice_ref;
  microservice = vnf_name;
}
veth_namespace (some ns) vnf_name =
    if text_eq ns.type linux_namespace_microservice
    then record empty_namespace {
      type = NamespaceType.microservice_ref;
      microservice = ns.microservice;
    }
    else if text_eq ns.type linux_namespace_named
    then record empty_namespace { type = NamespaceType.named; name = ns.name }
    else if text_eq ns.type linux_namespace_pid
    then record empty_namespace { type = NamespaceType.pid_ref; pid = ns.pid }
    else if text_eq ns.type linux_namespace_file
    then record empty_namespace { type = NamespaceType.file_ref; filepath = ns.filepath }
    else empty_namespace

module _ ⦃Api : VppAgentApi⦄ where
  -- The entry that the constructors of VPP interfaces return.
  unfoldable pub interface_entry : Text → VppInterface → Kv
  unfolding new_kv_entry
  interface_entry vpp_agent i =
      record (new_kv_entry (interface_key vpp_agent i.name) type_interface) { iface = some i }

  -- The entry that the constructors of Linux interfaces return.
  unfoldable pub linux_interface_entry : Text → LinuxInterface → Kv
  unfolding new_kv_entry
  linux_interface_entry vpp_agent i =
      record (new_kv_entry (linux_interface_key vpp_agent i.name) type_linux_interface) {
        linux_iface = some i;
      }

  unfoldable pub construct_ethernet_interface :
      Text → Text → List Text → Text → ℕ → Text → Text → Kv
  construct_ethernet_interface vpp_agent ifname ip_addresses mac_addr mtu admin_status rx_mode =
      interface_entry vpp_agent (
        base_interface InterfaceType.ethernet_csmacd ifname ip_addresses mac_addr mtu admin_status
          (rx_mode_controller_to_interface rx_mode))

  unfoldable pub construct_loopback_interface :
      Text → Text → List Text → Text → ℕ → Text → Text → Kv
  construct_loopback_interface vpp_agent ifname ip_addresses mac_addr mtu admin_status rx_mode =
      interface_entry vpp_agent (
        base_interface InterfaceType.software_loopback ifname ip_addresses mac_addr mtu admin_status
          (rx_mode_controller_to_interface rx_mode))

  unfoldable pub construct_mem_interface :
      Text
      → Text
      → List Text
      → Text
      → ℕ
      → Text
      → Text
      → ℕ
      → Bool
      → Option MemifParms
      → Text
      → Text
      → Kv
  construct_mem_interface vpp_agent ifname ip_addresses mac_addr mtu admin_status rx_mode memif_id
        is_master memif_parms default_directory master_vpp_agent =
      interface_entry vpp_agent
        (record (base_interface InterfaceType.memory_interface ifname ip_addresses mac_addr mtu
          admin_status (rx_mode_controller_to_interface rx_mode)) {
            memif =
                some (
                  memif_settings memif_id is_master memif_parms default_directory master_vpp_agent);
          })

  -- The interface is enabled, and has no addresses, no MTU and no receive mode.
  unfoldable pub construct_vxlan_interface : Text → Text → ℕ → Text → Text → Kv
  construct_vxlan_interface vpp_agent ifname vni ep1 ep2 = interface_entry vpp_agent record {
    name = ifname;
    type = InterfaceType.vxlan_tunnel;
    enabled = true;
    phys_address = [];
    ip_addresses = [];
    mtu = 0;
    vrf = 0;
    rx_mode_settings = none;
    memif = none;
    vxlan = some record {
      src_address = strip_slash_and_subnet_ip_address ep1;
      dst_address = strip_slash_and_subnet_ip_address ep2;
      vni = vni;
    };
    tap = none;
    afpacket = none;
  }

  unfoldable pub construct_tap_interface :
      Text → Text → List Text → Text → ℕ → Text → Text → Option TapParms → Text → Kv
  construct_tap_interface vpp_agent ifname ip_addresses mac_addr mtu admin_status rx_mode tap_parms
        host_if_name =
      interface_entry vpp_agent
        (record (base_interface InterfaceType.tap_interface ifname ip_addresses mac_addr mtu
          admin_status (rx_mode_controller_to_interface rx_mode)) {
            tap = some (tap_settings host_if_name tap_parms);
          })

  unfoldable pub construct_af_packet_interface :
      Text → Text → List Text → Text → ℕ → Text → Text → Text → Kv
  construct_af_packet_interface vpp_agent ifname ip_addresses mac_addr mtu admin_status rx_mode
        host_if_name =
      interface_entry vpp_agent
        (record (base_interface InterfaceType.af_packet_interface ifname ip_addresses mac_addr mtu
          admin_status (rx_mode_controller_to_interface rx_mode)) { afpacket = some host_if_name })

  unfoldable pub construct_linux_tap_interface :
      Text → Text → List Text → Text → ℕ → Text → Text → Text → Text → Kv
  construct_linux_tap_interface vpp_agent ifname ip_addresses mac_addr mtu admin_status host_if_name
        host_name_space micro_service_label =
      linux_interface_entry vpp_agent record {
        name = ifname;
        type = LinuxInterfaceType.auto_tap;
        enabled = admin_status_string_to_bool admin_status;
        phys_address = mac_addr;
        ip_addresses = sorted_ip_addresses ip_addresses;
        mtu = mtu;
        host_if_name = host_if_name;
        namespace = some (tap_namespace host_name_space micro_service_label);
        veth = none;
      }

  unfoldable pub construct_v_eth_interface :
      Text → Text → List Text → Text → ℕ → Text → Text → Text → Option LinuxNamespace → Text → Kv
  construct_v_eth_interface vpp_agent ifname ip_addresses mac_addr mtu admin_status host_if_name
        peer_if_name linux_namespace vnf_name =
      linux_interface_entry vpp_agent record {
        name = ifname;
        type = LinuxInterfaceType.veth;
        enabled = admin_status_string_to_bool admin_status;
        phys_address = mac_addr;
        ip_addresses = sorted_ip_addresses ip_addresses;
        mtu = mtu;
        host_if_name = host_if_name;
        namespace = some (veth_namespace linux_namespace vnf_name);
        veth = some peer_if_name;
      }
