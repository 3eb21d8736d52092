-- ===== src/Model.antt =====
-- plugins/controller/model: the configuration that the controller works on, from the structs of
-- controller.pb.go, and the words of controller.go. A pointer is an Option: `none` is nil.
use sfc_controller.Common.{ℕ, Text, codes, Bool, Option, List}

abbrev pub if_type_loopback : Text
if_type_loopback = codes "loopback"

abbrev pub if_type_ethernet : Text
if_type_ethernet = codes "ethernet"

abbrev pub if_type_vxlan_tunnel : Text
if_type_vxlan_tunnel = codes "vxlan_tunnel"

abbrev pub if_type_memif : Text
if_type_memif = codes "memif"

abbrev pub if_type_veth : Text
if_type_veth = codes "veth"

abbrev pub if_type_tap : Text
if_type_tap = codes "tap"

abbrev pub if_admin_status_disabled : Text
if_admin_status_disabled = codes "disabled"

abbrev pub memif_mode_ethernet : Text
memif_mode_ethernet = codes "ethernet"

abbrev pub memif_mode_ip : Text
memif_mode_ip = codes "ip"

abbrev pub memif_mode_punt_inject : Text
memif_mode_punt_inject = codes "puntinject"

abbrev pub memif_directory_name : Text
memif_directory_name = codes "/tmp"

abbrev pub rx_mode_interrupt : Text
rx_mode_interrupt = codes "interrupt"

abbrev pub rx_mode_polling : Text
rx_mode_polling = codes "polling"

abbrev pub rx_mode_adaptive : Text
rx_mode_adaptive = codes "adaptive"

abbrev pub conn_method_direct : Text
conn_method_direct = codes "direct"

abbrev pub conn_method_vswitch : Text
conn_method_vswitch = codes "vswitch"

abbrev pub pod_type_external : Text
pod_type_external = codes "external"

abbrev pub pod_type_vpp_container : Text
pod_type_vpp_container = codes "vppcontainer"

abbrev pub pod_type_non_vpp_container : Text
pod_type_non_vpp_container = codes "nonvppcontainer"

abbrev pub conn_type_l2pp : Text
conn_type_l2pp = codes "l2pp"

abbrev pub conn_type_l2mp : Text
conn_type_l2mp = codes "l2mp"

abbrev pub conn_type_l3pp : Text
conn_type_l3pp = codes "l3pp"

abbrev pub conn_type_l3mp : Text
conn_type_l3mp = codes "l3mp"

abbrev pub overlay_type_mesh : Text
overlay_type_mesh = codes "mesh"

abbrev pub overlay_type_hub_and_spoke : Text
overlay_type_hub_and_spoke = codes "hub_and_spoke"

abbrev pub overlay_connection_type_vxlan : Text
overlay_connection_type_vxlan = codes "vxlan"

abbrev pub linux_namespace_pid : Text
linux_namespace_pid = codes "pid"

abbrev pub linux_namespace_microservice : Text
linux_namespace_microservice = codes "microservice"

abbrev pub linux_namespace_named : Text
linux_namespace_named = codes "named"

abbrev pub linux_namespace_file : Text
linux_namespace_file = codes "file"

pub record L3VrfRoute : Type 0 where
  pub vrf_id : ℕ
  pub description : Text
  pub dst_ip_addr : Text
  pub next_hop_addr : Text
  pub outgoing_interface : Text
  pub weight : ℕ
  pub preference : ℕ

pub record L3ArpEntry : Type 0 where
  pub ip_address : Text
  pub phys_address : Text
  pub outgoing_interface : Text

pub record BdParms : Type 0 where
  pub name : Text
  pub flood : Bool
  pub unknown_unicast_flood : Bool
  pub forward : Bool
  pub learn : Bool
  pub arp_termination : Bool
  pub mac_age_minutes : ℕ

pub record L2Bd : Type 0 where
  pub name : Text
  pub bd_parms : Option BdParms
  pub l2bd_template : Text

pub record MemifParms : Type 0 where
  pub mode : Text
  pub memif_directory : Text
  pub secret : Text
  pub ring_size : Text
  pub buffer_size : Text
  pub rx_queues : Text
  pub tx_queues : Text

pub record TapParms : Type 0 where
  pub namespace : Text
  pub rx_ring_size : Text
  pub tx_ring_size : Text

pub record Forwarding : Type 0 where
  pub l3_vrf_route : List L3VrfRoute
  pub l3_arp : List L3ArpEntry

pub record LinuxNamespace : Type 0 where
  pub type : Text
  pub pid : ℕ
  pub microservice : Text
  pub name : Text
  pub filepath : Text

pub record Interface : Type 0 where
  pub name : Text
  pub bypass_renderer : Bool
  pub if_type : Text
  pub mac_address : Text
  pub mtu : ℕ
  pub rx_mode : Text
  pub ip_addresses : List Text
  pub ipam_pool_names : List Text
  pub admin_status : Text
  pub memif_parms : Option MemifParms
  pub tap_parms : Option TapParms
  pub labels : List Text
  pub parent : Text
  pub host_port_label : Text
  pub fwd : Option Forwarding
  pub linux_namespace : Option LinuxNamespace

pub record NetworkPodSpec : Type 0 where
  pub pod_type : Text
  pub interfaces : List Interface

-- The metadata is its name.
pub record NetworkPod : Type 0 where
  pub metadata : Option Text
  pub spec : Option NetworkPodSpec

pub record Connection : Type 0 where
  pub conn_type : Text
  pub network_node_overlay_name : Text
  pub pod_interfaces : List Text
  pub node_interfaces : List Text
  pub node_interface_labels : List Text
  pub use_node_l2bd : Text
  pub l2bd : Option L2Bd
  pub vrf_id : ℕ
  pub conn_method : Text

-- VxlanHubAndSpokeParms
pub record HubAndSpokeParms : Type 0 where
  pub hub_node_name : Text
  pub vni : ℕ
  pub loopback_ipam_pool_name : Text
  pub create_loopback_interface : Bool
  pub create_loopback_static_routes : Bool
  pub network_node_interface_label : Text

-- VxlanMeshParms
pub record MeshParms : Type 0 where
  pub vni_range_start : ℕ
  pub vni_range_end : ℕ
  pub loopback_ipam_pool_name : Text
  pub create_loopback_interface : Bool
  pub create_loopback_static_routes : Bool
  pub network_node_interface_label : Text

pub record SystemParameters : Type 0 where
  pub mtu : ℕ
  pub memif_directory : Text
  pub default_static_route_weight : ℕ
  pub default_static_route_preference : ℕ
  pub l2bd_templates : List BdParms
  pub rx_mode : Text
  pub min_vrf_id : ℕ

-- A nil map of ids is `none`.
pub record InterfaceStatus : Type 0 where
  pub name : Text
  pub status : Text
  pub msg : List Text
  pub mac_address : Text
  pub mac_addr_id : ℕ
  pub ipam_pool_nums : Option (List (Text × ℕ))
  pub ip_addresses : List Text
  pub memif_id : ℕ
  pub node : Text
  pub host_port_label : Text
  pub vni : ℕ
  pub nno_name : Text

pub record NetworkServiceSpec : Type 0 where
  pub network_pods : List NetworkPod
  pub connections : List Connection

pub record NetworkNodeOverlaySpec : Type 0 where
  pub service_mesh_type : Text
  pub connection_type : Text
  pub vxlan_hub_and_spoke_parms : Option HubAndSpokeParms
  pub vxlan_mesh_parms : Option MeshParms
