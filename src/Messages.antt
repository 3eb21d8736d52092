-- ===== src/Messages.antt =====
-- The messages of the vpp-agent that the controller writes, with the fields that it sets, their
-- texts, and the last parts of their keys. Messages, texts and keys are code of the vpp-agent:
-- records here, and parameters.
use sfc_controller.Common.{ℕ, Text, Bool, Option, List, []}
use sfc_controller.Entry.{Messages}

pub data RxMode : Type 0 where
  polling : RxMode
  interrupt : RxMode
  adaptive : RxMode

pub data InterfaceType : Type 0 where
  ethernet_csmacd : InterfaceType
  software_loopback : InterfaceType
  memory_interface : InterfaceType
  vxlan_tunnel : InterfaceType
  tap_interface : InterfaceType
  af_packet_interface : InterfaceType

pub data MemifMode : Type 0 where
  ethernet : MemifMode
  ip : MemifMode
  punt_inject : MemifMode

pub record Memif : Type 0 where
  pub id : ℕ
  pub master : Bool
  pub mode : MemifMode
  pub socket_filename : Text
  pub ring_size : ℕ
  pub buffer_size : ℕ
  pub rx_queues : ℕ
  pub tx_queues : ℕ
  pub secret : Text

pub record Vxlan : Type 0 where
  pub src_address : Text
  pub dst_address : Text
  pub vni : ℕ

pub record Tap : Type 0 where
  pub host_if_name : Text
  pub version : ℕ
  pub namespace : Text
  pub rx_ring_size : ℕ
  pub tx_ring_size : ℕ

-- A VPP interface; `afpacket` is the name of the host interface.
pub record VppInterface : Type 0 where
  pub name : Text
  pub type : InterfaceType
  pub enabled : Bool
  pub phys_address : Text
  pub ip_addresses : List Text
  pub mtu : ℕ
  pub vrf : ℕ
  pub rx_mode_settings : Option RxMode
  pub memif : Option Memif
  pub vxlan : Option Vxlan
  pub tap : Option Tap
  pub afpacket : Option Text

pub record BridgedInterface : Type 0 where
  pub name : Text
  pub bridged_virtual_interface : Bool
  pub split_horizon_group : ℕ

pub record BridgeDomain : Type 0 where
  pub name : Text
  pub flood : Bool
  pub unknown_unicast_flood : Bool
  pub forward : Bool
  pub interfaces : List BridgedInterface
  pub learn : Bool
  pub arp_termination : Bool
  pub mac_age : ℕ

pub record XConnectPair : Type 0 where
  pub receive_interface : Text
  pub transmit_interface : Text

pub record StaticRoute : Type 0 where
  pub vrf_id : ℕ
  pub description : Text
  pub dst_ip_addr : Text
  pub next_hop_addr : Text
  pub weight : ℕ
  pub outgoing_interface : Text
  pub preference : ℕ

pub record ArpTableEntry : Type 0 where
  pub interface : Text
  pub static : Bool
  pub ip_address : Text
  pub phys_address : Text

pub data NamespaceType : Type 0 where
  pid_ref : NamespaceType
  microservice_ref : NamespaceType
  named : NamespaceType
  file_ref : NamespaceType

pub record Namespace : Type 0 where
  pub type : NamespaceType
  pub pid : ℕ
  pub microservice : Text
  pub name : Text
  pub filepath : Text

pub data LinuxInterfaceType : Type 0 where
  veth : LinuxInterfaceType
  auto_tap : LinuxInterfaceType

-- A Linux interface; `veth` is the name of the peer.
pub record LinuxInterface : Type 0 where
  pub name : Text
  pub type : LinuxInterfaceType
  pub enabled : Bool
  pub phys_address : Text
  pub ip_addresses : List Text
  pub mtu : ℕ
  pub host_if_name : Text
  pub namespace : Option Namespace
  pub veth : Option Text

-- The `String` methods; the last parts of the keys; and ParseIPWithPrefix followed by the `String`
-- of the network, which panics if the text cannot be parsed.
pub record VppAgentApi : Type 0 where
  pub interface_text : Option VppInterface → Text
  pub linux_interface_text : Option LinuxInterface → Text
  pub bridge_domain_text : Option BridgeDomain → Text
  pub route_text : StaticRoute → Text
  pub x_connect_text : Option XConnectPair → Text
  pub arp_text : Option ArpTableEntry → Text
  pub interface_key : Text → Text
  pub linux_interface_key : Text → Text
  pub bridge_domain_key : Text → Text
  pub x_connect_key : Text → Text
  pub route_key : ℕ → Text → Text → Text
  pub arp_entry_key : Text → Text → Text
  pub network_text : Text → Option Text

instance abbrev pub messages : ⦃Api : VppAgentApi⦄ → Messages
messages ⦃Api⦄ = record {
  Iface = VppInterface;
  LinuxIface = LinuxInterface;
  BridgeDomain = BridgeDomain;
  Route = StaticRoute;
  CrossConnect = XConnectPair;
  ArpEntry = ArpTableEntry;
  iface_text = Api.interface_text;
  linux_iface_text = Api.linux_interface_text;
  bridge_domain_text = Api.bridge_domain_text;
  route_text = Api.route_text;
  cross_connect_text = Api.x_connect_text;
  arp_entry_text = Api.arp_text;
  without_description = λ r. record r { description = [] };
}
