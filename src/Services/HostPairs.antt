-- ===== src/Services/HostPairs.antt =====
-- plugins/controller/networkservice_if.go: taps and veths of a connection, and the choice of the kind
-- of its interfaces.
use sfc_controller.Common.{ℕ, Text, codes, Bool, Option, none, some, [], text_eq, if◌then◌else◌}
use sfc_controller.Model.{
  SystemParameters, Interface, InterfaceStatus, Connection, pod_type_vpp_container, if_type_memif,
  if_type_veth, if_type_tap, if_type_ethernet,
}
use sfc_controller.Messages.{VppAgentApi, messages}
use sfc_controller.Entry.{Kv}
use sfc_controller.Datastore.{Broker}
use sfc_controller.Ipam.{Ip}
use sfc_controller.Pools.{Error}
use sfc_controller.SysParms.{resolve_mtu, resolve_rx_mode}
use sfc_controller.Interfaces.{StatusStore}
use sfc_controller.Agent.Interfaces.{
  construct_tap_interface, construct_linux_tap_interface, construct_v_eth_interface,
  construct_af_packet_interface,
}
use sfc_controller.Services.Pairs.{
  if_name, host_port_label_of, host_name_space_of, set_vrf, Work, Render, ◌>=>◌, add_entry, persist,
  init_status, render_conn_memif_pair, render_interface_forwarding,
}

module _ ⦃Api : VppAgentApi⦄ ⦃B : Broker⦄ ⦃S : StatusStore⦄ (parse_ip : Text → Option Ip) (fuel : ℕ)
    (error_text : Error → Text) (sys : SystemParameters) (ns_name : Text) where
  -- The Linux end of a tap.
  unfoldable pub linux_tap : Text → Interface → InterfaceStatus → Kv
  unfolding host_port_label_of host_name_space_of
  linux_tap vpp_agent i st =
      construct_linux_tap_interface vpp_agent (if_name (codes "IF_TAP_VNF_") i) st.ip_addresses
        st.mac_address (resolve_mtu sys i.mtu) i.admin_status (host_port_label_of i)
        (host_name_space_of i) i.parent

  -- The end in the switch.
  unfoldable pub vswitch_tap : Text → Connection → Interface → Kv
  unfolding host_port_label_of set_vrf
  vswitch_tap vpp_agent conn i = set_vrf conn.vrf_id (
      construct_tap_interface vpp_agent (if_name (codes "IF_TAP_VSWITCH_") i) [] []
        (resolve_mtu sys i.mtu) i.admin_status (resolve_rx_mode sys i.rx_mode) i.tap_parms
        (host_port_label_of i))

  -- The first result, ifName, is declared and never set.
  unfoldable pub render_conn_tap_pair :
      Text → Connection → Interface → Text → Work → Render (Text × InterfaceStatus)
  unfolding linux_tap vswitch_tap host_port_label_of persist add_entry init_status
  render_conn_tap_pair vpp_agent conn i pod_type w =
      init_status parse_ip fuel error_text sys ns_name vpp_agent i w >=> λ w1 st1.
      let st = record st1 { host_port_label = host_port_label_of i } in
      (add_entry (linux_tap vpp_agent i st) (persist i st w1) >=> λ w2 u.
      (add_entry (vswitch_tap vpp_agent conn i) w2 >=> λ w3 u. some (w3, some ([], st))))

  unfoldable pub is_vpp_container : Text → Bool
  is_vpp_container pod_type = text_eq pod_type pod_type_vpp_container

  -- The veth of the pod; a pod with VPP has its addresses on the AF_PACKET interface.
  unfoldable pub pod_veth : Interface → InterfaceStatus → Text → Text → Kv
  unfolding is_vpp_container
  pod_veth i st pod_type vpp_agent =
      construct_v_eth_interface vpp_agent (if_name (codes "IF_VETH_VNF_") i)
        (if is_vpp_container pod_type then [] else st.ip_addresses) st.mac_address
        (resolve_mtu sys i.mtu) i.admin_status i.name (if_name (codes "IF_VETH_VSWITCH_") i)
        i.linux_namespace i.parent

  unfoldable pub vswitch_veth : Text → Interface → Kv
  unfolding host_port_label_of
  vswitch_veth vpp_agent i =
      construct_v_eth_interface vpp_agent (if_name (codes "IF_VETH_VSWITCH_") i) [] []
        (resolve_mtu sys i.mtu) i.admin_status (host_port_label_of i)
        (if_name (codes "IF_VETH_VNF_") i) i.linux_namespace vpp_agent

  unfoldable pub pod_afp : Connection → Interface → InterfaceStatus → Kv
  unfolding set_vrf
  pod_afp conn i st = set_vrf conn.vrf_id (
      construct_af_packet_interface i.parent i.name st.ip_addresses st.mac_address
        (resolve_mtu sys i.mtu) i.admin_status (resolve_rx_mode sys i.rx_mode) i.name)

  unfoldable pub vswitch_afp : Text → Connection → Interface → Kv
  unfolding set_vrf host_port_label_of
  vswitch_afp vpp_agent conn i = set_vrf conn.vrf_id (
      construct_af_packet_interface vpp_agent (if_name (codes "IF_AFPIF_VSWITCH_") i) [] []
        (resolve_mtu sys i.mtu) i.admin_status (resolve_rx_mode sys i.rx_mode)
        (host_port_label_of i))

  unfoldable pub render_conn_veth_afp_pair :
      Text → Connection → Interface → Text → Work → Render (Text × InterfaceStatus)
  unfolding pod_veth vswitch_veth pod_afp vswitch_afp is_vpp_container
  render_conn_veth_afp_pair vpp_agent conn i pod_type w =
      init_status parse_ip fuel error_text sys ns_name vpp_agent i w >=> λ w1 st1.
      let st = record st1 { host_port_label = host_port_label_of i } in
      (add_entry (pod_veth i st pod_type vpp_agent) (persist i st w1) >=> λ w2 u.
      (add_entry (vswitch_veth vpp_agent i) w2 >=> λ w3 u.
      ((if is_vpp_container pod_type then add_entry (pod_afp conn i st) w3 else some (w3, some tt))
        >=> λ w4 u.
            (add_entry (vswitch_afp vpp_agent conn i) w4 >=> λ w5 u.
            some (w5, some (if_name (codes "IF_AFPIF_VSWITCH_") i, st))))))

  abbrev with_status : Render (Text × InterfaceStatus) → Render (Text × Option InterfaceStatus)
  with_status r = r >=> λ w x. some (w, some (x.0, some x.1))

  -- The switch on the type of the interface, before the forwarding.
  unfoldable pub render_pair_of :
      Text → Connection → Interface → Text → Work → Render (Text × Option InterfaceStatus)
  unfolding render_conn_tap_pair render_conn_veth_afp_pair
  render_pair_of vpp_agent conn i pod_type w =
      if text_eq i.if_type if_type_memif
      then with_status
          (render_conn_memif_pair parse_ip fuel error_text sys ns_name vpp_agent conn i pod_type w)
      else if text_eq i.if_type if_type_veth
      then with_status (render_conn_veth_afp_pair vpp_agent conn i pod_type w)
      else if text_eq i.if_type if_type_tap
      then with_status (render_conn_tap_pair vpp_agent conn i pod_type w)
      else some (w, some ([], none))

  -- An Ethernet interface has been created by its node.
  unfoldable pub render_conn_interface_pair :
      Text → Connection → Interface → Text → Work → Render (Text × Option InterfaceStatus)
  unfolding render_pair_of
  render_conn_interface_pair vpp_agent conn i pod_type w =
      if text_eq i.if_type if_type_ethernet
      then some (w, some (i.name, none))
      else render_pair_of vpp_agent conn i pod_type w >=> λ w1 x.
          (render_interface_forwarding parse_ip fuel error_text sys ns_name i w1 >=> λ w2 u.
          some (w2, some x))
