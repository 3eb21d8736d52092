-- ===== src/Agent/Typed.antt =====
-- plugins/controller/vppagent/vpp_agent.go: the type of a constructed entry names the message that
-- the entry holds, and its key the agent.
use sfc_controller.Common.{
  ℕ, ◌≡◌, ◌≢◌, ◌⊎◌, refl, Text, Bool, Option, none, some, List, [], text_eq, All, Option-cases, inl,
  inr,
}
use sfc_controller.Common.Texts.{HasNoSlash}
use sfc_controller.Model.{MemifParms, TapParms, LinuxNamespace, BdParms, L3VrfRoute, L3ArpEntry}
use sfc_controller.Messages.{
  BridgedInterface, BridgeDomain, VppInterface, LinuxInterface, VppAgentApi, messages,
}
use sfc_controller.Entry.{Kv, Value, value_of, HasRoute, new_kv_entry}
use sfc_controller.Agent.{get_vpp_etcdlabel, strip_slash_and_subnet_ip_address}
use sfc_controller.Agent.Keys.{get_vpp_etcdlabel_lem}
use sfc_controller.Agent.Interfaces.{
  interface_entry, linux_interface_entry, construct_ethernet_interface,
  construct_loopback_interface, construct_mem_interface, construct_vxlan_interface,
  construct_tap_interface, construct_af_packet_interface, construct_linux_tap_interface,
  construct_v_eth_interface,
}
use sfc_controller.Agent.Network.{
  bridge_domain_entry, construct_l2bd, append_interfaces_to_l2bd, construct_uni_dir_x_connect,
  construct_x_connect, static_route_entry, construct_static_route, construct_static_arp_entry,
}

some-ne-none : {A : Type 0} (a : A) → some a ≢ none
some-ne-none a e = cc

module _ ⦃Api : VppAgentApi⦄ where
  -- The message is not nil.
  abbrev pub HasMessage : Value → Type 0
  HasMessage (Value.iface m) = m ≢ none
  HasMessage (Value.l2bd m) = m ≢ none
  HasMessage (Value.x_conn m) = m ≢ none
  HasMessage (Value.linux_iface m) = m ≢ none
  HasMessage (Value.l3_route m) = m ≢ none
  HasMessage (Value.arp_entry m) = m ≢ none

  -- The key names the agent, and the type a message that is there.
  abbrev pub IsTyped : Text → Kv → Type 0
  IsTyped agent kv =
      (get_vpp_etcdlabel kv.vpp_key ≡ agent)
      × HasRoute kv
      × ((v : Value) × (value_of kv ≡ some v) × HasMessage v)

  interface_entry-IsTyped :
      (agent : Text) (i : VppInterface) → HasNoSlash agent → IsTyped agent (interface_entry agent i)
  unfolding interface_entry new_kv_entry value_of text_eq
  interface_entry-IsTyped agent i h = (
    (get_vpp_etcdlabel_lem agent i.name [] 0 h).0,
    (λ e. cc),
    (Value.iface (some i), refl, λ e. cc),
  )

  linux_interface_entry-IsTyped :
      (agent : Text) (i : LinuxInterface)
      → HasNoSlash agent
      → IsTyped agent (linux_interface_entry agent i)
  unfolding linux_interface_entry new_kv_entry value_of text_eq
  linux_interface_entry-IsTyped agent i h = (
    (get_vpp_etcdlabel_lem agent i.name [] 0 h).1,
    (λ e. cc),
    (Value.linux_iface (some i), refl, λ e. cc),
  )

  bridge_domain_entry-IsTyped :
      (agent : Text) (bd : BridgeDomain)
      → HasNoSlash agent
      → IsTyped agent (bridge_domain_entry agent bd)
  unfolding bridge_domain_entry new_kv_entry value_of text_eq
  bridge_domain_entry-IsTyped agent bd h = (
    (get_vpp_etcdlabel_lem agent bd.name [] 0 h).2,
    (λ e. cc),
    (Value.l2bd (some bd), refl, λ e. cc),
  )

  construct_uni_dir_x_connect-IsTyped :
      (agent if1 if2 : Text)
      → HasNoSlash agent
      → IsTyped agent (construct_uni_dir_x_connect agent if1 if2)
  unfolding construct_uni_dir_x_connect new_kv_entry value_of text_eq
  construct_uni_dir_x_connect-IsTyped agent if1 if2 h = (
    (get_vpp_etcdlabel_lem agent if1 [] 0 h).3,
    (λ e. cc),
    (
      Value.x_conn (some (record { receive_interface = if1; transmit_interface = if2 })),
      refl,
      λ e. cc,
    ),
  )

  static_route_entry-IsTyped :
      (agent : Text) (r : L3VrfRoute) (dest : Text)
      → HasNoSlash agent
      → IsTyped agent (static_route_entry agent r dest)
  unfolding static_route_entry new_kv_entry value_of text_eq
  static_route_entry-IsTyped agent r dest h = (
    (get_vpp_etcdlabel_lem agent dest (strip_slash_and_subnet_ip_address r.next_hop_addr) r.vrf_id
        h).4,
    (λ e. (_, refl)),
    (Value.l3_route (some _), refl, some-ne-none _),
  )

  construct_static_route-IsTyped :
      (agent : Text) (r : L3VrfRoute)
      → HasNoSlash agent
      → ((Api.network_text r.dst_ip_addr ≡ none) × (construct_static_route agent r ≡ none))
        ⊎ ((kv : Kv) × (construct_static_route agent r ≡ some kv) × IsTyped agent kv)
  unfolding construct_static_route
  construct_static_route-IsTyped agent r h = elim (Option-cases (Api.network_text r.dst_ip_addr)) [
    | inl e ↦ inl (e, (rw e refl))
    | inr (dest, e) ↦
        inr
          (static_route_entry agent r dest, (rw e refl), static_route_entry-IsTyped agent r dest h)
  ]

  construct_static_arp_entry-IsTyped :
      (agent : Text) (a : L3ArpEntry)
      → HasNoSlash agent
      → IsTyped agent (construct_static_arp_entry agent a)
  unfolding construct_static_arp_entry new_kv_entry value_of text_eq
  construct_static_arp_entry-IsTyped agent a h = (
    (get_vpp_etcdlabel_lem agent a.outgoing_interface a.phys_address 0 h).5,
    (λ e. cc),
    (Value.arp_entry (some _), refl, λ e. cc),
  )

  -- Each constructor, for an agent whose label has no slash, returns an entry whose key names this
  -- agent, and whose type names a message that is there, so that WriteToEtcd has a message to put and
  -- Equal a message to compare: an Ethernet or loopback interface, a memif, a VXLAN tunnel, a tap, an
  -- AF_PACKET interface, a Linux tap, a veth, a bridge domain from parameters, an extended one, each of
  -- the two cross connects, an ARP entry, and a route, which panics exactly if its destination cannot
  -- be parsed.
  pub constructed_lem :
      (agent n mac status rx host other vnf dir if1 if2 : Text) (mtu id : ℕ) (m : Bool)
      (mp : Option MemifParms) (tp : Option TapParms) (ns : Option LinuxNamespace) (ips : List Text)
      (parms : BdParms) (bd : BridgeDomain) (is : List BridgedInterface) (arp : L3ArpEntry)
      (r : L3VrfRoute)
      → HasNoSlash agent
      → (IsTyped agent (construct_ethernet_interface agent n ips mac mtu status rx)
          × IsTyped agent (construct_loopback_interface agent n ips mac mtu status rx)
          × IsTyped agent (construct_mem_interface agent n ips mac mtu status rx id m mp dir other)
          × IsTyped agent (construct_vxlan_interface agent n id if1 if2)
          × IsTyped agent (construct_tap_interface agent n ips mac mtu status rx tp host)
          × IsTyped agent (construct_af_packet_interface agent n ips mac mtu status rx host))
        × (IsTyped agent (construct_linux_tap_interface agent n ips mac mtu status host other vnf)
            × IsTyped agent
                (construct_v_eth_interface agent n ips mac mtu status host other ns vnf))
        × ((kv : Kv) × (construct_l2bd agent n is (some parms) ≡ some kv) × IsTyped agent kv)
        × IsTyped agent (append_interfaces_to_l2bd agent bd is)
        × All (IsTyped agent) (construct_x_connect agent if1 if2)
        × IsTyped agent (construct_static_arp_entry agent arp)
        × (((Api.network_text r.dst_ip_addr ≡ none) × (construct_static_route agent r ≡ none))
            ⊎ ((kv : Kv) × (construct_static_route agent r ≡ some kv) × IsTyped agent kv))
  unfolding construct_ethernet_interface construct_loopback_interface construct_mem_interface
      construct_vxlan_interface construct_tap_interface construct_af_packet_interface
      construct_linux_tap_interface construct_v_eth_interface construct_l2bd
      append_interfaces_to_l2bd construct_x_connect
  constructed_lem agent n mac status rx host other vnf dir if1 if2 mtu id m mp tp ns ips parms bd is
        arp r h =
      let i = λ (v : VppInterface). interface_entry-IsTyped agent v h in
      let l = λ (v : LinuxInterface). linux_interface_entry-IsTyped agent v h in
      let b = λ (v : BridgeDomain). bridge_domain_entry-IsTyped agent v h in
      (
        (i _, i _, i _, i _, i _, i _),
        (l _, l _),
        (_, refl, b _),
        b _,
        (
          construct_uni_dir_x_connect-IsTyped agent if1 if2 h,
          (construct_uni_dir_x_connect-IsTyped agent if2 if1 h, tt),
        ),
        construct_static_arp_entry-IsTyped agent arp h,
        construct_static_route-IsTyped agent r h,
      )
