-- ===== src/Agent/Network.antt =====
-- plugins/controller/vppagent/vpp_agent.go: the constructors of bridge domains, cross connects,
-- routes and ARP entries.
use sfc_controller.Common.{Text, true, Option, none, some, List, [], ◌∷◌, ◌>>=◌}
use sfc_controller.Model.{BdParms, L3VrfRoute, L3ArpEntry}
use sfc_controller.Messages.{BridgedInterface, BridgeDomain, VppAgentApi, messages}
use sfc_controller.Entry.{Kv, new_kv_entry, type_l2bd, type_l2xc, type_l3_route, type_arp}
use sfc_controller.Agent.{
  l2_bridge_domain_key, l2_x_connect_key, l3_route_key, arp_entry_key,
  strip_slash_and_subnet_ip_address,
}
use sfc_controller.Agent.Sorting.{insert_all}

abbrev pub bridged_name : BridgedInterface → Text
bridged_name i = i.name

module _ ⦃Api : VppAgentApi⦄ where
  unfoldable pub bridge_domain_entry : Text → BridgeDomain → Kv
  unfolding new_kv_entry
  bridge_domain_entry vpp_agent bd =
      record (new_kv_entry (l2_bridge_domain_key vpp_agent bd.name) type_l2bd) { l2bd = some bd }

  -- A nil `bd_parms` panics.
  unfoldable pub construct_l2bd : Text → Text → List BridgedInterface → Option BdParms → Option Kv
  construct_l2bd vpp_agent bd_name ifaces none = none
  construct_l2bd vpp_agent bd_name ifaces (some parms) = some (
      bridge_domain_entry vpp_agent record {
        name = bd_name;
        flood = parms.flood;
        unknown_unicast_flood = parms.unknown_unicast_flood;
        forward = parms.forward;
        interfaces = insert_all bridged_name [] ifaces;
        learn = parms.learn;
        arp_termination = parms.arp_termination;
        mac_age = parms.mac_age_minutes;
      })

  -- The bridge domain, which is not nil, is changed in place: the changed one is that of the entry.
  unfoldable pub append_interfaces_to_l2bd : Text → BridgeDomain → List BridgedInterface → Kv
  append_interfaces_to_l2bd vpp_agent bd ifaces =
      bridge_domain_entry vpp_agent
        (record bd { interfaces = insert_all bridged_name bd.interfaces ifaces })

  unfoldable pub construct_uni_dir_x_connect : Text → Text → Text → Kv
  unfolding new_kv_entry
  construct_uni_dir_x_connect vpp_agent if1 if2 =
      record (new_kv_entry (l2_x_connect_key vpp_agent if1) type_l2xc) {
        x_conn = some record { receive_interface = if1; transmit_interface = if2 };
      }

  unfoldable pub construct_x_connect : Text → Text → Text → List Kv
  construct_x_connect vpp_agent if1 if2 =
      construct_uni_dir_x_connect vpp_agent if1 if2
      ∷ construct_uni_dir_x_connect vpp_agent if2 if1
      ∷ []

  -- The entry of a route, for the text of its destination network.
  unfoldable pub static_route_entry : Text → L3VrfRoute → Text → Kv
  unfolding new_kv_entry
  static_route_entry vpp_agent l3sr dest =
      let next_hop = strip_slash_and_subnet_ip_address l3sr.next_hop_addr in
      record (new_kv_entry (l3_route_key vpp_agent l3sr.vrf_id dest next_hop) type_l3_route) {
        l3_route = some record {
          vrf_id = l3sr.vrf_id;
          description = l3sr.description;
          dst_ip_addr = l3sr.dst_ip_addr;
          next_hop_addr = next_hop;
          weight = l3sr.weight;
          outgoing_interface = l3sr.outgoing_interface;
          preference = l3sr.preference;
        };
      }

  -- The error of ParseIPWithPrefix is dropped, and its network is nil then: `String` panics.
  unfoldable pub construct_static_route : Text → L3VrfRoute → Option Kv
  construct_static_route vpp_agent l3sr = Api.network_text l3sr.dst_ip_addr >>= λ (dest : Text).
      some (static_route_entry vpp_agent l3sr dest)

  unfoldable pub construct_static_arp_entry : Text → L3ArpEntry → Kv
  unfolding new_kv_entry
  construct_static_arp_entry vpp_agent l3ae =
      record (new_kv_entry (arp_entry_key vpp_agent l3ae.outgoing_interface l3ae.phys_address)
        type_arp) {
          arp_entry = some record {
            interface = l3ae.outgoing_interface;
            static = true;
            ip_address = l3ae.ip_address;
            phys_address = l3ae.phys_address;
          };
        }
