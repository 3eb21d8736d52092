-- ===== src/Agent/Order.antt =====
-- plugins/controller/vppagent/vpp_agent.go: the order in which addresses and bridged interfaces
-- are given does not show in the entries.
use mathlib.Core.Path.{subst}
use mathlib.Core.List.{Permᴰ}
use mathlib.Core.List.Permᴰ
use sfc_controller.Common.{
  ℕ, ◌≡◌, refl, ap, sym, Text, Bool, true, false, Option, some, List, [], text_eq, text_eq_refl,
}
use sfc_controller.Model.{BdParms, MemifParms, TapParms, LinuxNamespace}
use sfc_controller.Messages.{BridgedInterface, BridgeDomain, VppAgentApi, messages}
use sfc_controller.Entry.{Kv, equal, new_kv_entry, type_l2bd, type_interface}
use sfc_controller.Agent.{l2_bridge_domain_key, sorted_ip_addresses}
use sfc_controller.Agent.Sorting.{
  IsSorted, IsKeyed, insert_all, insert_all-perm, insert_all-content,
}
use sfc_controller.Agent.Interfaces.{
  base_interface, construct_ethernet_interface, construct_loopback_interface,
  construct_mem_interface, construct_tap_interface, construct_af_packet_interface,
  construct_linux_tap_interface, construct_v_eth_interface,
}
use sfc_controller.Agent.Network.{
  bridged_name, bridge_domain_entry, construct_l2bd, append_interfaces_to_l2bd,
}

abbrev whole : Text → Text
whole t = t

-- Two lists of addresses are sorted into the same list exactly if one is a permutation of the other.
pub sorted_ip_addresses-perm :
    (xs ys : List Text)
    → (Permᴰ xs ys → sorted_ip_addresses xs ≡ sorted_ip_addresses ys)
      × (sorted_ip_addresses xs ≡ sorted_ip_addresses ys → Permᴰ xs ys)
unfolding sorted_ip_addresses
sorted_ip_addresses-perm xs ys = (
  (λ p. insert_all-perm whole [] p tt (λ x y m n e. e)),
  (λ e.
      Permᴰ.trans (Permᴰ.symm (insert_all-content whole [] xs))
        (subst (λ r. Permᴰ r ys) (sym e) (insert_all-content whole [] ys))),
)

module _ ⦃Api : VppAgentApi⦄ where
  same_bridge :
      (agent : Text) (bd bd' : BridgeDomain)
      → bd ≡ bd'
      → equal (bridge_domain_entry agent bd) (bridge_domain_entry agent bd') ≡ some true
  unfolding equal bridge_domain_entry
  same_bridge agent bd bd' e =
      let other : text_eq type_l2bd type_interface ≡ false = unfold text_eq in refl in
      rw
        (
          ← e,
          bridge_domain_entry,
          new_kv_entry,
          text_eq_refl type_l2bd,
          text_eq_refl (l2_bridge_domain_key agent bd.name),
          other,
          text_eq_refl (Api.bridge_domain_text (some bd)),
        )
        refl

  -- ConstructL2BD and AppendInterfacesToL2BD, for lists of bridged interfaces of which one is a
  -- permutation of the other and in which different interfaces have different names: Equal takes
  -- the two entries for equal, so that the order gives no change to write. For the second, the
  -- interfaces of the bridge domain are sorted by name.
  pub bridge_order :
      (agent bd_name : Text) (parms : BdParms) (bd : BridgeDomain) (xs ys : List BridgedInterface)
      → Permᴰ xs ys
      → IsKeyed bridged_name xs
      → IsSorted bridged_name bd.interfaces
      → ((kv : Kv) × (construct_l2bd agent bd_name xs (some parms) ≡ some kv)
          × (kv' : Kv) × (construct_l2bd agent bd_name ys (some parms) ≡ some kv')
          × (equal kv kv' ≡ some true))
        × (equal (append_interfaces_to_l2bd agent bd xs) (append_interfaces_to_l2bd agent bd ys)
            ≡ some true)
  unfolding construct_l2bd append_interfaces_to_l2bd
  bridge_order agent bd_name parms bd xs ys p k s =
      let new = insert_all-perm bridged_name [] p tt k in
      let more = insert_all-perm bridged_name bd.interfaces p s k in
      let with_interfaces = λ (i : List BridgedInterface). record bd { interfaces = i } in
      (
        (
          _,
          refl,
          _,
          refl,
          same_bridge agent _ _ (
              ap
                (λ (i : List BridgedInterface). record {
                  name = bd_name;
                  flood = parms.flood;
                  unknown_unicast_flood = parms.unknown_unicast_flood;
                  forward = parms.forward;
                  interfaces = i;
                  learn = parms.learn;
                  arp_termination = parms.arp_termination;
                  mac_age = parms.mac_age_minutes;
                })
                new),
        ),
        same_bridge agent (with_interfaces (insert_all bridged_name bd.interfaces xs)) _
            (ap with_interfaces more),
      )

  -- The constructors of interfaces, for lists of addresses of which one is a permutation of the other,
  -- return the same entry: an Ethernet or loopback interface, a memif, a tap, an AF_PACKET interface,
  -- a Linux tap, a veth.
  pub interface_order :
      (agent n mac status rx host other vnf dir : Text) (mtu id : ℕ) (m : Bool)
      (mp : Option MemifParms) (tp : Option TapParms) (ns : Option LinuxNamespace)
      (xs ys : List Text)
      → Permᴰ xs ys
      → (construct_ethernet_interface agent n xs mac mtu status rx
          ≡ construct_ethernet_interface agent n ys mac mtu status rx)
        × (construct_loopback_interface agent n xs mac mtu status rx
            ≡ construct_loopback_interface agent n ys mac mtu status rx)
        × (construct_mem_interface agent n xs mac mtu status rx id m mp dir other
            ≡ construct_mem_interface agent n ys mac mtu status rx id m mp dir other)
        × (construct_tap_interface agent n xs mac mtu status rx tp host
            ≡ construct_tap_interface agent n ys mac mtu status rx tp host)
        × (construct_af_packet_interface agent n xs mac mtu status rx host
            ≡ construct_af_packet_interface agent n ys mac mtu status rx host)
        × (construct_linux_tap_interface agent n xs mac mtu status host other vnf
            ≡ construct_linux_tap_interface agent n ys mac mtu status host other vnf)
        × (construct_v_eth_interface agent n xs mac mtu status host other ns vnf
            ≡ construct_v_eth_interface agent n ys mac mtu status host other ns vnf)
  unfolding construct_ethernet_interface construct_loopback_interface construct_mem_interface
      construct_tap_interface construct_af_packet_interface construct_linux_tap_interface
      construct_v_eth_interface base_interface
  interface_order agent n mac status rx host other vnf dir mtu id m mp tp ns xs ys p =
      let e = (sorted_ip_addresses-perm xs ys).0 p in
      (rw e refl, rw e refl, rw e refl, rw e refl, rw e refl, rw e refl, rw e refl)
