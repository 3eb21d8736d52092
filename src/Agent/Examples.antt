-- ===== src/Agent/Examples.antt =====
-- Tests of the constructors, and their theorems at one agent, with keys that are a word and a name.
use mathlib.Core.Path.{subst}
use mathlib.Core.Logic.Or
use mathlib.Core.List.{Mem, Permᴰ, eq-or-mem_of_mem-cons, not-mem-nil}
use sfc_controller.Common.{
  ◌≡◌, ◌⊎◌, refl, ◌%◌, ◌^◌, sym, Text, codes, true, false, Option, none, some, List, [], ◌∷◌, ◌++◌,
  All, arith, leb,
}
use sfc_controller.Common.Texts.{HasNoSlash}
use sfc_controller.Common.Decimals.{decimal}
use sfc_controller.Common.Order.{text_lt}
use sfc_controller.Model.{BdParms, L3VrfRoute, L3ArpEntry}
use sfc_controller.Messages.{BridgedInterface, BridgeDomain, VppAgentApi, messages}
use sfc_controller.Entry.{Kv, equal}
use sfc_controller.Agent.{
  get_vpp_etcdlabel, interface_key, linux_interface_key, l2_bridge_domain_key, l2_x_connect_key,
  l3_route_key, arp_entry_key, str_to_uint32, sorted_ip_addresses,
}
use sfc_controller.Agent.Sorting.{insert_all, insert_sort, search, search_lem, IsKeyed}
use sfc_controller.Agent.Keys.{get_vpp_etcdlabel_lem}
use sfc_controller.Agent.Numbers.{str_to_uint32-decimal}
use sfc_controller.Agent.Order.{sorted_ip_addresses-perm, bridge_order, interface_order}
use sfc_controller.Agent.Typed.{IsTyped, constructed_lem}
use sfc_controller.Agent.Network.{
  bridged_name, construct_l2bd, append_interfaces_to_l2bd, construct_x_connect,
  construct_static_arp_entry, construct_static_route,
}
use sfc_controller.Agent.Interfaces.{
  construct_ethernet_interface, construct_loopback_interface, construct_mem_interface,
  construct_vxlan_interface, construct_tap_interface, construct_af_packet_interface,
  construct_linux_tap_interface, construct_v_eth_interface,
}

-- Texts of the messages that the tests do not compare are empty.
instance abbrev pub api : VppAgentApi
api = record {
  interface_text = λ i. [];
  linux_interface_text = λ i. [];
  bridge_domain_text = λ b. [];
  route_text = λ r. r.dst_ip_addr;
  x_connect_text = λ x. [];
  arp_text = λ a. [];
  interface_key = λ n. codes "interface/" ++ n;
  linux_interface_key = λ n. codes "linux/" ++ n;
  bridge_domain_key = λ n. codes "bd/" ++ n;
  x_connect_key = λ n. codes "xconnect/" ++ n;
  route_key = λ vrf dest hop. codes "vrf/" ++ dest ++ b'/' ∷ hop;
  arp_entry_key = λ i a. codes "arp/" ++ i ++ b'/' ∷ a;
  network_text = λ t. some t;
}

abbrev node : Text
node = codes "n1"

node_text : HasNoSlash node
node_text = (refl, (refl, tt))

label_of_interface : get_vpp_etcdlabel (interface_key node (codes "m0")) ≡ node
label_of_interface = (get_vpp_etcdlabel_lem node (codes "m0") [] 0 node_text).0

label_of_short_key : get_vpp_etcdlabel (codes "/vnf-agent") ≡ []
unfolding get_vpp_etcdlabel
label_of_short_key = refl

negative_number : str_to_uint32 (codes "-1") ≡ 4294967295
unfolding str_to_uint32
negative_number = refl

not_a_number : str_to_uint32 (codes "1k") ≡ 0
unfolding str_to_uint32
not_a_number = refl

sorted :
    sorted_ip_addresses (codes "b" ∷ codes "a" ∷ codes "ab" ∷ [])
    ≡ codes "a" ∷ codes "ab" ∷ codes "b" ∷ []
unfolding sorted_ip_addresses insert_all insert_sort search text_lt
sorted = refl

get_vpp_etcdlabel_lem_example :
    let m0 = codes "m0" in
    (get_vpp_etcdlabel (interface_key node m0) ≡ node)
    × (get_vpp_etcdlabel (linux_interface_key node m0) ≡ node)
    × (get_vpp_etcdlabel (l2_bridge_domain_key node m0) ≡ node)
    × (get_vpp_etcdlabel (l2_x_connect_key node m0) ≡ node)
    × (get_vpp_etcdlabel (l3_route_key node 3 m0 (codes "10.0.0.1")) ≡ node)
    × (get_vpp_etcdlabel (arp_entry_key node m0 (codes "10.0.0.1")) ≡ node)
get_vpp_etcdlabel_lem_example =
    get_vpp_etcdlabel_lem node (codes "m0") (codes "10.0.0.1") 3 node_text

str_to_uint32-decimal_test : str_to_uint32 (decimal 4294967297) ≡ 4294967297 % 2 ^ 32
str_to_uint32-decimal_test = str_to_uint32-decimal 4294967297 (omega arith)

abbrev two_addresses : List Text
two_addresses = codes "10.0.0.2/24" ∷ codes "10.0.0.1/24" ∷ []

abbrev same_addresses : List Text
same_addresses = codes "10.0.0.1/24" ∷ codes "10.0.0.2/24" ∷ []

swapped : Permᴰ two_addresses same_addresses
swapped = Permᴰ.swap refl refl

sorted_ip_addresses-perm_example :
    (Permᴰ two_addresses same_addresses
      → sorted_ip_addresses two_addresses ≡ sorted_ip_addresses same_addresses)
    × (sorted_ip_addresses two_addresses ≡ sorted_ip_addresses same_addresses
        → Permᴰ two_addresses same_addresses)
sorted_ip_addresses-perm_example = sorted_ip_addresses-perm two_addresses same_addresses

search_lem_example : search 8 (λ k. leb 3 k) 0 8 ≡ 3
search_lem_example =
    search_lem 8 (λ k. leb 3 k) 3 8 0 8 (λ k h. ground (arith, h)) (λ k h l. ground (arith, h))
      (omega arith) (omega arith) (omega arith) (omega arith)

abbrev bridged : Text → BridgedInterface
bridged n = record { name = n; bridged_virtual_interface = false; split_horizon_group = 0 }

abbrev two_bridged : List BridgedInterface
two_bridged = bridged (codes "b") ∷ bridged (codes "a") ∷ []

abbrev same_bridged : List BridgedInterface
same_bridged = bridged (codes "a") ∷ bridged (codes "b") ∷ []

BridgedInterface-set : IsSet BridgedInterface
BridgedInterface-set = hlevel

abbrev parms : BdParms
parms = record {
  name = codes "p";
  flood = true;
  unknown_unicast_flood = true;
  forward = true;
  learn = true;
  arp_termination = false;
  mac_age_minutes = 5;
}

abbrev bridge : BridgeDomain
bridge = record {
  name = codes "bd";
  flood = true;
  unknown_unicast_flood = true;
  forward = true;
  interfaces = bridged (codes "aa") ∷ [];
  learn = true;
  arp_termination = false;
  mac_age = 5;
}

of_two :
    (x : BridgedInterface)
    → Mem x two_bridged
    → (P : BridgedInterface → Type 0) → IsProp (P x)
    → P (bridged (codes "b"))
    → P (bridged (codes "a"))
    → P x
of_two x m P prop pb pa =
    Or.elim prop (eq-or-mem_of_mem-cons m) (λ e. subst P (sym e) pb)
      (λ m'.
        Or.elim prop (eq-or-mem_of_mem-cons m') (λ e. subst P (sym e) pa)
          (λ m''. absurd (not-mem-nil m'')))

two_bridged-IsKeyed : IsKeyed bridged_name two_bridged
two_bridged-IsKeyed x y m n =
    let set : IsSet BridgedInterface = BridgedInterface-set in
    of_two x m (λ z. z.name ≡ y.name → z ≡ y) (λ f g i e. set x y (f e) (g e) i)
      (of_two y n (λ z. codes "b" ≡ z.name → bridged (codes "b") ≡ z)
        (λ f g i e. set _ y (f e) (g e) i) (λ e. refl) (λ e. absurd (ground (arith, e))))
      (of_two y n (λ z. codes "a" ≡ z.name → bridged (codes "a") ≡ z)
        (λ f g i e. set _ y (f e) (g e) i) (λ e. absurd (ground (arith, e))) (λ e. refl))

bridge_order_example :
    ((kv : Kv) × (construct_l2bd node (codes "bd") two_bridged (some parms) ≡ some kv)
      × (kv' : Kv) × (construct_l2bd node (codes "bd") same_bridged (some parms) ≡ some kv')
      × (equal kv kv' ≡ some true))
    × (equal
          (append_interfaces_to_l2bd node bridge two_bridged)
          (append_interfaces_to_l2bd node bridge same_bridged)
        ≡ some true)
bridge_order_example =
    bridge_order node (codes "bd") parms bridge two_bridged same_bridged (Permᴰ.swap refl refl)
      two_bridged-IsKeyed (tt, tt)

abbrev arp : L3ArpEntry
arp = record {
  ip_address = codes "10.0.0.1";
  phys_address = codes "02:00";
  outgoing_interface = codes "m0";
}

abbrev route : L3VrfRoute
route = record {
  vrf_id = 1;
  description = [];
  dst_ip_addr = codes "10.1.0.0/16";
  next_hop_addr = codes "10.0.0.1/24";
  outgoing_interface = codes "m0";
  weight = 5;
  preference = 0;
}

abbrev m0 : Text
m0 = codes "m0"

interface_order_test :
    (construct_ethernet_interface node m0 two_addresses (codes "02:00") 1500 [] (codes "polling")
      ≡ construct_ethernet_interface node m0 same_addresses
          (codes "02:00")
          1500
          []
          (codes "polling"))
    × (construct_loopback_interface node m0 two_addresses (codes "02:00") 1500 [] (codes "polling")
        ≡ construct_loopback_interface node m0 same_addresses
            (codes "02:00")
            1500
            []
            (codes "polling"))
    × (construct_mem_interface node m0 two_addresses
          (codes "02:00")
          1500
          []
          (codes "polling")
          7
          true
          none
          []
          (codes "n2")
        ≡ construct_mem_interface node m0 same_addresses
            (codes "02:00")
            1500
            []
            (codes "polling")
            7
            true
            none
            []
            (codes "n2"))
    × (construct_tap_interface node m0 two_addresses
          (codes "02:00")
          1500
          []
          (codes "polling")
          none
          m0
        ≡ construct_tap_interface node m0 same_addresses
            (codes "02:00")
            1500
            []
            (codes "polling")
            none
            m0)
    × (construct_af_packet_interface node m0 two_addresses
          (codes "02:00")
          1500
          []
          (codes "polling")
          m0
        ≡ construct_af_packet_interface node m0 same_addresses
            (codes "02:00")
            1500
            []
            (codes "polling")
            m0)
    × (construct_linux_tap_interface node m0 two_addresses
          (codes "02:00")
          1500
          []
          m0
          (codes "n2")
          (codes "vnf")
        ≡ construct_linux_tap_interface node m0 same_addresses
            (codes "02:00")
            1500
            []
            m0
            (codes "n2")
            (codes "vnf"))
    × (construct_v_eth_interface node m0 two_addresses
          (codes "02:00")
          1500
          []
          m0
          (codes "n2")
          none
          (codes "vnf")
        ≡ construct_v_eth_interface node m0 same_addresses
            (codes "02:00")
            1500
            []
            m0
            (codes "n2")
            none
            (codes "vnf"))
interface_order_test =
    interface_order node m0 (codes "02:00") [] (codes "polling") m0 (codes "n2") (codes "vnf") []
      1500 7 true none none none two_addresses same_addresses swapped

constructed_lem_example :
    (IsTyped node (
        construct_ethernet_interface node m0 two_addresses
          (codes "02:00")
          1500
          []
          (codes "polling"))
      × IsTyped node (
          construct_loopback_interface node m0 two_addresses
            (codes "02:00")
            1500
            []
            (codes "polling"))
      × IsTyped node (
          construct_mem_interface node m0 two_addresses
            (codes "02:00")
            1500
            []
            (codes "polling")
            7
            true
            none
            []
            (codes "n2"))
      × IsTyped node (construct_vxlan_interface node m0 7 m0 (codes "m1"))
      × IsTyped node (
          construct_tap_interface node m0 two_addresses
            (codes "02:00")
            1500
            []
            (codes "polling")
            none
            m0)
      × IsTyped node (
          construct_af_packet_interface node m0 two_addresses
            (codes "02:00")
            1500
            []
            (codes "polling")
            m0))
    × (IsTyped node (
          construct_linux_tap_interface node m0 two_addresses
            (codes "02:00")
            1500
            []
            m0
            (codes "n2")
            (codes "vnf"))
        × IsTyped node (
            construct_v_eth_interface node m0 two_addresses
              (codes "02:00")
              1500
              []
              m0
              (codes "n2")
              none
              (codes "vnf")))
    × ((kv : Kv) × (construct_l2bd node m0 two_bridged (some parms) ≡ some kv) × IsTyped node kv)
    × IsTyped node (append_interfaces_to_l2bd node bridge two_bridged)
    × All (IsTyped node) (construct_x_connect node m0 (codes "m1"))
    × IsTyped node (construct_static_arp_entry node arp)
    × ((◌≡◌ {A = Option Text} (some (codes "10.1.0.0/16")) none
          × (construct_static_route node route ≡ none))
        ⊎ ((kv : Kv) × (construct_static_route node route ≡ some kv) × IsTyped node kv))
constructed_lem_example =
    constructed_lem node m0 (codes "02:00") [] (codes "polling") m0 (codes "n2") (codes "vnf") [] m0
      (codes "m1") 1500 7 true none none none two_addresses parms bridge two_bridged arp route
      node_text
