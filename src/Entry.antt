-- ===== src/Entry.antt =====
-- plugins/controller/vppagent/database.go: the entries that the controller writes for the agents.
-- The messages are generated code of the vpp-agent and their `String` methods are too, so both are
-- an interface.
use sfc_controller.Common.{
  Text, Bool, true, false, not, Option, none, some, ◌≡◌, codes, text_eq, if◌then◌else◌,
}

-- The message types, their texts (`String` of a nil pointer has a text too), and a route with an
-- empty description.
pub record Messages : Type 1 where
  pub Iface : Type 0
  pub LinuxIface : Type 0
  pub BridgeDomain : Type 0
  pub Route : Type 0
  pub CrossConnect : Type 0
  pub ArpEntry : Type 0
  pub iface_text : Option Iface → Text
  pub linux_iface_text : Option LinuxIface → Text
  pub bridge_domain_text : Option BridgeDomain → Text
  pub route_text : Route → Text
  pub cross_connect_text : Option CrossConnect → Text
  pub arp_entry_text : Option ArpEntry → Text
  pub without_description : Route → Route

abbrev pub type_interface : Text
type_interface = codes "interface"

abbrev pub type_linux_interface : Text
type_linux_interface = codes "linuxif"

abbrev pub type_l2bd : Text
type_l2bd = codes "l2bd"

abbrev pub type_l3_route : Text
type_l3_route = codes "l3vrf"

abbrev pub type_l2xc : Text
type_l2xc = codes "l2xc"

abbrev pub type_arp : Text
type_arp = codes "arp"

module _ ⦃M : Messages⦄ where
  open M use {Iface, LinuxIface, BridgeDomain, Route, CrossConnect, ArpEntry}

  -- A pointer field is `none` when it is nil.
  pub record Kv : Type 0 where
    pub vpp_key : Text
    pub vpp_entry_type : Text
    pub iface : Option Iface
    pub l2bd : Option BridgeDomain
    pub l3_route : Option Route
    pub x_conn : Option CrossConnect
    pub linux_iface : Option LinuxIface
    pub arp_entry : Option ArpEntry

  unfoldable pub new_kv_entry : Text → Text → Kv
  new_kv_entry key entry_type = record {
    vpp_key = key;
    vpp_entry_type = entry_type;
    iface = none;
    l2bd = none;
    l3_route = none;
    x_conn = none;
    linux_iface = none;
    arp_entry = none;
  }

  -- The routes are copied through their pointers: `none` is the panic at a nil pointer.
  unfoldable pub equal_routes : Option Route → Option Route → Option Bool
  equal_routes (some r) (some r2) =
      some
        (text_eq (M.route_text (M.without_description r)) (M.route_text (M.without_description r2)))
  equal_routes _ _ = none

  unfoldable pub equal : Kv → Kv → Option Bool
  equal kv kv2 =
      let t = kv.vpp_entry_type in
      if not (text_eq t kv2.vpp_entry_type)
      then some false
      else if not (text_eq kv.vpp_key kv2.vpp_key)
      then some false
      else if text_eq t type_interface
      then some (text_eq (M.iface_text kv.iface) (M.iface_text kv2.iface))
      else if text_eq t type_l2bd
      then some (text_eq (M.bridge_domain_text kv.l2bd) (M.bridge_domain_text kv2.l2bd))
      else if text_eq t type_l2xc
      then some (text_eq (M.cross_connect_text kv.x_conn) (M.cross_connect_text kv2.x_conn))
      else if text_eq t type_linux_interface
      then some (text_eq (M.linux_iface_text kv.linux_iface) (M.linux_iface_text kv2.linux_iface))
      else if text_eq t type_l3_route
      then equal_routes kv.l3_route kv2.l3_route
      else if text_eq t type_arp
      then some (text_eq (M.arp_entry_text kv.arp_entry) (M.arp_entry_text kv2.arp_entry))
      else some false

  -- The message that WriteToEtcd hands to the datastore.
  pub data Value : Type 0 where
    iface : Option Iface → Value
    l2bd : Option BridgeDomain → Value
    x_conn : Option CrossConnect → Value
    linux_iface : Option LinuxIface → Value
    l3_route : Option Route → Value
    arp_entry : Option ArpEntry → Value

  -- `none` is an unknown entry type.
  unfoldable pub value_of : Kv → Option Value
  value_of kv =
      let t = kv.vpp_entry_type in
      if text_eq t type_interface
      then some (Value.iface kv.iface)
      else if text_eq t type_l2bd
      then some (Value.l2bd kv.l2bd)
      else if text_eq t type_l2xc
      then some (Value.x_conn kv.x_conn)
      else if text_eq t type_linux_interface
      then some (Value.linux_iface kv.linux_iface)
      else if text_eq t type_l3_route
      then some (Value.l3_route kv.l3_route)
      else if text_eq t type_arp
      then some (Value.arp_entry kv.arp_entry)
      else none

  -- An entry of type "l3vrf" has its route.
  abbrev pub HasRoute : Kv → Type 0
  HasRoute kv =
      text_eq kv.vpp_entry_type type_l3_route ≡ true → (r : Route) × (kv.l3_route ≡ some r)
