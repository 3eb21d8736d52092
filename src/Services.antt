-- ===== src/Services.antt =====
-- plugins/controller/networkservice.go: a network service and its validation.
pub mod HostName
pub mod Verdicts
pub mod Finding
pub mod Validity
pub mod Acceptance
pub mod Crud
pub mod Lifecycle
pub mod Pairs
pub mod HostPairs
pub mod Taps
mod Examples
use sfc_controller.Common.{
  ℕ, ◌+◌, Text, Bool, true, false, not, ◌&&◌, ◌||◌, Option, none, some, List, [], ◌∷◌, ◌==◌, length,
  text_eq, if◌then◌else◌,
}
use sfc_controller.Model.{
  SystemParameters, Interface, MemifParms, TapParms, NetworkPod, NetworkPodSpec, Connection, L2Bd,
  BdParms, NetworkServiceSpec, if_type_memif, if_type_ethernet, if_type_veth, if_type_tap,
  memif_mode_ethernet, memif_mode_ip, memif_mode_punt_inject, pod_type_external,
  pod_type_vpp_container, pod_type_non_vpp_container, conn_type_l2pp, conn_type_l2mp,
  conn_type_l3pp, conn_type_l3mp, conn_method_direct, conn_method_vswitch,
}
use sfc_controller.Names.{conn_pod_name, conn_interface_name, conn_pod_interface_names}
use sfc_controller.SysParms.{find_l2bd_template}
use sfc_controller.Agent.{atoi, is_negative}

-- The errors, with the texts that they name.
pub data Fault : Type 0 where
  missing_name : Fault
  pod_missing_name : Fault
  pod_missing_spec : Text → Fault
  invalid_pod_type : Text → Text → Fault
  no_interfaces : Text → Fault
  invalid_if_type : Text → Text → Fault
  invalid_address : Text → Text → Fault
  invalid_memif_mode : Text → Text → Fault
  invalid_size : Text → Text → Fault
  two_interfaces_only : Fault
  one_interface_at_least : Fault
  node_bd_and_l2bd : Fault
  template_and_parms : Text → Fault
  no_such_template : Text → Text → Fault
  no_parms : Text → Fault
  invalid_conn_type : Text → Fault
  not_pod_interface : Text → Fault
  interface_not_found : Text → Fault
  invalid_conn_method : Text → Fault

-- What a check comes to: a nil pointer is read, an error is returned, or no error.
pub data Verdict : Type 0 where
  panic : Verdict
  invalid : Fault → Verdict
  valid : Verdict

-- The next check is made if there was no error.
infixr 3 ◌also◌
unfoldable pub ◌also◌ : Verdict → Verdict → Verdict
panic also w = panic
invalid f also w = invalid f
valid also w = w

-- if !c { return fault }
abbrev pub require : Bool → Fault → Verdict
require c fault = if c then valid else invalid fault

unfoldable pub check_each : {A : Type 0} → (A → Verdict) → List A → Verdict
check_each check [] = valid
check_each check (x ∷ xs) = check x also check_each check xs

-- A text that strconv.Atoi reads as a number that is not negative.
unfoldable pub is_size : Text → Bool
is_size v = elim (atoi v) [ none ↦ false | some i ↦ not (is_negative i) ]

abbrev pub check_size : Text → Text → Verdict
check_size if_name v = require (text_eq v [] || is_size v) (invalid_size if_name v)

-- A switch whose cases do nothing, before its default.
abbrev pub one_of : Text → List Text → Bool
one_of t [] = false
one_of t (s ∷ ss) = text_eq t s || one_of t ss

abbrev pub if_types : List Text
if_types = if_type_memif ∷ if_type_ethernet ∷ if_type_veth ∷ if_type_tap ∷ []

abbrev pub pod_types : List Text
pod_types = pod_type_external ∷ pod_type_vpp_container ∷ pod_type_non_vpp_container ∷ []

-- No mode, or one of the switch; so too for methods.
abbrev pub memif_modes : List Text
memif_modes = [] ∷ memif_mode_ethernet ∷ memif_mode_ip ∷ memif_mode_punt_inject ∷ []

abbrev pub conn_methods : List Text
conn_methods = [] ∷ conn_method_direct ∷ conn_method_vswitch ∷ []

unfoldable pub check_memif : Text → Option MemifParms → Verdict
check_memif if_name none = valid
check_memif if_name (some p) =
    require (one_of p.mode memif_modes) (invalid_memif_mode if_name p.mode)
    also check_size if_name p.ring_size
    also check_size if_name p.buffer_size
    also check_size if_name p.rx_queues
    also check_size if_name p.tx_queues

unfoldable pub check_tap : Text → Option TapParms → Verdict
check_tap if_name none = valid
check_tap if_name (some p) =
    check_size if_name p.rx_ring_size also check_size if_name p.tx_ring_size

-- The switch on the type of a connection and its checks, up to the checks of the interfaces.
abbrev pub pp_types : List Text
pp_types = conn_type_l2pp ∷ conn_type_l3pp ∷ []

abbrev pub mp_types : List Text
mp_types = conn_type_l2mp ∷ conn_type_l3mp ∷ []

abbrev pub num_interfaces : Connection → ℕ
num_interfaces c = length c.pod_interfaces + length c.node_interfaces

-- The checks of a template, by the parameters of the bridge domain.
unfoldable pub check_template : SystemParameters → Text → Text → Option BdParms → Verdict
check_template sys name template (some parms) =
    require (text_eq template []) (template_and_parms name)
check_template sys name template none =
    if text_eq template []
    then invalid (no_parms name)
    else elim (find_l2bd_template sys template) [
      | none ↦ invalid (no_such_template name template)
      | some parms ↦ valid
    ]

-- The bridge domain of a multi-point connection.
unfoldable pub check_l2bd : SystemParameters → Text → Option L2Bd → Verdict
check_l2bd sys use_node_l2bd none = valid
check_l2bd sys use_node_l2bd (some bd) =
    require (text_eq use_node_l2bd []) node_bd_and_l2bd
    also check_template sys bd.name bd.l2bd_template bd.bd_parms

unfoldable pub check_conn_type : SystemParameters → Connection → Verdict
check_conn_type sys c =
    if one_of c.conn_type pp_types
    then require (num_interfaces c + length c.node_interface_labels == 2) two_interfaces_only
    else if one_of c.conn_type mp_types
    then (require (not (num_interfaces c == 0)) one_interface_at_least
        also check_l2bd sys c.use_node_l2bd c.l2bd)
    else invalid (invalid_conn_type c.conn_type)

-- The inner loop of findNetworkPodAndInterfaceInList: `none` is a read of nil metadata.
unfoldable pub find_in_pod :
    Text → Text → Option Text → Text → List Interface → Option (Option (Interface × Text))
find_in_pod pod_name if_name metadata pod_type [] = some none
find_in_pod pod_name if_name none pod_type (i ∷ rest) = none
find_in_pod pod_name if_name (some name) pod_type (i ∷ rest) =
    if text_eq name pod_name && text_eq i.name if_name
    then some (some (i, pod_type))
    else find_in_pod pod_name if_name (some name) pod_type rest

-- The later result if the earlier search found nothing.
unfoldable pub first_found :
    {A : Type 0} → Option (Option A) → Option (Option A) → Option (Option A)
first_found none later = none
first_found (some none) later = later
first_found (some (some x)) later = some (some x)

-- `none` is a read through nil; `some none`, that the interface is not there.
unfoldable pub find_network_pod_and_interface_in_list :
    Text → Text → List NetworkPod → Option (Option (Interface × Text))
unfolding find_in_pod first_found
find_network_pod_and_interface_in_list pod_name if_name [] = some none
find_network_pod_and_interface_in_list pod_name if_name (pod ∷ rest) =
    let later = find_network_pod_and_interface_in_list pod_name if_name rest in
    elim pod.spec [
      | none ↦ none
      | some spec ↦
          first_found (find_in_pod pod_name if_name pod.metadata spec.pod_type spec.interfaces)
            later
    ]

-- Reading the pointer that the search returns.
unfoldable pub found_verdict : Text → Option (Option (Interface × Text)) → Verdict
found_verdict name none = panic
found_verdict name (some none) = invalid (interface_not_found name)
found_verdict name (some (some found)) = valid

unfoldable pub check_pod_interface : List NetworkPod → Text → Verdict
check_pod_interface pods name =
    let (pod, interface) = conn_pod_interface_names name in
    require (not (text_eq pod [] || text_eq interface [])) (not_pod_interface name)
    also found_verdict name (
        find_network_pod_and_interface_in_list (conn_pod_name name) (conn_interface_name name) pods)

unfoldable pub check_connection : SystemParameters → List NetworkPod → Connection → Verdict
check_connection sys pods c =
    check_conn_type sys c
    also check_each (check_pod_interface pods) c.pod_interfaces
    also require (one_of c.conn_method conn_methods) (invalid_conn_method c.conn_method)

-- `parses` tells whether net.ParseCIDR takes a text for an address with a prefix.
module _ (parses : Text → Bool) where
  abbrev pub check_address : Text → Text → Verdict
  check_address if_name address = require (parses address) (invalid_address if_name address)

  unfoldable pub check_interface : Interface → Verdict
  check_interface i =
      require (one_of i.if_type if_types) (invalid_if_type i.name i.if_type)
      also check_each (check_address i.name) i.ip_addresses
      also check_memif i.name i.memif_parms
      also check_tap i.name i.tap_parms

  -- The fields Metadata.Name and Spec of a pod.
  unfoldable pub check_pod : Option Text → Option NetworkPodSpec → Verdict
  check_pod none spec = invalid pod_missing_name
  check_pod (some name) none =
      require (not (text_eq name [])) pod_missing_name also invalid (pod_missing_spec name)
  check_pod (some name) (some spec) =
      require (not (text_eq name [])) pod_missing_name
      also require (one_of spec.pod_type pod_types) (invalid_pod_type name spec.pod_type)
      also require (not (length spec.interfaces == 0)) (no_interfaces name)
      also check_each check_interface spec.interfaces

  unfoldable pub validate_network_pod : NetworkPod → Verdict
  validate_network_pod pod = check_pod pod.metadata pod.spec

  -- validate, for the fields Metadata.Name and Spec of the service.
  unfoldable pub validate : SystemParameters → Option Text → Option NetworkServiceSpec → Verdict
  validate sys none spec = invalid missing_name
  validate sys (some name) none = require (not (text_eq name [])) missing_name also panic
  validate sys (some name) (some spec) =
      require (not (text_eq name [])) missing_name
      also check_each validate_network_pod spec.network_pods
      also check_each (check_connection sys spec.network_pods) spec.connections
