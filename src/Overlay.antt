-- ===== src/Overlay.antt =====
-- plugins/controller/networknodeoverlay.go: node overlays with their allocators of VXLAN ids, and
-- the addresses of VXLAN tunnels; the lookups of plugins/controller/networknode.go that these use.
-- `none` is a run-time panic. The rendering of meshes and of hubs and spokes is not here.
pub mod Tunnels
pub mod Ranges
mod Examples
use mathlib.Core.Option
use sfc_controller.Common.{
  ℕ, Text, Bool, not, ◌||◌, Option, none, some, List, [], ◌∷◌, ◌++◌, ltb, ◌==◌, length, text_eq,
  if◌then◌else◌,
}
use sfc_controller.Common.Maps.{Map, lookup, insert, erase}
use sfc_controller.Model.{
  NetworkNodeOverlaySpec, MeshParms, HubAndSpokeParms, Interface, overlay_type_mesh,
  overlay_type_hub_and_spoke, overlay_connection_type_vxlan, if_type_vxlan_tunnel, if_type_ethernet,
}
use sfc_controller.Vni.{VniAllocator, new_vni_allocator}
use sfc_controller.Ipam
use sfc_controller.Ipam.{allocate_ip_address, PoolAllocator}
use sfc_controller.Pools
use sfc_controller.Pools.{Pools, Pool, allocator_name, find_allocator, change}

-- The errors, with the name of the overlay and the words that they name.
pub data Fault : Type 0 where
  unknown_mesh_type : Text → Text → Fault
  no_mesh_parms : Text → Fault
  invalid_vni_range : Text → Fault
  no_hub_parms : Text → Fault
  invalid_vni : Text → Fault
  unsupported_mesh_type : Text → Text → Text → Fault
  unknown_connection_type : Text → Text → Fault

abbrev pub bad_range : MeshParms → Bool
bad_range p =
    ltb p.vni_range_end p.vni_range_start || p.vni_range_start == 0 || p.vni_range_end == 0

unfoldable pub check_mesh : Text → Option MeshParms → Option Fault
check_mesh name none = some (no_mesh_parms name)
check_mesh name (some p) = if bad_range p then some (invalid_vni_range name) else none

unfoldable pub check_hub : Text → Option HubAndSpokeParms → Option Fault
check_hub name none = some (no_hub_parms name)
check_hub name (some p) = if p.vni == 0 then some (invalid_vni name) else none

-- The checks of validate, at the name of the overlay.
unfoldable pub check_spec : Text → NetworkNodeOverlaySpec → Option Fault
unfolding check_mesh check_hub
check_spec name s =
    let is_mesh = text_eq s.service_mesh_type overlay_type_mesh in
    let is_hub = text_eq s.service_mesh_type overlay_type_hub_and_spoke in
    if not (is_mesh || is_hub)
    then some (unknown_mesh_type name s.service_mesh_type)
    else if text_eq s.connection_type overlay_connection_type_vxlan
    then if is_mesh
      then check_mesh name s.vxlan_mesh_parms
      else if is_hub
      then check_hub name s.vxlan_hub_and_spoke_parms
      else some (unsupported_mesh_type name s.service_mesh_type s.connection_type)
    else some (unknown_connection_type name s.connection_type)

pub record NetworkNodeOverlay : Type 0 where
  pub metadata : Option Text
  pub spec : Option NetworkNodeOverlaySpec
  pub status : Option (List Text)

-- AppendStatusMsg makes a new status.
unfoldable pub append_status_msg : Text → NetworkNodeOverlay → NetworkNodeOverlay
append_status_msg msg nno = record nno { status = some ([] ++ msg ∷ []) }

-- The part of a network node that the lookups read: nil, or the interfaces of its Spec.
pub record NetworkNode : Type 0 where
  pub interfaces : Option (List Interface)

-- NetworkNodeOverlayMgr, with the cache of nodes and the pools.
pub record State : Type 0 where
  pub overlays : Map NetworkNodeOverlay
  pub vni_allocators : Map VniAllocator
  pub vxlan_addresses : Map Text
  pub nodes : Map NetworkNode
  pub pools : Pools

unfoldable pub handle_crud_operation_d : Text → State → State
handle_crud_operation_d name s = elim (lookup name s.overlays) [
  | none ↦ s
  | some nno ↦ record s { overlays = erase name s.overlays }
]

-- The allocator of a new name; a name that has one keeps it.
unfoldable pub add_allocator : Text → Option MeshParms → Map VniAllocator → Map VniAllocator
add_allocator name none allocators = allocators
add_allocator name (some p) allocators = elim (lookup name allocators) [
  | some v ↦ allocators
  | none ↦ insert name (new_vni_allocator p.vni_range_start p.vni_range_end) allocators
]

-- `fault_text` are the texts of the errors; `fails` says that the write to the datastore fails.
module _ (fault_text : Fault → Text) (fails : Bool) where
  abbrev pub noted : Option Fault → NetworkNodeOverlay → NetworkNodeOverlay
  noted none nno = nno
  noted (some f) nno = append_status_msg (fault_text f) nno

  unfoldable pub stored : Text → NetworkNodeOverlaySpec → State → State
  unfolding append_status_msg check_spec add_allocator
  stored name sp s =
      let nno : NetworkNodeOverlay = record {
        metadata = some name;
        spec = some sp;
        status = none;
      } in
      record s {
        overlays = insert name (noted (check_spec name sp) nno) s.overlays;
        vni_allocators = add_allocator name sp.vxlan_mesh_parms s.vni_allocators;
      }

  -- The result says that there was no error. A nil Metadata or Spec panics.
  unfoldable pub handle_crud_operation_cu : NetworkNodeOverlay → State → Option (State × Bool)
  unfolding stored
  handle_crud_operation_cu nno s = elim nno.spec [
    | none ↦ none
    | some sp ↦ elim nno.metadata [ none ↦ none | some name ↦ some (stored name sp s, not fails) ]
  ]
