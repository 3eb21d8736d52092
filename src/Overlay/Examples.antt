-- ===== src/Overlay/Examples.antt =====
-- Tests of the node overlays, and their theorems at a mesh, and at a node with a tunnel address.
use sfc_controller.Common.{
  ℕ, ◌≡◌, refl, ◌<◌, ◌^◌, Text, codes, true, false, Option, none, some, List, [], ◌∷◌, arith,
  text_eq,
}
use sfc_controller.Common.Decimals.{decimal}
use sfc_controller.Common.Sets.{member, add}
use sfc_controller.Common.Maps.{lookup, insert}
use sfc_controller.Model.{
  MeshParms, NetworkNodeOverlaySpec, overlay_type_mesh, overlay_connection_type_vxlan,
}
use sfc_controller.Ipam.{
  PoolAllocator, allocate_ip_address, scan_up, format_ip_address, take_address,
}
use sfc_controller.Pools.{Pool, scope_system, find_allocator, allocator_name}
use sfc_controller.Vni.{new_vni_allocator}
use sfc_controller.Overlay.{Fault, NetworkNodeOverlay, State, check_spec, invalid_vni_range}
use sfc_controller.Overlay.Tunnels.{
  allocate_vxlan_address, address, name_in, allocate_vxlan_address_again, Call, after_calls,
}
use sfc_controller.Overlay.Ranges.{
  Request, create_update, remove, IsMesh, mesh, AllValid, run, run_lem, run-keep,
}

abbrev parms : ℕ → ℕ → MeshParms
parms a b = record {
  vni_range_start = a;
  vni_range_end = b;
  loopback_ipam_pool_name = [];
  create_loopback_interface = false;
  create_loopback_static_routes = false;
  network_node_interface_label = [];
}

abbrev spec : ℕ → ℕ → NetworkNodeOverlaySpec
spec a b = record {
  service_mesh_type = overlay_type_mesh;
  connection_type = overlay_connection_type_vxlan;
  vxlan_hub_and_spoke_parms = none;
  vxlan_mesh_parms = some (parms a b);
}

abbrev overlay : ℕ → ℕ → NetworkNodeOverlay
overlay a b = record { metadata = some (codes "m"); spec = some (spec a b); status = none }

abbrev vxlan_pool : Pool
vxlan_pool = record {
  name = codes "p";
  scope = scope_system;
  network = codes "10.0.0.0/30";
  start_range = 0;
  end_range = 0;
  status = some (some []);
}

abbrev vxlan_allocator : PoolAllocator
vxlan_allocator = record {
  name = codes "/system/p";
  start_range = 1;
  end_range = 2;
  next_in_range = 1;
  total_in_range = 2;
  network = codes "10.0.0.0/30";
  ip_networku32 = 0x0A000000;
  ip_masku32 = 0xFFFFFFFC;
  num_bits_in_mask = 30;
  allocated = [];
}

abbrev empty : State
empty = record {
  overlays = [];
  vni_allocators = [];
  vxlan_addresses = [];
  nodes = [];
  pools = record {
    pools = (codes "p", vxlan_pool) ∷ [];
    allocators = (codes "/system/p", some vxlan_allocator) ∷ [];
  };
}

abbrev text_of : Fault → Text
text_of f = codes "invalid"

-- A mesh, an update whose write fails, a deletion, and the mesh with a new range.
abbrev requests : List Request
requests =
    create_update (overlay 5 7) false
    ∷ create_update (overlay 8 9) true
    ∷ remove (codes "m")
    ∷ create_update (overlay 8 9) false
    ∷ []

bad_range_test : check_spec (codes "m") (spec 7 5) ≡ some (invalid_vni_range (codes "m"))
unfolding check_spec text_eq
bad_range_test = refl

overlay-IsMesh :
    (a b : ℕ) → check_spec (codes "m") (spec a b) ≡ none → b < 2 ^ 32 → IsMesh (overlay a b)
overlay-IsMesh a b e h = mesh (codes "m") (spec a b) (parms a b) none refl e refl h

first-IsMesh : IsMesh (overlay 5 7)
unfolding check_spec text_eq
first-IsMesh = overlay-IsMesh 5 7 refl (omega arith)

second-IsMesh : IsMesh (overlay 8 9)
unfolding check_spec text_eq
second-IsMesh = overlay-IsMesh 8 9 refl (omega arith)

empty-AllValid : AllValid empty
unfolding lookup
empty-AllValid k v e = ground (arith, e)

run_lem_example : (s' : State) × (run text_of requests empty ≡ some s') × AllValid s'
run_lem_example =
    run_lem text_of requests empty (first-IsMesh, (second-IsMesh, (second-IsMesh, tt)))
      empty-AllValid

-- A state with a mesh whose range is 5 to 7.
abbrev with_mesh : State
with_mesh = record empty { vni_allocators = (codes "m", new_vni_allocator 5 7) ∷ [] }

abbrev changes : List Request
changes = create_update (overlay 8 9) false ∷ []

abbrev changed : State
changed = record with_mesh { overlays = (codes "m", overlay 8 9) ∷ [] }

update_test : run text_of changes with_mesh ≡ some changed
unfolding run lookup insert text_eq
update_test = refl

allocator_found : lookup (codes "m") with_mesh.vni_allocators ≡ some (new_vni_allocator 5 7)
unfolding lookup text_eq
allocator_found = refl

run-keep_example : lookup (codes "m") changed.vni_allocators ≡ some (new_vni_allocator 5 7)
run-keep_example =
    run-keep text_of changes with_mesh changed (codes "m") (new_vni_allocator 5 7) allocator_found
      update_test

abbrev no_ip : Text → Option Text
no_ip t = none

-- The node "n" has the first address of the pool.
abbrev tunnelled : State
tunnelled = record empty {
  vxlan_addresses = (codes "n", codes "10.0.0.1/30") ∷ [];
  pools = record empty.pools {
    allocators =
        (codes "/system/p", some (record vxlan_allocator { next_in_range = 2; allocated = 1 ∷ [] }))
        ∷ [];
  };
}

first_request :
    allocate_vxlan_address no_ip 9 (codes "p") (codes "n") [] empty
    ≡ some (tunnelled, address (codes "10.0.0.1/30") 1)
unfolding allocate_vxlan_address lookup insert text_eq find_allocator allocator_name
    allocate_ip_address scan_up member format_ip_address name_in decimal take_address add
first_request = refl

-- Another node gets the other address, and then a third one none.
abbrev later : List Call
later =
    record { fuel = 9; pool_name = codes "p"; node = codes "o"; label = [] }
    ∷ record { fuel = 9; pool_name = codes "p"; node = codes "r"; label = [] }
    ∷ []

abbrev both : State
both = record empty {
  vxlan_addresses = (codes "n", codes "10.0.0.1/30") ∷ (codes "o", codes "10.0.0.2/30") ∷ [];
  pools = record empty.pools {
    allocators =
        (
          codes "/system/p",
          some (record vxlan_allocator { next_in_range = 1; allocated = 2 ∷ 1 ∷ [] }),
        )
        ∷ [];
  };
}

later_calls : after_calls no_ip later tunnelled ≡ some both
unfolding after_calls lookup insert text_eq find_allocator allocator_name allocate_ip_address
    scan_up member format_ip_address name_in decimal take_address add
later_calls = refl

allocate_vxlan_address_again_example :
    allocate_vxlan_address no_ip 0 (codes "q") (codes "n") (codes "l") both
    ≡ some (both, address (codes "10.0.0.1/30") 0)
unfolding text_eq
allocate_vxlan_address_again_example =
    allocate_vxlan_address_again no_ip 9 0 (codes "p") (codes "q") (codes "n") [] (codes "l")
      (codes "10.0.0.1/30") 1 empty tunnelled both later refl refl first_request later_calls
