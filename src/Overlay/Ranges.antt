-- ===== src/Overlay/Ranges.antt =====
-- The ranges of the allocators that node overlays make, and what becomes of an allocator.
use mathlib.Core.Path.{subst}
use sfc_controller.Common.{
  ◌≡◌, ◌<◌, ◌^◌, refl, not, sym, Option-cases, Text, Bool, false, Bool-cases, inl, inr, arith,
  Option, none, some, List, [], ◌∷◌, text_eq, text_eq_iff,
}
use sfc_controller.Common.Maps.{Map, lookup, lookup-insert}
use sfc_controller.Model.{NetworkNodeOverlaySpec, MeshParms, overlay_type_mesh}
use sfc_controller.Vni.{VniAllocator, new_vni_allocator}
use sfc_controller.Vni.Range.{IsValid, new_vni_allocator_lem}
use sfc_controller.Overlay.{
  Fault, NetworkNodeOverlay, State, check_spec, check_mesh, bad_range, add_allocator,
  handle_crud_operation_cu, handle_crud_operation_d, stored,
}

-- A create or update, whose write to the datastore may fail, or a delete.
pub data Request : Type 0 where
  create_update : NetworkNodeOverlay → Bool → Request
  remove : Text → Request

-- An overlay of the type "mesh" that validate accepts, and whose range is one of uint32.
pub data IsMesh : NetworkNodeOverlay → Type 0 where
  mesh :
      (name : Text) (sp : NetworkNodeOverlaySpec) (p : MeshParms) (st : Option (List Text))
      → sp.service_mesh_type ≡ overlay_type_mesh
      → check_spec name sp ≡ none
      → sp.vxlan_mesh_parms ≡ some p
      → p.vni_range_end < 2 ^ 32
      → IsMesh record { metadata = some name; spec = some sp; status = st }

-- An allocator is found under a name.
abbrev pub AllValid : State → Type 0
AllValid s = (k : Text) (v : VniAllocator) → lookup k s.vni_allocators ≡ some v → IsValid v

abbrev pub AllMeshes : List Request → Type 0
AllMeshes [] = Unit
AllMeshes (create_update nno fails ∷ rs) = IsMesh nno × AllMeshes rs
AllMeshes (remove name ∷ rs) = AllMeshes rs

remove_same :
    (name : Text) (s : State) → (handle_crud_operation_d name s).vni_allocators ≡ s.vni_allocators
unfolding handle_crud_operation_d
remove_same name s = elim (Option-cases (lookup name s.overlays)) [
  | inl e ↦ rw (e, handle_crud_operation_d) refl
  | inr (nno, e) ↦ rw (e, handle_crud_operation_d) refl
]

range_ok :
    (name : Text) (sp : NetworkNodeOverlaySpec) (p : MeshParms)
    → sp.service_mesh_type ≡ overlay_type_mesh
    → check_spec name sp ≡ none
    → sp.vxlan_mesh_parms ≡ some p
    → bad_range p ≡ false
unfolding check_spec check_mesh
range_ok name sp p m c e =
    ground (arith, (text_eq_iff sp.service_mesh_type overlay_type_mesh).1 m, c, e)

new-IsValid :
    (p : MeshParms)
    → bad_range p ≡ false
    → p.vni_range_end < 2 ^ 32
    → IsValid (new_vni_allocator p.vni_range_start p.vni_range_end)
new-IsValid p e hi =
    (new_vni_allocator_lem p.vni_range_start p.vni_range_end (ground (arith, e)) (ground (arith, e))
      hi).0

add_allocator_same :
    (name k : Text) (q : Option MeshParms) (m : Map VniAllocator) (v : VniAllocator)
    → lookup k m ≡ some v
    → lookup k (add_allocator name q m) ≡ some v
unfolding add_allocator
add_allocator_same name k none m v h = h
add_allocator_same name k (some p) m v h =
    let l = lookup-insert name k (new_vni_allocator p.vni_range_start p.vni_range_end) m in
    ground (arith, l, h, text_eq_iff name k)

add_allocator-AllValid :
    (name : Text) (p : MeshParms) (m : Map VniAllocator)
    → IsValid (new_vni_allocator p.vni_range_start p.vni_range_end)
    → ((k : Text) (v : VniAllocator) → lookup k m ≡ some v → IsValid v)
    → (k : Text) (v : VniAllocator) → lookup k (add_allocator name (some p) m) ≡ some v
    → IsValid v
unfolding add_allocator
add_allocator-AllValid name p m new all k v h = elim (Option-cases (lookup name m)) [
  | inl e ↦
      let l = lookup-insert name k (new_vni_allocator p.vni_range_start p.vni_range_end) m in
      elim (Bool-cases (text_eq name k)) [
        | inl c ↦
            let same : new_vni_allocator p.vni_range_start p.vni_range_end ≡ v =
              ground (arith, l, h, c, e) in
            subst (λ w. IsValid w) same new
        | inr c ↦ all k v (ground (arith, l, h, c, e))
      ]
  | inr (w, e) ↦ all k v (ground (arith, h, e))
]

module _ (fault_text : Fault → Text) where
  unfoldable pub run : List Request → State → Option State
  unfolding handle_crud_operation_cu handle_crud_operation_d
  run [] s = some s
  run (create_update nno fails ∷ rs) s = elim (handle_crud_operation_cu fault_text fails nno s) [
    | none ↦ none
    | some (s', ok) ↦ run rs s'
  ]
  run (remove name ∷ rs) s = run rs (handle_crud_operation_d name s)

  -- What a create or update of a mesh comes to, from allocators with valid ranges.
  mesh_stored :
      (nno : NetworkNodeOverlay) (fails : Bool) (s : State)
      → IsMesh nno
      → AllValid s
      → (s' : State) × (handle_crud_operation_cu fault_text fails nno s ≡ some (s', not fails))
        × AllValid s'
  unfolding handle_crud_operation_cu stored
  mesh_stored nno fails s (mesh name sp p st m c e hi) all = (
    stored fault_text fails name sp s,
    refl,
    subst
        (λ q.
          (k : Text) (v : VniAllocator)
          → lookup k (add_allocator name q s.vni_allocators) ≡ some v
          → IsValid v)
        (sym e)
        (add_allocator-AllValid name p s.vni_allocators
          (new-IsValid p (range_ok name sp p m c e) hi) all),
  )

  -- What a create or update keeps.
  update-keep :
      (nno : NetworkNodeOverlay) (fails : Bool) (s s' : State) (ok : Bool) (name : Text)
      (v : VniAllocator)
      → lookup name s.vni_allocators ≡ some v
      → handle_crud_operation_cu fault_text fails nno s ≡ some (s', ok)
      → lookup name s'.vni_allocators ≡ some v
  unfolding handle_crud_operation_cu stored
  update-keep nno fails s s' ok name v h e = elim (Option-cases nno.spec) [
    | inl no_spec ↦ ground (arith, e, no_spec)
    | inr (sp, q) ↦ elim (Option-cases nno.metadata) [
      | inl no_name ↦ ground (arith, e, q, no_name)
      | inr (other, r) ↦
          ground
            (arith, e, q, r, add_allocator_same other name sp.vxlan_mesh_parms s.vni_allocators v h)
    ]
  ]

  -- From allocators with valid ranges, requests that create or update only meshes that validate
  -- accepts, and delete any overlays, never panic, whether the writes to the datastore fail or not,
  -- and leave only allocators with valid ranges.
  pub run_lem :
      (rs : List Request) (s : State)
      → AllMeshes rs
      → AllValid s
      → (s' : State) × (run rs s ≡ some s') × AllValid s'
  unfolding run
  run_lem [] s h all = (s, refl, all)
  run_lem (create_update nno fails ∷ rs) s (one, h) all =
      let (s1, e, all1) = mesh_stored nno fails s one all in
      let (s', e', all') = run_lem rs s1 h all1 in (s', rw (e, run) e', all')
  run_lem (remove name ∷ rs) s h all =
      run_lem rs (handle_crud_operation_d name s) h
        (λ k v e. all k v (subst (λ a. lookup k a ≡ some v) (remove_same name s) e))

  -- No create, update or delete, of any overlay, changes the allocator that an overlay has: it
  -- keeps its range, and its taken ids, when a new range is configured, and when the overlay is
  -- deleted and created anew.
  pub run-keep :
      (rs : List Request) (s s' : State) (name : Text) (v : VniAllocator)
      → lookup name s.vni_allocators ≡ some v
      → run rs s ≡ some s'
      → lookup name s'.vni_allocators ≡ some v
  unfolding run
  run-keep [] s s' name v h e = ground (arith, h, e)
  run-keep (create_update nno fails ∷ rs) s s' name v h e =
      elim (Option-cases (handle_crud_operation_cu fault_text fails nno s)) [
        | inl panics ↦ ground (arith, e, panics)
        | inr ((s1, ok), e1) ↦
            run-keep rs s1 s' name v (update-keep nno fails s s1 ok name v h e1)
              (ground (arith, e, e1))
      ]
  run-keep (remove other ∷ rs) s s' name v h e =
      run-keep rs (handle_crud_operation_d other s) s' name v
        (subst (λ a. lookup name a ≡ some v) (sym (remove_same other s)) h) e
