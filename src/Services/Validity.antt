-- ===== src/Services/Validity.antt =====
-- plugins/controller/networkservice.go, validate: what the accepted services are.
use mathlib.Core.Path.{subst}
use sfc_controller.Common.{
  ℕ, ◌+◌, ◌≡◌, ◌≢◌, ◌↔◌, ◌⊎◌, inl, inr, refl, Text, Bool, true, false, not, Option, none, some,
  List, [], ◌==◌, arith, All, length, text_eq, text_eq_iff, ==_iff, Bool-cases, Option-cases,
}
use sfc_controller.Model.{
  SystemParameters, MemifParms, TapParms, NetworkPod, Connection, L2Bd, BdParms,
}
use sfc_controller.Names.{conn_pod_interface_names}
use sfc_controller.SysParms.{find_l2bd_template}
use sfc_controller.Agent.{atoi, is_negative}
use sfc_controller.Services.{
  valid, one_interface_at_least, require, one_of, memif_modes, conn_methods, pp_types, mp_types,
  is_size, check_size, check_memif, check_tap, num_interfaces, check_template, check_l2bd,
  check_conn_type,
}
use sfc_controller.Services.Verdicts.{◌⨾◌, ◌and◌, also_iff, require_iff, IsOneOf, one_of_iff}
use sfc_controller.Services.Finding.{HasInterface}

-- No text, or that of an integer that is not negative.
abbrev pub IsSize : Text → Type 0
IsSize v = (v ≡ []) ⊎ ((i : Bool × ℕ) × (atoi v ≡ some i) × ((i.0 ≡ false) ⊎ (i.1 ≡ 0)))

abbrev pub MemifOk : Option MemifParms → Type 0
MemifOk none = Unit
MemifOk (some p) =
    IsOneOf p.mode memif_modes
    × (IsSize p.ring_size × (IsSize p.buffer_size × (IsSize p.rx_queues × IsSize p.tx_queues)))

abbrev pub TapOk : Option TapParms → Type 0
TapOk none = Unit
TapOk (some p) = IsSize p.rx_ring_size × IsSize p.tx_ring_size

-- Parameters, or a template of the system.
abbrev pub ParmsOk : SystemParameters → Text → Option BdParms → Type 0
ParmsOk sys template (some parms) = template ≡ []
ParmsOk sys template none = (template ≢ []) × (find_l2bd_template sys template ≢ none)

-- No bridge domain of the connection, or one and none of a node.
abbrev pub L2BdOk : SystemParameters → Text → Option L2Bd → Type 0
L2BdOk sys node_bd none = Unit
L2BdOk sys node_bd (some bd) = (node_bd ≡ []) × ParmsOk sys bd.l2bd_template bd.bd_parms

-- A name pod/interface of an interface of the pods.
abbrev pub PodInterfaceOk : List NetworkPod → Text → Type 0
PodInterfaceOk pods name =
    let (pod, interface) = conn_pod_interface_names name in
    ((pod ≢ []) × (interface ≢ [])) × HasInterface pod interface pods

abbrev pub ConnectionOk : SystemParameters → List NetworkPod → Connection → Type 0
ConnectionOk sys pods c =
    ((IsOneOf c.conn_type pp_types × (num_interfaces c + length c.node_interface_labels ≡ 2))
      ⊎ (IsOneOf c.conn_type mp_types
          × ((num_interfaces c ≢ 0) × L2BdOk sys c.use_node_l2bd c.l2bd)))
    × (All (PodInterfaceOk pods) c.pod_interfaces × IsOneOf c.conn_method conn_methods)

is_size_lem :
    (v : Text)
    → (is_size v ≡ true) ↔ ((i : Bool × ℕ) × (atoi v ≡ some i) × ((i.0 ≡ false) ⊎ (i.1 ≡ 0)))
unfolding is_size is_negative
is_size_lem v = elim (Option-cases (atoi v)) [
  | inl e ↦ (λ h. absurd (ground (arith, h, e)), λ h. absurd (ground (arith, h.1, e)))
  | inr ((minus, n), e) ↦ (
    (λ h. ((minus, n), e, sign minus n (rw (e, is_size) at h))),
    (λ h.
        rw (e, is_size)
          (sign' minus n (
            let same : h.0 ≡ (minus, n) = cc (e, h.1) in
            subst (λ (i : Bool × ℕ). (i.0 ≡ false) ⊎ (i.1 ≡ 0)) same h.2))),
  )
]
  where
    sign : (minus : Bool) (n : ℕ) → not (is_negative (minus, n)) ≡ true → (minus ≡ false) ⊎ (n ≡ 0)
    sign false n h = inl refl
    sign true n h = inr (ground (arith, h))

    sign' : (minus : Bool) (n : ℕ) → (minus ≡ false) ⊎ (n ≡ 0) → not (is_negative (minus, n)) ≡ true
    sign' minus n (inl e) = ground (arith, e)
    sign' minus n (inr e) = ground (arith, e)

pub check_size_iff : (n v : Text) → (check_size n v ≡ valid) ↔ IsSize v
check_size_iff n v = elim (Bool-cases (text_eq v [])) [
  | inl e ↦ (λ h. inl ((text_eq_iff v []).0 e), λ h. rw e refl)
  | inr e ↦ (
    (λ h. inr ((is_size_lem v).0 ((require_iff (is_size v) _).0 (rw e at h)))),
    (λ h. elim h [
      | inl same ↦ absurd (ground (arith, e, (text_eq_iff v []).1 same))
      | inr size ↦ rw (e, (is_size_lem v).1 size) refl
    ]),
  )
]

pub check_memif_iff : (n : Text) (p : Option MemifParms) → (check_memif n p ≡ valid) ↔ MemifOk p
unfolding check_memif
check_memif_iff n none = (λ h. tt, λ h. refl)
check_memif_iff n (some p) =
    also_iff _ _
    ⨾ ((require_iff _ _ ⨾ one_of_iff p.mode memif_modes)
        and (also_iff _ _
            ⨾ (check_size_iff n p.ring_size
                and (also_iff _ _
                    ⨾ (check_size_iff n p.buffer_size
                        and (also_iff _ _
                            ⨾ (check_size_iff n p.rx_queues and check_size_iff n p.tx_queues)))))))

pub check_tap_iff : (n : Text) (p : Option TapParms) → (check_tap n p ≡ valid) ↔ TapOk p
unfolding check_tap
check_tap_iff n none = (λ h. tt, λ h. refl)
check_tap_iff n (some p) =
    also_iff _ _ ⨾ (check_size_iff n p.rx_ring_size and check_size_iff n p.tx_ring_size)

check_template_iff :
    (sys : SystemParameters) (name template : Text) (p : Option BdParms)
    → (check_template sys name template p ≡ valid) ↔ ParmsOk sys template p
unfolding check_template
check_template_iff sys name template (some p) = require_iff _ _ ⨾ text_eq_iff template []
check_template_iff sys name template none = elim (Bool-cases (text_eq template [])) [
  | inl e ↦
      rw e (λ h. absurd (ground (arith, h)), λ h. absurd (h.0 ((text_eq_iff template []).0 e)))
  | inr e ↦
      let t : template ≢ [] = λ same. ground (arith, e, (text_eq_iff template []).1 same) in
      elim (Option-cases (find_l2bd_template sys template)) [
        | inl f ↦ (λ h. absurd (ground (arith, h, e, f)), λ h. absurd (h.1 f))
        | inr (parms, f) ↦ ((λ h. (t, λ g. ground (arith, f, g))), (λ h. ground (arith, e, f)))
      ]
]

check_l2bd_iff :
    (sys : SystemParameters) (node_bd : Text) (bd : Option L2Bd)
    → (check_l2bd sys node_bd bd ≡ valid) ↔ L2BdOk sys node_bd bd
unfolding check_l2bd
check_l2bd_iff sys node_bd none = (λ h. tt, λ h. refl)
check_l2bd_iff sys node_bd (some bd) =
    also_iff _ _
    ⨾ ((require_iff _ _ ⨾ text_eq_iff node_bd [])
        and check_template_iff sys bd.name bd.l2bd_template bd.bd_parms)

disjoint : (t : Text) → one_of t pp_types ≡ true → one_of t mp_types ≡ false
unfolding text_eq
disjoint t h = elim ((one_of_iff t pp_types).0 h) [
  | inl e ↦ rw e refl
  | inr (inl e) ↦ rw e refl
  | inr (inr f) ↦ elim f [ ]
]

pub check_conn_type_iff :
    (sys : SystemParameters) (c : Connection)
    → (check_conn_type sys c ≡ valid) ↔ (
        (IsOneOf c.conn_type pp_types × (num_interfaces c + length c.node_interface_labels ≡ 2))
        ⊎ (IsOneOf c.conn_type mp_types
            × ((num_interfaces c ≢ 0) × L2BdOk sys c.use_node_l2bd c.l2bd)))
unfolding check_conn_type
check_conn_type_iff sys c = elim (Bool-cases (one_of c.conn_type pp_types)) [
  | inl e ↦
      let pp = (one_of_iff c.conn_type pp_types).0 e in
      let two : ((num_interfaces c + length c.node_interface_labels == 2) ≡ true)
          ↔ (num_interfaces c + length c.node_interface_labels ≡ 2) =
        ==_iff _ 2 in
      (
        (λ h. inl (pp, two.0 ((require_iff _ _).0 (rw (check_conn_type, e) at h)))),
        (λ h. elim h [
          | inl (t, n) ↦ rw (check_conn_type, e) ((require_iff _ _).1 (two.1 n))
          | inr (t, n) ↦
              absurd (ground (arith, (one_of_iff c.conn_type mp_types).1 t, disjoint c.conn_type e))
        ]),
      )
  | inr e ↦ elim (Bool-cases (one_of c.conn_type mp_types)) [
    | inr e' ↦ (
      (λ h. absurd (ground (arith, (rw (check_conn_type, e, e') at h)))),
      (λ h. elim h [
        | inl (t, n) ↦ absurd (ground (arith, e, (one_of_iff c.conn_type pp_types).1 t))
        | inr (t, n) ↦ absurd (ground (arith, e', (one_of_iff c.conn_type mp_types).1 t))
      ]),
    )
    | inl e' ↦
        let some_interface : (not (num_interfaces c == 0) ≡ true) ↔ (num_interfaces c ≢ 0) =
          (λ h z. ground (arith, h, z), λ h. ground (arith, h)) in
        let rest =
          also_iff (require (not (num_interfaces c == 0)) one_interface_at_least)
            (check_l2bd sys c.use_node_l2bd c.l2bd)
          ⨾ ((require_iff _ _ ⨾ some_interface) and check_l2bd_iff sys c.use_node_l2bd c.l2bd) in
        (
          (λ h.
              inr (
                (one_of_iff c.conn_type mp_types).0 e',
                rest.0 (rw (check_conn_type, e, e') at h),
              )),
          (λ h. elim h [
            | inl (t, n) ↦ absurd (ground (arith, e, (one_of_iff c.conn_type pp_types).1 t))
            | inr (t, n) ↦ rw (check_conn_type, e, e') (rest.1 n)
          ]),
        )
  ]
]
