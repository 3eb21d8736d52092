-- ===== src/Services/Finding.antt =====
-- plugins/controller/networkservice.go, findNetworkPodAndInterfaceInList: it finds what is there.
use mathlib.Core.Path.{subst}
use sfc_controller.Common.{
  ◌≡◌, ◌≢◌, ◌↔◌, ◌⊎◌, inl, inr, refl, ap, ◌∙◌, Text, true, not, ◌||◌, ◌&&◌, Option, none, some,
  List, [], ◌∷◌, arith, All, text_eq, text_eq_iff, Bool-cases, Option-cases,
}
use sfc_controller.Model.{Interface, NetworkPod, NetworkPodSpec}
use sfc_controller.Names.{index_of, conn_pod_name, conn_interface_name, conn_pod_interface_names}
use sfc_controller.Services.{
  valid, find_in_pod, first_found, find_network_pod_and_interface_in_list, found_verdict,
  check_pod_interface,
}
use sfc_controller.Services.Verdicts.{
  ◌⨾◌, ◌and◌, also_iff, require_iff, not_empty_iff, NoPanic, also-NoPanic, require-NoPanic,
}

abbrev pub HasName : Text → List Interface → Type 0
HasName n [] = ⊥
HasName n (i ∷ rest) = (i.name ≡ n) ⊎ HasName n rest

abbrev pub HasInterface : Text → Text → List NetworkPod → Type 0
HasInterface pod interface [] = ⊥
HasInterface pod interface (p ∷ rest) =
    ((p.metadata ≡ some pod)
      × (s : NetworkPodSpec) × (p.spec ≡ some s)
      × HasName interface s.interfaces)
    ⊎ HasInterface pod interface rest

-- Metadata and Spec are there.
abbrev pub IsFilled : NetworkPod → Type 0
IsFilled p = (n : Text) × (p.metadata ≡ some n) × (s : NetworkPodSpec) × (p.spec ≡ some s)

-- Whether a search through filled pods succeeds.
abbrev IsFound : Option (Option (Interface × Text)) → Type 0
IsFound none = ⊥
IsFound (some none) = ⊥
IsFound (some (some f)) = Unit

find_in_pod_iff :
    (pod interface name pod_type : Text) (is : List Interface)
    → (IsFound (find_in_pod pod interface (some name) pod_type is)
        ↔ ((name ≡ pod) × HasName interface is))
      × (find_in_pod pod interface (some name) pod_type is ≢ none)
unfolding find_in_pod
find_in_pod_iff pod interface name pod_type [] = ((λ h. elim h [ ], λ h. h.1), λ e. cc)
find_in_pod_iff pod interface name pod_type (i ∷ rest) =
    elim (Bool-cases (text_eq name pod && text_eq i.name interface)) [
      | inl e ↦
          let p = (text_eq_iff name pod).0 (ground (arith, e)) in
          let n = (text_eq_iff i.name interface).0 (ground (arith, e)) in
          rw e ((λ h. (p, inl n), λ h. tt), λ e'. cc)
      | inr e ↦
          let (found, there) = find_in_pod_iff pod interface name pod_type rest in
          rw e (
            (
              (λ h. let (p, n) = found.0 h in (p, inr n)),
              (λ h. elim h.1 [
                | inl n ↦ absurd (
                    ground
                      (arith, e, (text_eq_iff name pod).1 h.0, (text_eq_iff i.name interface).1 n))
                | inr n ↦ found.1 (h.0, n)
              ]),
            ),
            there,
          )
    ]

first_found_iff :
    (a b : Option (Option (Interface × Text)))
    → a ≢ none
    → b ≢ none
    → (IsFound (first_found a b) ↔ (IsFound a ⊎ IsFound b)) × (first_found a b ≢ none)
unfolding first_found
first_found_iff none b h k = absurd (h refl)
first_found_iff (some none) b h k =
    ((λ f. inr f, λ f. elim f [ inl z ↦ elim z [ ] | inr g ↦ g ]), k)
first_found_iff (some (some x)) b h k = ((λ f. inl f, λ f. tt), λ e. cc)

module _ (pod interface : Text) where
  step :
      (p : NetworkPod) (rest : List NetworkPod) (name : Text) (spec : NetworkPodSpec)
      → p.metadata ≡ some name
      → p.spec ≡ some spec
      → find_network_pod_and_interface_in_list pod interface (p ∷ rest)
        ≡ first_found
            (find_in_pod pod interface (some name) spec.pod_type spec.interfaces)
            (find_network_pod_and_interface_in_list pod interface rest)
  unfolding find_network_pod_and_interface_in_list
  step p rest name spec e e' = ground (arith, e, e')

  -- A search through filled pods does not panic, and finds an interface exactly if there is one.
  pub find_iff :
      (pods : List NetworkPod)
      → All IsFilled pods
      → (IsFound (find_network_pod_and_interface_in_list pod interface pods)
          ↔ HasInterface pod interface pods)
        × (find_network_pod_and_interface_in_list pod interface pods ≢ none)
  find_iff [] h = unfold find_network_pod_and_interface_in_list in ((λ e. e, λ e. e), λ e. cc)
  find_iff (p ∷ rest) h =
      let (name, e, spec, e') = h.0 in
      let (later, later_there) = find_iff rest h.1 in
      let (here, here_there) = find_in_pod_iff pod interface name spec.pod_type spec.interfaces in
      let (both, there) = first_found_iff _ _ here_there later_there in
      rw (step p rest name spec e e') (
        (
          (λ f. elim (both.0 f) [
            | inl x ↦ let (n, i) = here.0 x in inl ((e ∙ ap some n), spec, e', i)
            | inr x ↦ inr (later.0 x)
          ]),
          (λ f. both.1 (elim f [
            | inl x ↦
                let n : name ≡ pod = cc (e, x.0) in
                let same : x.1 ≡ spec = cc (e', x.2) in
                inl (
                  here.1
                    (n, subst (λ (t : NetworkPodSpec). HasName interface t.interfaces) same x.3))
            | inr x ↦ inr (later.1 x)
          ])),
        ),
        there,
      )

names_parts :
    (s : Text)
    → (conn_pod_name s ≡ (conn_pod_interface_names s).0)
      × (conn_interface_name s ≡ (conn_pod_interface_names s).1)
unfolding conn_pod_name conn_interface_name conn_pod_interface_names
names_parts s = elim (Option-cases (index_of b'/' s)) [
  | inl e ↦ (ground (arith, e), ground (arith, e))
  | inr (n, e) ↦ (ground (arith, e), ground (arith, e))
]

found_verdict_iff :
    (name : Text) (r : Option (Option (Interface × Text)))
    → r ≢ none
    → ((found_verdict name r ≡ valid) ↔ IsFound r) × NoPanic (found_verdict name r)
unfolding found_verdict
found_verdict_iff name none h = absurd (h refl)
found_verdict_iff name (some none) h = ((λ e. absurd (ground (arith, e)), λ f. elim f [ ]), λ e. cc)
found_verdict_iff name (some (some f)) h = ((λ e. tt, λ z. refl), λ e. cc)

two_names : (a b : Text) → (not (text_eq a [] || text_eq b []) ≡ true) ↔ ((a ≢ []) × (b ≢ []))
two_names a b = (
  (λ h. (
    (λ e. ground (arith, h, (text_eq_iff a []).1 e)),
    (λ e. ground (arith, h, (text_eq_iff b []).1 e)),
  )),
  (λ h. let p = (not_empty_iff a).1 h.0 in let q = (not_empty_iff b).1 h.1 in ground (arith, p, q)),
)

-- The check of an interface of a connection, for filled pods.
pub check_pod_interface_iff :
    (pods : List NetworkPod) (name : Text)
    → All IsFilled pods
    → let (pod, interface) = conn_pod_interface_names name in
      ((check_pod_interface pods name ≡ valid)
        ↔ (((pod ≢ []) × (interface ≢ [])) × HasInterface pod interface pods))
      × NoPanic (check_pod_interface pods name)
unfolding check_pod_interface
check_pod_interface_iff pods name h =
    let (pod, interface) = conn_pod_interface_names name in
    let result =
      find_network_pod_and_interface_in_list (conn_pod_name name) (conn_interface_name name) pods in
    let (found, there) = find_iff (conn_pod_name name) (conn_interface_name name) pods h in
    let (verdict, no_panic) = found_verdict_iff name result there in
    let parts : HasInterface (conn_pod_name name) (conn_interface_name name) pods
        ↔ HasInterface pod interface pods =
      rw ((names_parts name).0, (names_parts name).1) (λ x. x, λ x. x) in
    (
      also_iff _ _ ⨾ ((require_iff _ _ ⨾ two_names pod interface) and (verdict ⨾ found ⨾ parts)),
      also-NoPanic _ _ (require-NoPanic _ _) (λ e. no_panic),
    )
