-- ===== src/Services/Acceptance.antt =====
-- plugins/controller/networkservice.go, validate: exactly the valid services pass, and none panics
-- that has a specification.
use sfc_controller.Common.{
  ◌≡◌, ◌≢◌, ◌↔◌, inl, inr, refl, Text, Bool, true, not, Option, none, some, List, [], ◌∷◌, ◌==◌,
  arith, All, length, Bool-cases,
}
use sfc_controller.Model.{
  SystemParameters, Interface, MemifParms, TapParms, NetworkPod, NetworkPodSpec, Connection, L2Bd,
  BdParms, NetworkServiceSpec,
}
use sfc_controller.Services.{
  valid, check_each, one_of, if_types, pod_types, conn_methods, pp_types, mp_types, check_memif,
  check_tap, check_address, check_interface, check_pod, validate_network_pod, check_template,
  check_l2bd, check_conn_type, check_pod_interface, check_connection, validate,
}
use sfc_controller.Services.Verdicts.{
  ◌⨾◌, ◌and◌, All-iff, also_iff, require_iff, check_each_iff, IsOneOf, one_of_iff, not_empty_iff,
  NoPanic, also-NoPanic, require-NoPanic, check_each-NoPanic,
}
use sfc_controller.Services.Finding.{IsFilled, check_pod_interface_iff}
use sfc_controller.Services.Validity.{
  MemifOk, TapOk, ConnectionOk, check_memif_iff, check_tap_iff, check_conn_type_iff,
}

module _ (parses : Text → Bool) where
  abbrev pub InterfaceOk : Interface → Type 0
  InterfaceOk i =
      IsOneOf i.if_type if_types
      × (All (λ a. parses a ≡ true) i.ip_addresses × (MemifOk i.memif_parms × TapOk i.tap_parms))

  abbrev pub FilledOk : Option Text → Option NetworkPodSpec → Type 0
  FilledOk none spec = ⊥
  FilledOk (some name) none = ⊥
  FilledOk (some name) (some spec) =
      (name ≢ [])
      × (IsOneOf spec.pod_type pod_types
          × ((length spec.interfaces ≢ 0) × All InterfaceOk spec.interfaces))

  abbrev pub PodOk : NetworkPod → Type 0
  PodOk pod = FilledOk pod.metadata pod.spec

  -- A service with a name, whose pods are valid, and whose connections are valid for these pods.
  abbrev pub ServiceOk : SystemParameters → Option Text → Option NetworkServiceSpec → Type 0
  ServiceOk sys none spec = ⊥
  ServiceOk sys (some name) none = ⊥
  ServiceOk sys (some name) (some spec) =
      (name ≢ [])
      × (All PodOk spec.network_pods × All (ConnectionOk sys spec.network_pods) spec.connections)

  check_interface_iff : (i : Interface) → (check_interface parses i ≡ valid) ↔ InterfaceOk i
  unfolding check_interface
  check_interface_iff i =
      also_iff _ _
      ⨾ ((require_iff _ _ ⨾ one_of_iff i.if_type if_types)
          and (also_iff _ _
              ⨾ ((check_each_iff (check_address parses i.name) i.ip_addresses
                    ⨾ All-iff i.ip_addresses (λ a. require_iff (parses a) _))
                  and (also_iff _ _
                      ⨾ (check_memif_iff i.name i.memif_parms
                          and check_tap_iff i.name i.tap_parms)))))

  check_pod_iff :
      (metadata : Option Text) (spec : Option NetworkPodSpec)
      → (check_pod parses metadata spec ≡ valid) ↔ FilledOk metadata spec
  unfolding check_pod
  check_pod_iff none spec = (λ h. absurd (ground (arith, h)), λ h. elim h [ ])
  check_pod_iff (some name) none =
      (λ h. absurd (ground (arith, ((also_iff _ _).0 h).1)), λ h. elim h [ ])
  check_pod_iff (some name) (some spec) =
      let some_interface : (not (length spec.interfaces == 0) ≡ true)
          ↔ (length spec.interfaces ≢ 0) =
        (λ h z. ground (arith, h, z), λ h. ground (arith, h)) in
      also_iff _ _
      ⨾ ((require_iff _ _ ⨾ not_empty_iff name)
          and (also_iff _ _
              ⨾ ((require_iff _ _ ⨾ one_of_iff spec.pod_type pod_types)
                  and (also_iff _ _
                      ⨾ ((require_iff _ _ ⨾ some_interface)
                          and (check_each_iff (check_interface parses) spec.interfaces
                              ⨾ All-iff spec.interfaces check_interface_iff))))))

  validate_network_pod_iff : (p : NetworkPod) → (validate_network_pod parses p ≡ valid) ↔ PodOk p
  unfolding validate_network_pod
  validate_network_pod_iff p = check_pod_iff p.metadata p.spec

  FilledOk-IsFilled :
      (metadata : Option Text) (spec : Option NetworkPodSpec)
      → FilledOk metadata spec
      → (n : Text) × (metadata ≡ some n) × (s : NetworkPodSpec) × (spec ≡ some s)
  FilledOk-IsFilled none spec h = elim h [ ]
  FilledOk-IsFilled (some n) none h = elim h [ ]
  FilledOk-IsFilled (some n) (some s) h = (n, refl, s, refl)

  PodOk-IsFilled : (pods : List NetworkPod) → All PodOk pods → All IsFilled pods
  PodOk-IsFilled [] h = tt
  PodOk-IsFilled (p ∷ rest) h = (FilledOk-IsFilled p.metadata p.spec h.0, PodOk-IsFilled rest h.1)

  check_connection_iff :
      (sys : SystemParameters) (pods : List NetworkPod) (c : Connection)
      → All IsFilled pods
      → (check_connection sys pods c ≡ valid) ↔ ConnectionOk sys pods c
  unfolding check_connection
  check_connection_iff sys pods c h =
      also_iff _ _
      ⨾ (check_conn_type_iff sys c
          and (also_iff _ _
              ⨾ ((check_each_iff (check_pod_interface pods) c.pod_interfaces
                    ⨾ All-iff c.pod_interfaces (λ n. (check_pod_interface_iff pods n h).0))
                  and (require_iff _ _ ⨾ one_of_iff c.conn_method conn_methods))))

  validate_iff :
      (sys : SystemParameters) (metadata : Option Text) (spec : Option NetworkServiceSpec)
      → (validate parses sys metadata spec ≡ valid) ↔ ServiceOk sys metadata spec
  unfolding validate
  validate_iff sys none spec = (λ h. absurd (ground (arith, h)), λ h. elim h [ ])
  validate_iff sys (some name) none =
      (λ h. absurd (ground (arith, ((also_iff _ _).0 h).1)), λ h. elim h [ ])
  validate_iff sys (some name) (some spec) =
      let pods : (check_each (validate_network_pod parses) spec.network_pods ≡ valid)
          ↔ All PodOk spec.network_pods =
        check_each_iff (validate_network_pod parses) spec.network_pods
        ⨾ All-iff spec.network_pods validate_network_pod_iff in
      let conns = λ (ok : All PodOk spec.network_pods).
        check_each_iff (check_connection sys spec.network_pods) spec.connections
        ⨾ All-iff spec.connections (λ c.
          check_connection_iff sys spec.network_pods c (PodOk-IsFilled spec.network_pods ok)) in
      also_iff _ _
      ⨾ ((require_iff _ _ ⨾ not_empty_iff name)
          and (also_iff _ _ ⨾ (
            (λ h. let ok = pods.0 h.0 in (ok, (conns ok).0 h.1)),
            (λ h. (pods.1 h.0, (conns h.0).1 h.1)),
          )))

  memif-NoPanic : (n : Text) (p : Option MemifParms) → NoPanic (check_memif n p)
  unfolding check_memif
  memif-NoPanic n none = λ e. cc
  memif-NoPanic n (some p) = also-NoPanic _ _ (require-NoPanic _ _) (λ _.
      also-NoPanic _ _ (require-NoPanic _ _) (λ _.
        also-NoPanic _ _ (require-NoPanic _ _)
          (λ _. also-NoPanic _ _ (require-NoPanic _ _) (λ _. require-NoPanic _ _))))

  tap-NoPanic : (n : Text) (p : Option TapParms) → NoPanic (check_tap n p)
  unfolding check_tap
  tap-NoPanic n none = λ e. cc
  tap-NoPanic n (some p) = also-NoPanic _ _ (require-NoPanic _ _) (λ _. require-NoPanic _ _)

  interface-NoPanic : (i : Interface) → NoPanic (check_interface parses i)
  unfolding check_interface
  interface-NoPanic i = also-NoPanic _ _ (require-NoPanic _ _) (λ _.
      also-NoPanic _ _
        (check_each-NoPanic (check_address parses i.name) i.ip_addresses (λ a. require-NoPanic _ _))
        (λ _.
          also-NoPanic _ _ (memif-NoPanic i.name i.memif_parms)
            (λ _. tap-NoPanic i.name i.tap_parms)))

  pod-NoPanic :
      (metadata : Option Text) (spec : Option NetworkPodSpec)
      → NoPanic (check_pod parses metadata spec)
  unfolding check_pod
  pod-NoPanic none spec = λ e. cc
  pod-NoPanic (some name) none = also-NoPanic _ _ (require-NoPanic _ _) (λ _ e. cc)
  pod-NoPanic (some name) (some spec) = also-NoPanic _ _ (require-NoPanic _ _) (λ _.
      also-NoPanic _ _ (require-NoPanic _ _) (λ _.
        also-NoPanic _ _ (require-NoPanic _ _)
          (λ _. check_each-NoPanic (check_interface parses) spec.interfaces interface-NoPanic)))

  template-NoPanic :
      (sys : SystemParameters) (name template : Text) (p : Option BdParms)
      → NoPanic (check_template sys name template p)
  unfolding check_template
  template-NoPanic sys name template (some p) = require-NoPanic _ _
  template-NoPanic sys name template none = λ e. ground (arith, e)

  l2bd-NoPanic :
      (sys : SystemParameters) (node_bd : Text) (bd : Option L2Bd)
      → NoPanic (check_l2bd sys node_bd bd)
  unfolding check_l2bd
  l2bd-NoPanic sys node_bd none = λ e. cc
  l2bd-NoPanic sys node_bd (some bd) =
      also-NoPanic _ _ (require-NoPanic _ _)
        (λ _. template-NoPanic sys bd.name bd.l2bd_template bd.bd_parms)

  conn_type-NoPanic : (sys : SystemParameters) (c : Connection) → NoPanic (check_conn_type sys c)
  unfolding check_conn_type
  conn_type-NoPanic sys c = elim (Bool-cases (one_of c.conn_type pp_types)) [
    | inl e ↦ rw (check_conn_type, e) (require-NoPanic _ _)
    | inr e ↦ elim (Bool-cases (one_of c.conn_type mp_types)) [
      | inl e' ↦
          rw (check_conn_type, e, e')
            (also-NoPanic _ _ (require-NoPanic _ _) (λ _. l2bd-NoPanic sys c.use_node_l2bd c.l2bd))
      | inr e' ↦ rw (check_conn_type, e, e') (λ h. ground (arith, h))
    ]
  ]

  connection-NoPanic :
      (sys : SystemParameters) (pods : List NetworkPod) (c : Connection)
      → All IsFilled pods
      → NoPanic (check_connection sys pods c)
  unfolding check_connection
  connection-NoPanic sys pods c h = also-NoPanic _ _ (conn_type-NoPanic sys c) (λ _.
      also-NoPanic _ _
        (check_each-NoPanic (check_pod_interface pods) c.pod_interfaces
          (λ n. (check_pod_interface_iff pods n h).1))
        (λ _. require-NoPanic _ _))

  validate-NoPanic :
      (sys : SystemParameters) (metadata : Option Text) (spec : Option NetworkServiceSpec)
      → spec ≢ none
      → NoPanic (validate parses sys metadata spec)
  unfolding validate
  validate-NoPanic sys none spec h = λ e. cc
  validate-NoPanic sys (some name) none h = absurd (h refl)
  validate-NoPanic sys (some name) (some spec) h = also-NoPanic _ _ (require-NoPanic _ _) (λ _.
      also-NoPanic _ _
        (check_each-NoPanic (validate_network_pod parses) spec.network_pods
          (λ p. unfold validate_network_pod in pod-NoPanic p.metadata p.spec))
        (λ e.
          let pods =
            (check_each_iff (validate_network_pod parses) spec.network_pods
                ⨾ All-iff spec.network_pods validate_network_pod_iff).0
              e in
          let filled = PodOk-IsFilled spec.network_pods pods in
          check_each-NoPanic (check_connection sys spec.network_pods) spec.connections
            (λ c. connection-NoPanic sys spec.network_pods c filled)))

  -- validate accepts exactly the services that have a name, valid pods and valid connections for
  -- these pods, and it does not panic on a service with a specification, whatever pointers of its pods
  -- are nil. A valid pod has a name, a known type, and interfaces, all of a known type with addresses
  -- that parse, and with a known memif mode and sizes that are numbers, where they are given. A valid
  -- connection has a known type and method and its number of interfaces, a bridge domain from a
  -- template of the system or from parameters, if one is given, and interfaces that the pods have.
  pub validate_lem :
      (sys : SystemParameters) (metadata : Option Text) (spec : Option NetworkServiceSpec)
      → ((validate parses sys metadata spec ≡ valid) ↔ ServiceOk sys metadata spec)
        × (spec ≢ none → NoPanic (validate parses sys metadata spec))
  validate_lem sys metadata spec =
      (validate_iff sys metadata spec, validate-NoPanic sys metadata spec)
