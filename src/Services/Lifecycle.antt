-- ===== src/Services/Lifecycle.antt =====
-- plugins/controller/networkservice.go: what create, update and delete do to a network service.
use mathlib.Core.Path.{subst}
use sfc_controller.Common.{
  ◌≡◌, ◌≢◌, ◌⊎◌, inl, inr, refl, ap, ◌∙◌, Text, Bool, Option, none, some, arith, if◌then◌else◌,
  text_eq, text_eq_iff, not,
}
use sfc_controller.Common.Maps.{lookup, insert, lookup-insert}
use sfc_controller.Model.{SystemParameters, NetworkServiceSpec}
use sfc_controller.Entry.{Messages}
use sfc_controller.Datastore.{Broker}
use sfc_controller.Ipam.{Cidr}
use sfc_controller.Interfaces.{StatusStore}
use sfc_controller.Services.{Verdict, Fault, panic, invalid, valid, validate}
use sfc_controller.Services.Acceptance.{ServiceOk, validate_lem}
use sfc_controller.Services.Crud.{
  NetworkService, append_status_msg, State, render_delete, handle_crud_operation_d, checked_by,
  checked, stored, handle_crud_operation_cu,
}

module _ ⦃M : Messages⦄ ⦃B : Broker⦄ ⦃S : StatusStore⦄ where
  module _ (parses : Text → Bool) (parse_cidr : Text → Option Cidr) (fault_text : Fault → Text)
      (sys : SystemParameters) (fails : Bool) where
    checked_by_lem :
        (v : Verdict) (ns : NetworkService)
        → ns.status ≡ none
        → ((v ≡ valid) × (checked_by parses parse_cidr fault_text sys fails v ns ≡ some ns))
          ⊎ ((v ≢ valid) × (checked_by parses parse_cidr fault_text sys fails v ns ≡ none))
    unfolding checked_by append_status_msg
    checked_by_lem panic ns h = inr ((λ e. ground (arith, e)), refl)
    checked_by_lem (invalid fault) ns h = inr ((λ e. ground (arith, e)), ground (arith, h))
    checked_by_lem valid ns h = inl (refl, refl)

    named :
        (metadata : Option Text) (spec : Option NetworkServiceSpec)
        → ServiceOk parses sys metadata spec
        → (name : Text) × (metadata ≡ some name)
    named none spec h = elim h [ ]
    named (some name) spec h = (name, refl)

    stored_services :
        (name : Text) (fresh : NetworkService) (s : State)
        → (stored parses parse_cidr fault_text sys fails name fresh s).services
          ≡ insert name fresh s.services
    unfolding stored
    stored_services name fresh s = ground arith

    stops :
        (ns : NetworkService) (s : State)
        → checked parses parse_cidr fault_text sys fails ns ≡ none
        → handle_crud_operation_cu parses parse_cidr fault_text sys fails ns s ≡ none
    unfolding handle_crud_operation_cu
    stops ns s c = ground (arith, c)

    runs :
        (ns fresh : NetworkService) (s : State) (name : Text)
        → checked parses parse_cidr fault_text sys fails ns ≡ some fresh
        → fresh.metadata ≡ some name
        → handle_crud_operation_cu parses parse_cidr fault_text sys fails ns s
          ≡ some (stored parses parse_cidr fault_text sys fails name fresh s, not fails)
    unfolding handle_crud_operation_cu
    runs ns fresh s name c n = ground (arith, c, n)

    -- HandleCRUDOperationCU returns exactly for a valid service: any other service ends the process,
    -- since the message of its error goes to a status that is nil. A valid service stands in the cache
    -- afterwards, with no status, and the other services as they were.
    pub handle_crud_operation_cu_lem :
        (ns : NetworkService) (s : State)
        → ((handle_crud_operation_cu parses parse_cidr fault_text sys fails ns s ≡ none)
            × ¬ ServiceOk parses sys ns.metadata ns.spec)
          ⊎ (ServiceOk parses sys ns.metadata ns.spec
              × ((name : Text) × (ns.metadata ≡ some name)
                  × (s' : State) × (handle_crud_operation_cu parses parse_cidr fault_text sys fails
                        ns s
                      ≡ some (s', not fails))
                  × ((k : Text)
                      → lookup k s'.services ≡ (
                          if text_eq name k
                          then some (record ns { status = none })
                          else lookup k s.services))))
    handle_crud_operation_cu_lem ns s =
        let fresh : NetworkService = record ns { status = none } in
        let v = validate parses sys ns.metadata ns.spec in
        let ok = (validate_lem parses sys ns.metadata ns.spec).0 in
        elim (checked_by_lem v fresh refl) [
          | inr (bad, e) ↦
              let c : checked parses parse_cidr fault_text sys fails ns ≡ none =
                unfold checked in e in
              inl (stops ns s c, λ h. bad (ok.1 h))
          | inl (good, e) ↦
              let c : checked parses parse_cidr fault_text sys fails ns ≡ some fresh =
                unfold checked in e in
              let (name, n) = named ns.metadata ns.spec (ok.0 good) in
              inr (
                ok.0 good,
                (
                  name,
                  n,
                  stored parses parse_cidr fault_text sys fails name fresh s,
                  runs ns fresh s name c n,
                  (λ k.
                      ap (lookup k) (stored_services name fresh s)
                      ∙ lookup-insert name k fresh s.services),
                ),
              )
        ]

    -- A service that is created or updated, by an operation that returns, and is deleted before it is
    -- rendered, ends the process: the delete reads the map of rendered entries through a nil status.
    pub delete_unrendered :
        (ns : NetworkService) (s s' : State) (name : Text) (no_error : Bool)
        → ns.metadata ≡ some name
        → handle_crud_operation_cu parses parse_cidr fault_text sys fails ns s ≡ some (s', no_error)
        → handle_crud_operation_d name s' ≡ none
    unfolding handle_crud_operation_d render_delete
    delete_unrendered ns s s' name no_error n h = elim (handle_crud_operation_cu_lem ns s) [
      | inl bad ↦ absurd (ground (arith, bad.0, h))
      | inr good ↦
          let (ok, rest) = good in
          let (name', n', s1, run, cache) = rest in
          let same : name' ≡ name = cc (n, n') in
          let state : s1 ≡ s' = cc (run, h) in
          let found : lookup name s'.services ≡ some (record ns { status = none }) =
            subst (λ (z : State). lookup name z.services ≡ some (record ns { status = none })) state
              (cache name ∙ ground (arith, text_eq_iff name' name, same)) in
          ground (arith, found)
    ]
