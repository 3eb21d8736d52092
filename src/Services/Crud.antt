-- ===== src/Services/Crud.antt =====
-- plugins/controller/networkservice.go: create, update and delete of a network service, and the end
-- of its rendering.
use sfc_controller.Common.{
  Text, codes, Bool, Option, none, some, List, [], ◌∷◌, ◌++◌, if◌then◌else◌, ◌>>=◌, not,
}
use sfc_controller.Common.Maps.{Map, lookup, insert, erase}
use sfc_controller.Model.{SystemParameters, InterfaceStatus, NetworkServiceSpec}
use sfc_controller.Entry.{Messages}
use sfc_controller.Datastore.{Broker}
use sfc_controller.Txn.{Txn, Rendered, delete_rendered, entity_remove_entries}
use sfc_controller.Ipam.{Cidr}
use sfc_controller.Pools.{Pools, entity_create, entity_delete, scope_network_service}
use sfc_controller.Interfaces.{StatusStore, Ram, delete_interface_entries}
use sfc_controller.Services.{Verdict, Fault, panic, invalid, valid, validate}

-- A nil map holds no entries.
pub record NetworkServiceStatus : Type 0 where
  pub oper_status : Text
  pub msg : List Text
  pub rendered_vpp_agent_entries : Map Rendered
  pub interfaces : Map InterfaceStatus

pub record NetworkService : Type 0 where
  pub metadata : Option Text
  pub spec : Option NetworkServiceSpec
  pub status : Option NetworkServiceStatus

-- A nil status panics.
unfoldable pub append_status_msg : Text → NetworkService → Option NetworkService
append_status_msg msg ns = elim ns.status [
  | none ↦ none
  | some st ↦ some (record ns { status = some (record st { msg = st.msg ++ msg ∷ [] }) })
]

module _ ⦃M : Messages⦄ ⦃B : Broker⦄ ⦃S : StatusStore⦄ where
  -- networkServiceCache, the cache of the controller, and the transaction.
  pub record State : Type 0 where
    pub services : Map NetworkService
    pub ram : Ram
    pub txn : Txn

  -- renderDelete; a nil status panics.
  unfoldable pub render_delete : NetworkService → State → Option State
  render_delete ns s = elim ns.status [
    | none ↦ none
    | some st ↦ some (record s {
      txn = delete_rendered st.rendered_vpp_agent_entries s.txn;
      ram = (delete_interface_entries st.interfaces s.ram).1;
    })
  ]

  -- The error is always nil.
  unfoldable pub handle_crud_operation_d : Text → State → Option State
  unfolding render_delete
  handle_crud_operation_d name s = elim (lookup name s.services) [
    | none ↦ some s
    | some ns ↦ render_delete ns s >>= λ (s1 : State).
        (entity_delete name scope_network_service s1.ram.pools >>= λ (p : Pools).
        some (record s1 { services = erase name s1.services; ram = record s1.ram { pools = p } }))
  ]

  -- renderComplete up to the write of the status to the datastore.
  unfoldable pub render_complete : NetworkServiceStatus → Txn → NetworkServiceStatus × Txn
  render_complete st t = elim st.msg [
    | [] ↦ (record st { msg = codes "OK" ∷ []; oper_status = codes "OperUp" }, t)
    | m ∷ rest ↦ (
      record st { rendered_vpp_agent_entries = []; oper_status = codes "OperDown" },
      entity_remove_entries t,
    )
  ]

  -- `parses` is net.ParseCIDR without its result, `parse_cidr` with it; `fault_text` are the texts of
  -- the errors; `fails` says that the write of the service to the datastore fails.
  module _ (parses : Text → Bool) (parse_cidr : Text → Option Cidr) (fault_text : Fault → Text)
      (sys : SystemParameters) (fails : Bool) where
    -- The service with the message of an error.
    unfoldable pub checked_by : Verdict → NetworkService → Option NetworkService
    unfolding append_status_msg
    checked_by panic fresh = none
    checked_by (invalid fault) fresh = append_status_msg (fault_text fault) fresh
    checked_by valid fresh = some fresh

    unfoldable pub checked : NetworkService → Option NetworkService
    unfolding checked_by
    checked ns = checked_by (validate parses sys ns.metadata ns.spec) (record ns { status = none })

    -- The cache takes the service; if the write succeeds, the pools for services get allocators for it.
    unfoldable pub stored : Text → NetworkService → State → State
    stored name fresh s =
        let s1 = record s { services = insert name fresh s.services } in
        if fails then s1 else (record s1 {
          ram = record s1.ram {
            pools = entity_create parse_cidr name scope_network_service s1.ram.pools;
          };
        })

    -- The result says that there was no error.
    unfoldable pub handle_crud_operation_cu : NetworkService → State → Option (State × Bool)
    unfolding checked stored
    handle_crud_operation_cu ns s = checked ns >>= λ (fresh : NetworkService).
        (fresh.metadata >>= λ (name : Text). some (stored name fresh s, not fails))
