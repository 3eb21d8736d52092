-- ===== src/Services/Pairs.antt =====
-- plugins/controller/networkservice_if.go: the interfaces of a connection, in the pod and in the
-- switch of its node.
pub mod Sockets
pub mod Ends
use sfc_controller.Common.{
  ℕ, Text, codes, Bool, true, false, Option, none, some, List, [], ◌∷◌, ◌++◌, ◌==◌, text_eq,
  if◌then◌else◌,
}
use sfc_controller.Common.Decimals.{decimal}
use sfc_controller.Common.Maps.{Map}
use sfc_controller.Model.{
  SystemParameters, Interface, InterfaceStatus, Connection, L3VrfRoute, L3ArpEntry, TapParms,
  pod_type_vpp_container, if_type_memif, if_type_veth, if_type_tap, if_type_ethernet,
}
use sfc_controller.Messages.{VppInterface, VppAgentApi, messages}
use sfc_controller.Entry.{Kv}
use sfc_controller.Datastore.{Broker}
use sfc_controller.Txn.{Txn, add_vpp_entry}
use sfc_controller.Ids.{allocate_memif}
use sfc_controller.Ipam.{Ip}
use sfc_controller.Pools.{Error, ok, err}
use sfc_controller.SysParms.{resolve_mtu, resolve_rx_mode}
use sfc_controller.Interfaces.{
  StatusStore, Ram, init_interface_status, persist_interface_status, remove_interface_status,
}
use sfc_controller.Agent.Interfaces.{
  construct_mem_interface, construct_tap_interface, construct_linux_tap_interface,
  construct_v_eth_interface, construct_af_packet_interface,
}
use sfc_controller.Agent.Network.{construct_static_route, construct_static_arp_entry}
use sfc_controller.Services.HostName.{construct_base_host_name}
use sfc_controller.Services.Crud.{NetworkServiceStatus}

-- "IF_..._" + pod + "_" + interface
abbrev pub if_name : Text → Interface → Text
if_name kind i = kind ++ i.parent ++ b'_' ∷ i.name

-- The label of the configuration, or one made of the names.
unfoldable pub host_port_label_of : Interface → Text
host_port_label_of i =
    if text_eq i.host_port_label []
    then construct_base_host_name i.parent i.name
    else i.host_port_label

unfoldable pub host_name_space_of : Interface → Text
host_name_space_of i = elim i.tap_parms [ none ↦ [] | some p ↦ p.namespace ]

module _ ⦃Api : VppAgentApi⦄ where
  -- vppKV.IFace.Vrf = ...
  unfoldable pub set_vrf : ℕ → Kv → Kv
  set_vrf vrf kv = elim kv.iface [
    | none ↦ kv
    | some i ↦ record kv { iface = some (record i { vrf = vrf }) }
  ]

  -- The two ends of a pair of memifs.
  module _ (sys : SystemParameters) where
    -- A memif of a pod, with the id, the role and the agent that its socket is named for.
    unfoldable pub pod_memif : Interface → InterfaceStatus → ℕ → Bool → Text → Kv
    pod_memif i st memif_id is_master master_vpp_agent =
        construct_mem_interface i.parent i.name st.ip_addresses st.mac_address
          (resolve_mtu sys i.mtu) i.admin_status (resolve_rx_mode sys i.rx_mode) memif_id is_master
          i.memif_parms sys.memif_directory master_vpp_agent

    unfoldable pub vswitch_memif : Text → Connection → Interface → ℕ → Kv
    unfolding set_vrf
    vswitch_memif vpp_agent conn i memif_id = set_vrf conn.vrf_id (
        construct_mem_interface vpp_agent (if_name (codes "IF_MEMIF_VSWITCH_") i) [] []
          (resolve_mtu sys i.mtu) i.admin_status (resolve_rx_mode sys i.rx_mode) memif_id true
          i.memif_parms sys.memif_directory vpp_agent)

module _ ⦃Api : VppAgentApi⦄ ⦃B : Broker⦄ ⦃S : StatusStore⦄ where
  -- The status of the service, the cache and the transaction.
  pub record Work : Type 0 where
    pub status : NetworkServiceStatus
    pub ram : Ram
    pub txn : Txn

  -- A panic; or the work so far with a result, where `none` is an error.
  abbrev pub Render : Type 0 → Type 0
  Render A = Option (Work × Option A)

  infixl 10 ◌>=>◌
  unfoldable pub ◌>=>◌ : {A C : Type 0} → Render A → (Work → A → Render C) → Render C
  none >=> next = none
  some (w, none) >=> next = some (w, none)
  some (w, some a) >=> next = next w a

  -- RenderTxnAddVppEntryToTxn
  unfoldable pub add_entry : Kv → Work → Render (Unit {0})
  add_entry kv w = elim (add_vpp_entry w.status.rendered_vpp_agent_entries kv w.txn) [
    | none ↦ none
    | some (rendered, txn) ↦ some (
      record w { status = record w.status { rendered_vpp_agent_entries = rendered }; txn = txn },
      some tt,
    )
  ]

  unfoldable pub persist : Interface → InterfaceStatus → Work → Work
  persist i st w =
      let (interfaces, ram) =
        persist_interface_status i.parent i.name st w.status.interfaces w.ram in
      record w { status = record w.status { interfaces = interfaces }; ram = ram }

  -- An id is allocated if the interface has none.
  unfoldable pub settle_memif : InterfaceStatus → Work → Work × InterfaceStatus
  settle_memif st w =
      let (allocator, id) = allocate_memif w.ram.memif_id_allocator in
      if st.memif_id == 0
      then (
        record w { ram = record w.ram { memif_id_allocator = allocator } },
        record st { memif_id = id },
      )
      else (w, st)

  -- `parse_ip` is net.ParseIP, `fuel` is for the allocation of addresses, `error_text` are the texts
  -- of the errors, `ns_name` is the name of the service.
  module _ (parse_ip : Text → Option Ip) (fuel : ℕ) (error_text : Error → Text)
      (sys : SystemParameters) (ns_name : Text) where
    -- InitInterfaceStatus, with what is done at an error.
    unfoldable pub init_status : Text → Interface → Work → Render InterfaceStatus
    init_status vpp_agent i w =
        elim (init_interface_status parse_ip fuel ns_name vpp_agent i w.ram) [
          | none ↦ none
          | some (ram, ok st) ↦ some (record w { ram = ram }, some st)
          | some (ram, err e) ↦
              let (interfaces, ram') =
                remove_interface_status i.parent i.name w.status.interfaces ram in
              let text =
                codes "network pod interface: "
                ++ i.parent
                ++ b'/' ∷ i.name
                ++ codes ", "
                ++ error_text e in
              some (
                record w {
                  status = record w.status {
                    interfaces = interfaces;
                    msg = w.status.msg ++ text ∷ [];
                  };
                  ram = ram';
                },
                none,
              )
        ]

    unfoldable pub render_conn_memif_pair :
        Text → Connection → Interface → Text → Work → Render (Text × InterfaceStatus)
    unfolding ◌>=>◌ init_status settle_memif persist pod_memif vswitch_memif add_entry
    render_conn_memif_pair vpp_agent conn i pod_type w = init_status vpp_agent i w >=> λ w1 st1.
        let (w2, st) = settle_memif st1 w1 in
        (add_entry (pod_memif sys i st st.memif_id false vpp_agent) (persist i st w2) >=> λ w3 u.
        (add_entry (vswitch_memif sys vpp_agent conn i st.memif_id) w3 >=> λ w4 u.
        some (w4, some (if_name (codes "IF_MEMIF_VSWITCH_") i, st))))

    abbrev pub route_description : Interface → L3VrfRoute → Text
    route_description i r =
        codes "FWD NS_"
        ++ ns_name
        ++ codes "_IF_"
        ++ i.name
        ++ codes "_VRF_"
        ++ decimal r.vrf_id
        ++ codes "_DST_"
        ++ r.dst_ip_addr

    unfoldable pub render_routes : Interface → List L3VrfRoute → Work → Render (Unit {0})
    render_routes i [] w = some (w, some tt)
    render_routes i (r ∷ rest) w =
        elim (construct_static_route i.parent record {
          vrf_id = r.vrf_id;
          description = route_description i r;
          dst_ip_addr = r.dst_ip_addr;
          next_hop_addr = r.next_hop_addr;
          outgoing_interface = i.name;
          weight = 0;
          preference = 0;
        }) [ none ↦ none | some kv ↦ add_entry kv w >=> λ w1 u. render_routes i rest w1 ]

    unfoldable pub render_arps : Interface → List L3ArpEntry → Work → Render (Unit {0})
    render_arps i [] w = some (w, some tt)
    render_arps i (a ∷ rest) w =
        add_entry
          (construct_static_arp_entry i.parent record {
            ip_address = a.ip_address;
            phys_address = a.phys_address;
            outgoing_interface = i.name;
          })
          w
        >=> λ w1 u. render_arps i rest w1

    unfoldable pub render_interface_forwarding : Interface → Work → Render (Unit {0})
    unfolding render_routes render_arps
    render_interface_forwarding i w = elim i.fwd [
      | none ↦ some (w, some tt)
      | some fwd ↦ render_routes i fwd.l3_vrf_route w >=> λ w1 u. render_arps i fwd.l3_arp w1
    ]

    -- Two memifs of pods, the first the slave and the second the master, with the id of the first.
    unfoldable pub render_conn_direct_inter_pod_memif_pair :
        Interface → Interface → Work → Render (Unit {0})
    unfolding render_interface_forwarding
    render_conn_direct_inter_pod_memif_pair i0 i1 w = init_status i0.parent i0 w >=> λ w1 st.
        let (w2, st0) = settle_memif st w1 in
        (add_entry (pod_memif sys i0 st0 st0.memif_id false i1.parent) (persist i0 st0 w2)
          >=> λ w3 u.
              (render_interface_forwarding i0 w3 >=> λ w4 u.
              (init_status i1.parent i1 w4 >=> λ w5 st'.
              let st1 = record st' { memif_id = st0.memif_id } in
              (add_entry (pod_memif sys i1 st1 st1.memif_id true i1.parent) (persist i1 st1 w5)
                >=> λ w6 u. render_interface_forwarding i1 w6))))
