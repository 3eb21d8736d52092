-- ===== src/Services/Pairs/Ends.antt =====
-- plugins/controller/networkservice_if.go: the two ends of a pair fit, and which name a pair gives to
-- the bridge or the cross connect that it is for.
use mathlib.Core.Path.{subst}
use sfc_controller.Common.{
  ℕ, ◌≡◌, refl, ◌∙◌, sym, ap, Text, true, false, Option, none, some, ◌==◌, arith, if◌then◌else◌,
}
use sfc_controller.Common.Maps.{Map, insert}
use sfc_controller.Model.{SystemParameters, Interface, InterfaceStatus}
use sfc_controller.Messages.{Memif, VppAgentApi, messages}
use sfc_controller.Entry.{Kv}
use sfc_controller.Datastore.{Broker}
use sfc_controller.Txn.{Txn, add_vpp_entry, note_rendered, set_level}
use sfc_controller.Ids.{allocate_memif}
use sfc_controller.Ipam.{Ip}
use sfc_controller.Pools.{Error, ok}
use sfc_controller.Interfaces.{StatusStore, Ram, init_interface_status}
use sfc_controller.Agent.{interface_key}
use sfc_controller.Services.Pairs.Sockets.{directory_of, HasMemif, Fit, direct_ends}
use sfc_controller.Services.Pairs.{
  Work, Render, ◌>=>◌, add_entry, persist, init_status, settle_memif, pod_memif,
  render_interface_forwarding, render_conn_direct_inter_pod_memif_pair,
}

module _ ⦃Api : VppAgentApi⦄ ⦃B : Broker⦄ ⦃S : StatusStore⦄ where
  -- The level of the transaction is open, with these entries.
  abbrev pub IsOpen : Map Kv → Work → Type 0
  IsOpen m w = w.txn.after_map w.txn.txn_level ≡ some m

  -- An entry is added at an open level.
  pub add_entry_lem :
      (kv : Kv) (m : Map Kv) (w : Work)
      → IsOpen m w
      → (w' : Work) × (add_entry kv w ≡ some (w', some tt))
        × IsOpen (insert kv.vpp_key kv m) w'
        × (w'.ram ≡ w.ram)
  unfolding add_entry add_vpp_entry
  add_entry_lem kv m w h = (
    record w {
      status = record w.status {
        rendered_vpp_agent_entries = note_rendered kv m w.status.rendered_vpp_agent_entries;
      };
      txn = record w.txn {
        after_map = set_level w.txn.txn_level (some (insert kv.vpp_key kv m)) w.txn.after_map;
      };
    },
    ground (arith, h),
    ground arith,
    refl,
  )

  -- The next step of a rendering that went well.
  pub next_step :
      {A C : Type 0} (r : Render A) (w : Work) (a : A) (next : Work → A → Render C)
      → r ≡ some (w, some a)
      → (r >=> next) ≡ next w a
  unfolding ◌>=>◌
  next_step r w a next h = rw h refl

  pub init_status_lem :
      (parse_ip : Text → Option Ip) (fuel : ℕ) (error_text : Error → Text) (sys : SystemParameters)
      (ns_name vpp_agent : Text) (i : Interface) (w : Work) (ram : Ram) (st : InterfaceStatus)
      → init_interface_status parse_ip fuel ns_name vpp_agent i w.ram ≡ some (ram, ok st)
      → init_status parse_ip fuel error_text sys ns_name vpp_agent i w
        ≡ some (record w { ram = ram }, some st)
  unfolding init_status
  init_status_lem parse_ip fuel error_text sys ns_name vpp_agent i w ram st h = ground (arith, h)

  pub IsOpen-persist :
      (i : Interface) (st : InterfaceStatus) (m : Map Kv) (w : Work)
      → IsOpen m w
      → IsOpen m (persist i st w)
  unfolding persist
  IsOpen-persist i st m w h = h

  settle_memif_lem :
      (st : InterfaceStatus) (w : Work)
      → ((settle_memif st w).0.txn ≡ w.txn)
        × ((settle_memif st w).1.memif_id ≡ (
            if st.memif_id == 0 then (allocate_memif w.ram.memif_id_allocator).1 else st.memif_id))
  unfolding settle_memif
  settle_memif_lem st w = (ground arith, ground arith)

module _ ⦃Api : VppAgentApi⦄ ⦃B : Broker⦄ ⦃S : StatusStore⦄ where
  -- The work after the status of an interface is settled and kept, from the cache `ram`.
  abbrev pub settled : Interface → InterfaceStatus → Ram → Work → Work × InterfaceStatus
  settled i st ram w =
      let (w', st') = settle_memif st (record w { ram = ram }) in (persist i st' w', st')

  no_forwarding :
      (ns_name : Text) (parse_ip : Text → Option Ip) (fuel : ℕ) (error_text : Error → Text)
      (sys : SystemParameters) (i : Interface) (w : Work)
      → i.fwd ≡ none
      → render_interface_forwarding parse_ip fuel error_text sys ns_name i w ≡ some (w, some tt)
  unfolding render_interface_forwarding
  no_forwarding ns_name parse_ip fuel error_text sys i w h = ground (arith, h)

  module _ (parse_ip : Text → Option Ip) (fuel : ℕ) (error_text : Error → Text)
      (sys : SystemParameters) (ns_name : Text) where
    -- For a direct pair, RenderConnDirectInterPodMemifPair of two interfaces with no forwarding that ask for the same
    -- directory of sockets, at an open level of the transaction and when both calls of
    -- InitInterfaceStatus succeed: it neither panics nor fails, and the level has an entry for each
    -- interface, under its key, with memifs that fit: the first is the slave and the second the master,
    -- on one socket and with one id, which is the one that the first interface held, or a new one.
    pub render_conn_direct_inter_pod_memif_pair_lem :
        (i0 i1 : Interface) (w : Work) (m : Map Kv) (ram ram' : Ram) (st st' : InterfaceStatus)
        → IsOpen m w
        → i0.fwd ≡ none
        → i1.fwd ≡ none
        → directory_of i0.memif_parms ≡ directory_of i1.memif_parms
        → init_interface_status parse_ip fuel ns_name i0.parent i0 w.ram ≡ some (ram, ok st)
        → init_interface_status parse_ip fuel ns_name i1.parent i1 (settled i0 st ram w).0.ram
          ≡ some (ram', ok st')
        → (w' : Work) × (a b : Kv) × (f g : Memif) × (render_conn_direct_inter_pod_memif_pair
              parse_ip fuel error_text sys ns_name i0 i1 w
            ≡ some (w', some tt))
          × IsOpen (insert b.vpp_key b (insert a.vpp_key a m)) w'
          × (a.vpp_key ≡ interface_key i0.parent i0.name)
          × (b.vpp_key ≡ interface_key i1.parent i1.name)
          × HasMemif a f
          × HasMemif b g
          × Fit f g
          × (f.id ≡ (
              if st.memif_id == 0 then (allocate_memif ram.memif_id_allocator).1 else st.memif_id))
    unfolding render_conn_direct_inter_pod_memif_pair
    render_conn_direct_inter_pod_memif_pair_lem i0 i1 w m ram ram' st st' open_m no0 no1 dirs init0
          init1 =
        let w1 : Work = record w { ram = ram } in
        let (w2, st0) = settle_memif st w1 in
        let (txn_same, id) = settle_memif_lem st w1 in
        let st1 = record st' { memif_id = st0.memif_id } in
        let a = pod_memif sys i0 st0 st0.memif_id false i1.parent in
        let b = pod_memif sys i1 st1 st1.memif_id true i1.parent in
        let open2 : IsOpen m w2 =
          subst (λ (t : Txn). t.after_map t.txn_level ≡ some m) (sym txn_same) open_m in
        let (w3, run3, open3, ram3) =
          add_entry_lem a m (persist i0 st0 w2) (IsOpen-persist i0 st0 m w2 open2) in
        let init3 : init_interface_status parse_ip fuel ns_name i1.parent i1 w3.ram
            ≡ some (ram', ok st') =
          ap (init_interface_status parse_ip fuel ns_name i1.parent i1) ram3 ∙ init1 in
        let w5 : Work = record w3 { ram = ram' } in
        let (w6, run6, open6, ram6) =
          add_entry_lem b (insert a.vpp_key a m) (persist i1 st1 w5)
            (IsOpen-persist i1 st1 (insert a.vpp_key a m) w5 open3) in
        let (f, g, hf, hg, fit, f_id, key0, key1) =
          direct_ends sys i0 i1 st0 st1 st0.memif_id dirs in
        (
          w6,
          a,
          b,
          f,
          g,
          next_step _ w1 st _
                (init_status_lem parse_ip fuel error_text sys ns_name i0.parent i0 w ram st init0)
              ∙ next_step _ w3 tt _ run3
              ∙ next_step _ w3 tt _ (no_forwarding ns_name parse_ip fuel error_text sys i0 w3 no0)
              ∙ next_step _ w5 st' _ (
                  init_status_lem parse_ip fuel error_text sys ns_name i1.parent i1 w3 ram' st'
                    init3)
              ∙ next_step _ w6 tt _ run6
              ∙ no_forwarding ns_name parse_ip fuel error_text sys i1 w6 no1,
          open6,
          key0,
          key1,
          hf,
          hg,
          fit,
          f_id ∙ id,
        )
