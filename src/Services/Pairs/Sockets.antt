-- ===== src/Services/Pairs/Sockets.antt =====
-- plugins/controller/networkservice_if.go: the two ends of a pair of memifs fit, by the settings that
-- ConstructMemInterface of plugins/controller/vppagent/vpp_agent.go makes.
use sfc_controller.Common.{
  ℕ, ◌≡◌, refl, ◌∙◌, sym, Text, Bool, true, false, Option, none, some, [], text_eq,
}
use sfc_controller.Model.{SystemParameters, Interface, InterfaceStatus, Connection, MemifParms}
use sfc_controller.Messages.{VppInterface, Memif, VppAgentApi, messages}
use sfc_controller.Entry.{Kv, new_kv_entry}
use sfc_controller.Agent.{interface_key}
use sfc_controller.Agent.Interfaces.{
  memif_settings, base_interface, interface_entry, construct_mem_interface,
}
use sfc_controller.Services.Pairs.{set_vrf, pod_memif, vswitch_memif}

-- The directory of the sockets that the parameters of a memif ask for.
abbrev pub directory_of : Option MemifParms → Text
directory_of none = []
directory_of (some p) = p.memif_directory

socket_lem :
    (id id' : ℕ) (m m' : Bool) (p p' : Option MemifParms) (dir master : Text)
    → directory_of p ≡ directory_of p'
    → (memif_settings id m p dir master).socket_filename
      ≡ (memif_settings id' m' p' dir master).socket_filename
unfolding memif_settings
socket_lem id id' m m' none none dir master e = refl
socket_lem id id' m m' none (some q) dir master e = rw (← e) (unfold text_eq in refl)
socket_lem id id' m m' (some p) none dir master e = rw e (unfold text_eq in refl)
socket_lem id id' m m' (some p) (some q) dir master e = rw e refl

id_lem :
    (id : ℕ) (m : Bool) (p : Option MemifParms) (dir master : Text)
    → ((memif_settings id m p dir master).id ≡ id) × ((memif_settings id m p dir master).master ≡ m)
unfolding memif_settings
id_lem id m none dir master = (refl, refl)
id_lem id m (some p) dir master = (refl, refl)

module _ ⦃Api : VppAgentApi⦄ where
  abbrev pub HasMemif : Kv → Memif → Type 0
  HasMemif kv f = (i : VppInterface) × (kv.iface ≡ some i) × (i.memif ≡ some f)

  -- One end is the slave and the other the master, with the same id and on the same socket.
  abbrev pub Fit : Memif → Memif → Type 0
  Fit slave master =
      (slave.master ≡ false)
      × (master.master ≡ true)
      × (slave.id ≡ master.id)
      × (slave.socket_filename ≡ master.socket_filename)

  -- The ends of a direct pair.
  pub direct_ends :
      (sys : SystemParameters) (i i' : Interface) (st st' : InterfaceStatus) (id : ℕ)
      → directory_of i.memif_parms ≡ directory_of i'.memif_parms
      → (a b : Memif) × HasMemif (pod_memif sys i st id false i'.parent) a
        × HasMemif (pod_memif sys i' st' id true i'.parent) b
        × Fit a b
        × (a.id ≡ id)
        × ((pod_memif sys i st id false i'.parent).vpp_key ≡ interface_key i.parent i.name)
        × ((pod_memif sys i' st' id true i'.parent).vpp_key ≡ interface_key i'.parent i'.name)
  unfolding pod_memif construct_mem_interface interface_entry base_interface new_kv_entry
  direct_ends sys i i' st st' id e =
      let dir = sys.memif_directory in
      let (u0, u1) = id_lem id false i.memif_parms dir i'.parent in
      let (v0, v1) = id_lem id true i'.memif_parms dir i'.parent in
      (
        memif_settings id false i.memif_parms dir i'.parent,
        memif_settings id true i'.memif_parms dir i'.parent,
        (_, refl, refl),
        (_, refl, refl),
        (
          u1,
          v1,
          u0 ∙ sym v0,
          socket_lem id id false true i.memif_parms i'.memif_parms dir i'.parent e,
        ),
        u0,
        refl,
        refl,
      )

  -- The ends of a pair of a pod and its switch.
  pub switch_ends :
      (sys : SystemParameters) (vpp_agent : Text) (conn : Connection) (i : Interface)
      (st : InterfaceStatus) (id : ℕ)
      → (a b : Memif) × HasMemif (pod_memif sys i st id false vpp_agent) a
        × HasMemif (vswitch_memif sys vpp_agent conn i id) b
        × Fit a b
  unfolding pod_memif vswitch_memif set_vrf construct_mem_interface interface_entry base_interface
      new_kv_entry
  switch_ends sys vpp_agent conn i st id =
      let dir = sys.memif_directory in
      let (s0, s1) = id_lem id false i.memif_parms dir vpp_agent in
      let (t0, t1) = id_lem id true i.memif_parms dir vpp_agent in
      (
        memif_settings id false i.memif_parms dir vpp_agent,
        memif_settings id true i.memif_parms dir vpp_agent,
        (_, refl, refl),
        (_, refl, refl),
        (
          s1,
          t1,
          s0 ∙ sym t0,
          socket_lem id id false true i.memif_parms i.memif_parms dir vpp_agent refl,
        ),
      )
