-- ===== src/SysParms/Defaults.antt =====
-- plugins/controller/sysparms.go: no update leaves the MTU or the preference of routes at zero.
use sfc_controller.Common.{
  ℕ, ◌≡◌, ◌≢◌, refl, Bool, true, false, some, [], arith, Bool-cases, inl, inr, ◌⊎◌, text_eq, ◌||◌,
}
use sfc_controller.Model.{SystemParameters}
use sfc_controller.SysParms.{
  SystemParametersMgr, validate, is_rx_mode, handle_crud_operation_cu, handle_crud_operation_d,
  resolve_mtu,
}

-- An update is refused exactly if it has a receive mode that is none of the three; it changes nothing
-- then. Otherwise, also if the datastore fails, every MTU resolves to one that is not zero, every MTU
-- that is given to itself, and the preference of routes is not zero; the datastore, if it does not
-- fail, holds what the cache holds. A delete also leaves such parameters.
pub no_zero_defaults :
    (fails : Bool) (sp : SystemParameters) (mgr : SystemParametersMgr) (m : ℕ)
    → let after = (handle_crud_operation_cu fails sp mgr).0 in
      let bare = (handle_crud_operation_d fails mgr).0.sys_parm_cache in
      (((text_eq sp.rx_mode [] ≡ false)
          × (is_rx_mode sp.rx_mode ≡ false)
          × (handle_crud_operation_cu fails sp mgr ≡ (mgr, false)))
        ⊎ ((resolve_mtu after.sys_parm_cache m ≢ 0)
            × (m ≢ 0 → resolve_mtu after.sys_parm_cache m ≡ m)
            × (after.sys_parm_cache.default_static_route_preference ≢ 0)
            × (fails ≡ false → after.stored ≡ some after.sys_parm_cache)
            × (text_eq sp.rx_mode [] || is_rx_mode sp.rx_mode ≡ true)))
      × (resolve_mtu bare m ≢ 0)
      × (bare.default_static_route_preference ≢ 0)
unfolding handle_crud_operation_cu handle_crud_operation_d validate resolve_mtu
no_zero_defaults fails sp mgr m =
    let bare_ok : text_eq [] [] ≡ true = unfold text_eq in refl in
    (
      elim (Bool-cases (text_eq sp.rx_mode [] || is_rx_mode sp.rx_mode)) [
        | inl e ↦ inr (rw e (ground arith, ground arith, ground arith, ground arith, refl))
        | inr e ↦ inl (ground (arith, e), ground (arith, e), rw e refl)
      ],
      ground (arith, bare_ok),
      ground (arith, bare_ok),
    )
