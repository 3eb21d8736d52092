-- ===== src/SysParms/Examples.antt =====
-- The theorem of the parameters at an update with a receive mode.
use sfc_controller.Common.{ℕ, ◌≡◌, ◌≢◌, ◌⊎◌, codes, true, false, some, [], text_eq, ◌||◌, none}
use sfc_controller.Model.{SystemParameters}
use sfc_controller.SysParms.{
  SystemParametersMgr, empty_parameters, is_rx_mode, handle_crud_operation_cu,
  handle_crud_operation_d, resolve_mtu,
}
use sfc_controller.SysParms.Defaults.{no_zero_defaults}

abbrev polled : SystemParameters
polled = record empty_parameters { rx_mode = codes "polling" }

abbrev mgr : SystemParametersMgr
mgr = record { sys_parm_cache = empty_parameters; stored = none }

no_zero_defaults_test :
    let after = (handle_crud_operation_cu false polled mgr).0 in
    let bare = (handle_crud_operation_d false mgr).0.sys_parm_cache in
    (((text_eq polled.rx_mode [] ≡ false)
        × (is_rx_mode polled.rx_mode ≡ false)
        × (handle_crud_operation_cu false polled mgr ≡ (mgr, false)))
      ⊎ ((resolve_mtu after.sys_parm_cache 0 ≢ 0)
          × (◌≢◌ {A = ℕ} 0 0 → resolve_mtu after.sys_parm_cache 0 ≡ 0)
          × (after.sys_parm_cache.default_static_route_preference ≢ 0)
          × (false ≡ false → after.stored ≡ some after.sys_parm_cache)
          × (text_eq polled.rx_mode [] || is_rx_mode polled.rx_mode ≡ true)))
    × (resolve_mtu bare 0 ≢ 0)
    × (bare.default_static_route_preference ≢ 0)
no_zero_defaults_test = no_zero_defaults false polled mgr 0
