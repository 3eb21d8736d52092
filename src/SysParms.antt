-- ===== src/SysParms.antt =====
-- plugins/controller/sysparms.go: the parameters of the system, their defaults, and what they give
-- to interfaces and bridge domains that have none of their own.
pub mod Defaults
mod Examples
use sfc_controller.Common.{
  ℕ, Text, Bool, true, false, Option, none, some, List, [], ◌∷◌, ◌==◌, ◌||◌, if◌then◌else◌, text_eq,
}
use sfc_controller.Model.{
  SystemParameters, BdParms, rx_mode_polling, rx_mode_interrupt, rx_mode_adaptive,
}

-- The zero value, by which InitRAMCache and a delete start.
abbrev pub empty_parameters : SystemParameters
empty_parameters = record {
  mtu = 0;
  memif_directory = [];
  default_static_route_weight = 0;
  default_static_route_preference = 0;
  l2bd_templates = [];
  rx_mode = [];
  min_vrf_id = 0;
}

unfoldable pub get_default_system_bd_parms : BdParms
get_default_system_bd_parms = record {
  name = [];
  flood = true;
  unknown_unicast_flood = true;
  forward = true;
  learn = true;
  arp_termination = false;
  mac_age_minutes = 0;
}

-- The loop over the templates; `none` is nil.
unfoldable pub find_in : Text → List BdParms → Option BdParms
find_in template_name [] = none
find_in template_name (t ∷ rest) =
    if text_eq template_name t.name then some t else find_in template_name rest

unfoldable pub find_l2bd_template : SystemParameters → Text → Option BdParms
unfolding find_in
find_l2bd_template cache template_name = find_in template_name cache.l2bd_templates

unfoldable pub resolve_mtu : SystemParameters → ℕ → ℕ
resolve_mtu cache mtu = if mtu == 0 then cache.mtu else mtu

unfoldable pub resolve_rx_mode : SystemParameters → Text → Text
resolve_rx_mode cache rx_mode = if text_eq rx_mode [] then cache.rx_mode else rx_mode

abbrev pub is_rx_mode : Text → Bool
is_rx_mode mode =
    text_eq mode rx_mode_adaptive
    || (text_eq mode rx_mode_interrupt || text_eq mode rx_mode_polling)

-- The parameters as validate leaves them, and whether it accepts them.
unfoldable pub validate : SystemParameters → SystemParameters × Bool
validate sp = (
  record sp {
    mtu = if sp.mtu == 0 then 1500 else sp.mtu;
    default_static_route_preference =
        if sp.default_static_route_preference == 0 then 5 else sp.default_static_route_preference;
  },
  text_eq sp.rx_mode [] || is_rx_mode sp.rx_mode,
)

-- sysParmCache, and the parameters in the datastore.
pub record SystemParametersMgr : Type 0 where
  pub sys_parm_cache : SystemParameters
  pub stored : Option SystemParameters

-- `fails` says that the write to the datastore fails; the result, that there was no error.
unfoldable pub handle_crud_operation_cu :
    Bool → SystemParameters → SystemParametersMgr → SystemParametersMgr × Bool
unfolding validate
handle_crud_operation_cu fails sp mgr =
    let (checked, valid) = validate sp in
    if valid
    then if fails
      then (record mgr { sys_parm_cache = checked }, false)
      else (record { sys_parm_cache = checked; stored = some checked }, true)
    else (mgr, false)

unfoldable pub handle_crud_operation_d : Bool → SystemParametersMgr → SystemParametersMgr × Bool
unfolding handle_crud_operation_cu
handle_crud_operation_d fails mgr = (
  (handle_crud_operation_cu fails empty_parameters
      (record mgr { sys_parm_cache = empty_parameters })).0,
  true,
)
