-- ===== src/Services/Taps.antt =====
-- plugins/controller/networkservice_if.go, RenderConnTapPair: what it renders, and the name that it
-- returns.
use sfc_controller.Common.{ℕ, ◌≡◌, refl, ◌∙◌, Text, codes, Option, some, []}
use sfc_controller.Common.Maps.{Map, insert}
use sfc_controller.Model.{SystemParameters, Interface, InterfaceStatus, Connection}
use sfc_controller.Messages.{VppInterface, VppAgentApi, messages}
use sfc_controller.Entry.{Kv, new_kv_entry}
use sfc_controller.Datastore.{Broker}
use sfc_controller.Ipam.{Ip}
use sfc_controller.Pools.{Error, ok}
use sfc_controller.Interfaces.{StatusStore, Ram, init_interface_status}
use sfc_controller.Agent.Interfaces.{base_interface, interface_entry, construct_tap_interface}
use sfc_controller.Services.Pairs.{if_name, host_port_label_of, set_vrf, Work, persist}
use sfc_controller.Services.Pairs.Ends.{
  IsOpen, add_entry_lem, next_step, init_status_lem, IsOpen-persist,
}
use sfc_controller.Services.HostPairs.{linux_tap, vswitch_tap, render_conn_tap_pair}

module _ ⦃Api : VppAgentApi⦄ ⦃B : Broker⦄ ⦃S : StatusStore⦄ (parse_ip : Text → Option Ip) (fuel : ℕ)
    (error_text : Error → Text) (sys : SystemParameters) (ns_name : Text) where
  -- RenderConnTapPair, at an open level of the transaction and when InitInterfaceStatus succeeds: it
  -- neither panics nor fails, and the level has the entries of the two ends, of which that in the
  -- switch is the interface IF_TAP_VSWITCH_pod_interface. But the name that it returns, for the bridge
  -- or the cross connect that the pair is for, is empty.
  pub render_conn_tap_pair_lem :
      (vpp_agent pod_type : Text) (conn : Connection) (i : Interface) (w : Work) (m : Map Kv)
      (ram : Ram) (st : InterfaceStatus)
      → IsOpen m w
      → init_interface_status parse_ip fuel ns_name vpp_agent i w.ram ≡ some (ram, ok st)
      → let st' = record st { host_port_label = host_port_label_of i } in
        let linux = linux_tap parse_ip fuel error_text sys ns_name vpp_agent i st' in
        let switch = vswitch_tap parse_ip fuel error_text sys ns_name vpp_agent conn i in
        ((w' : Work) × (render_conn_tap_pair parse_ip fuel error_text sys ns_name vpp_agent conn i
              pod_type w
            ≡ some (w', some ([], st')))
          × IsOpen (insert switch.vpp_key switch (insert linux.vpp_key linux m)) w')
        × ((face : VppInterface) × (switch.iface ≡ some face)
            × (face.name ≡ if_name (codes "IF_TAP_VSWITCH_") i))
  unfolding render_conn_tap_pair vswitch_tap set_vrf construct_tap_interface interface_entry
      base_interface new_kv_entry
  render_conn_tap_pair_lem vpp_agent pod_type conn i w m ram st open_m init =
      let w1 : Work = record w { ram = ram } in
      let st' = record st { host_port_label = host_port_label_of i } in
      let linux = linux_tap parse_ip fuel error_text sys ns_name vpp_agent i st' in
      let switch = vswitch_tap parse_ip fuel error_text sys ns_name vpp_agent conn i in
      let (w2, run2, open2, ram2) =
        add_entry_lem linux m (persist i st' w1) (IsOpen-persist i st' m w1 open_m) in
      let (w3, run3, open3, ram3) = add_entry_lem switch (insert linux.vpp_key linux m) w2 open2 in
      (
        (
          w3,
          next_step _ w1 st _
                (init_status_lem parse_ip fuel error_text sys ns_name vpp_agent i w ram st init)
              ∙ next_step _ w2 tt _ run2
              ∙ next_step _ w3 tt _ run3,
          open3,
        ),
        (_, refl, refl),
      )
