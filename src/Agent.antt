-- ===== src/Agent.antt =====
-- plugins/controller/vppagent/vpp_agent.go and keys.go: the keys of the agents and the conversions
-- of configuration to the values in their messages.
pub mod Sorting
pub mod Interfaces
pub mod Network
pub mod Keys
pub mod Numbers
pub mod Order
pub mod Typed
pub mod Examples
use sfc_controller.Common.{
  ℕ, zero, suc, ◌+◌, ◌-◌, ◌*◌, ◌%◌, ◌^◌, Text, codes, Bool, true, false, not, ◌&&◌, Option, none,
  some, List, [], ◌∷◌, ◌++◌, ◌==◌, ltb, leb, if◌then◌else◌, get_elem?, text_eq, ◌>>=◌,
}
use sfc_controller.Model.{
  rx_mode_polling, rx_mode_interrupt, rx_mode_adaptive, if_admin_status_disabled,
  memif_mode_ethernet, memif_mode_ip, memif_mode_punt_inject,
}
use sfc_controller.Messages.{RxMode, MemifMode, VppAgentApi}
use Sorting.{insert_all}

abbrev pub agent_prefix : Text
agent_prefix = codes "/vnf-agent/"

-- strings.Split(s, c), for a separator of one byte.
unfoldable pub split : ℕ → Text → List Text
split c [] = [] ∷ []
split c (d ∷ s) =
    let rest = split c s in
    if d == c then [] ∷ rest else elim rest [ [] ↦ [] | part ∷ parts ↦ (d ∷ part) ∷ parts ]

-- The code asks for the third part only if there are three, and for the first, which is always there.
unfoldable pub part_at : ℕ → List Text → Text
part_at i parts = elim (get_elem? parts i) [ none ↦ [] | some part ↦ part ]

unfoldable pub get_vpp_etcdlabel : Text → Text
unfolding split part_at
get_vpp_etcdlabel key = part_at 2 (split b'/' key)

unfoldable pub strip_slash_and_subnet_ip_address : Text → Text
unfolding split part_at
strip_slash_and_subnet_ip_address s = part_at 0 (split b'/' s)

unfoldable pub in_agent : Text → Text → Text
in_agent vpp_label suffix = agent_prefix ++ (vpp_label ++ b'/' ∷ suffix)

module _ ⦃Api : VppAgentApi⦄ where
  unfoldable pub interface_key : Text → Text → Text
  interface_key vpp_label iface = in_agent vpp_label (Api.interface_key iface)

  unfoldable pub linux_interface_key : Text → Text → Text
  linux_interface_key vpp_label iface = in_agent vpp_label (Api.linux_interface_key iface)

  unfoldable pub l2_bridge_domain_key : Text → Text → Text
  l2_bridge_domain_key vpp_label bd = in_agent vpp_label (Api.bridge_domain_key bd)

  unfoldable pub l2_x_connect_key : Text → Text → Text
  l2_x_connect_key vpp_label rx_if = in_agent vpp_label (Api.x_connect_key rx_if)

  -- `dest_net` is the text of the destination network.
  unfoldable pub l3_route_key : Text → ℕ → Text → Text → Text
  l3_route_key vpp_label vrf dest_net next_hop =
      in_agent vpp_label (Api.route_key vrf dest_net next_hop)

  unfoldable pub arp_entry_key : Text → Text → Text → Text
  arp_entry_key vpp_label iface ip_address = in_agent vpp_label (Api.arp_entry_key iface ip_address)

unfoldable pub rx_mode_controller_to_interface : Text → Option RxMode
rx_mode_controller_to_interface mode =
    if text_eq mode rx_mode_polling
    then some RxMode.polling
    else if text_eq mode rx_mode_interrupt
    then some RxMode.interrupt
    else if text_eq mode rx_mode_adaptive
    then some RxMode.adaptive
    else none

unfoldable pub admin_status_string_to_bool : Text → Bool
admin_status_string_to_bool status = if text_eq status if_admin_status_disabled then false else true

unfoldable pub memif_mode : Text → MemifMode
memif_mode mode =
    if text_eq mode memif_mode_ethernet
    then MemifMode.ethernet
    else if text_eq mode memif_mode_ip
    then MemifMode.ip
    else if text_eq mode memif_mode_punt_inject
    then MemifMode.punt_inject
    else MemifMode.ethernet

-- The value of a run of decimal digits, `none` at another byte.
unfoldable pub digits_value : ℕ → Text → Option ℕ
digits_value acc [] = some acc
digits_value acc (c ∷ s) =
    let rest = digits_value (acc * 10 + (c - 48)) s in if leb 48 c && leb c 57 then rest else none

-- The text after the sign, at least one digit long, whose value is at most `top`.
unfoldable pub magnitude : ℕ → Text → Option ℕ
unfolding digits_value
magnitude top [] = none
magnitude top (c ∷ s) = digits_value 0 (c ∷ s) >>= λ (n : ℕ). if leb n top then some n else none

-- strconv.Atoi: whether there is a minus sign, and the number without it; `none` is an error.
unfoldable pub atoi : Text → Option (Bool × ℕ)
unfolding magnitude
atoi [] = none
atoi (c ∷ s) =
    if c == b'-'
    then (magnitude (2 ^ 63) s >>= λ (n : ℕ). some (true, n))
    else if c == b'+'
    then (magnitude (2 ^ 63 - 1) s >>= λ (n : ℕ). some (false, n))
    else (magnitude (2 ^ 63 - 1) (c ∷ s) >>= λ (n : ℕ). some (false, n))

-- i < 0
unfoldable pub is_negative : Bool × ℕ → Bool
is_negative (minus, n) = minus && ltb 0 n

-- uint32(i)
unfoldable pub to_uint32 : Bool × ℕ → ℕ
to_uint32 (minus, n) = if minus then (2 ^ 32 - n % 2 ^ 32) % 2 ^ 32 else n % 2 ^ 32

unfoldable pub str_to_uint32 : Text → ℕ
unfolding atoi to_uint32
str_to_uint32 v = elim (atoi v) [ none ↦ 0 | some i ↦ to_uint32 i ]

unfoldable pub sorted_ip_addresses : List Text → List Text
sorted_ip_addresses addresses = insert_all (λ (a : Text). a) [] addresses
