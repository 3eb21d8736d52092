-- ===== src/Agent/Keys.antt =====
-- plugins/controller/vppagent/keys.go: a key tells its agent.
use sfc_controller.Common.{ℕ, ◌≡◌, refl, ◌∙◌, Text, codes, false, List, [], ◌∷◌, ◌++◌, ◌==◌}
use sfc_controller.Common.Texts.{HasNoSlash}
use sfc_controller.Messages.{VppAgentApi}
use sfc_controller.Agent.{
  split, part_at, in_agent, get_vpp_etcdlabel, strip_slash_and_subnet_ip_address, interface_key,
  linux_interface_key, l2_bridge_domain_key, l2_x_connect_key, l3_route_key, arp_entry_key,
}

split_step :
    (d : ℕ) (s p : Text) (parts : List Text)
    → (d == b'/') ≡ false
    → split b'/' s ≡ p ∷ parts
    → split b'/' (d ∷ s) ≡ (d ∷ p) ∷ parts
unfolding split
split_step d s p parts h e = rw (h, e) refl

-- The part before the first slash comes first.
pub split-append : (s t : Text) → HasNoSlash s → split b'/' (s ++ b'/' ∷ t) ≡ s ∷ split b'/' t
split-append [] t h = unfold split in refl
split-append (d ∷ s) t h = split_step d (s ++ b'/' ∷ t) s (split b'/' t) h.0 (split-append s t h.1)

pub split_whole : (s : Text) → HasNoSlash s → split b'/' s ≡ s ∷ []
split_whole [] h = unfold split in refl
split_whole (d ∷ s) h = split_step d s s [] h.0 (split_whole s h.1)

pub get_vpp_etcdlabel-in_agent :
    (label suffix : Text) → HasNoSlash label → get_vpp_etcdlabel (in_agent label suffix) ≡ label
unfolding get_vpp_etcdlabel in_agent part_at
get_vpp_etcdlabel-in_agent label suffix h =
    let word : HasNoSlash (codes "vnf-agent") =
      (refl, (refl, (refl, (refl, (refl, (refl, (refl, (refl, (refl, tt))))))))) in
    let rest : Text = label ++ b'/' ∷ suffix in
    let e : split b'/' (b'/' ∷ (codes "vnf-agent" ++ b'/' ∷ rest))
        ≡ [] ∷ codes "vnf-agent" ∷ label ∷ split b'/' suffix =
      split-append [] (codes "vnf-agent" ++ b'/' ∷ rest) tt
      ∙ rw (split-append (codes "vnf-agent") rest word, split-append label suffix h) refl in
    rw e refl

-- GetVppEtcdlabel reads the label of an agent, if it has no slash, from each key of an entry of that
-- agent: an interface, a Linux interface, a bridge domain, a cross connect, a route, an ARP entry.
pub get_vpp_etcdlabel_lem :
    ⦃Api : VppAgentApi⦄
    → (label name other : Text) (vrf : ℕ) → HasNoSlash label
    → (get_vpp_etcdlabel (interface_key label name) ≡ label)
      × (get_vpp_etcdlabel (linux_interface_key label name) ≡ label)
      × (get_vpp_etcdlabel (l2_bridge_domain_key label name) ≡ label)
      × (get_vpp_etcdlabel (l2_x_connect_key label name) ≡ label)
      × (get_vpp_etcdlabel (l3_route_key label vrf name other) ≡ label)
      × (get_vpp_etcdlabel (arp_entry_key label name other) ≡ label)
unfolding interface_key linux_interface_key l2_bridge_domain_key l2_x_connect_key l3_route_key
    arp_entry_key
get_vpp_etcdlabel_lem ⦃Api⦄ label name other vrf h =
    let of_suffix = λ (s : Text). get_vpp_etcdlabel-in_agent label s h in
    (
      of_suffix (Api.interface_key name),
      of_suffix (Api.linux_interface_key name),
      of_suffix (Api.bridge_domain_key name),
      of_suffix (Api.x_connect_key name),
      of_suffix (Api.route_key vrf name other),
      of_suffix (Api.arp_entry_key name other),
    )

-- An address with a prefix length after a slash loses both; an address without a slash stays.
pub strip_slash_and_subnet_ip_address_lem :
    (address len : Text)
    → HasNoSlash address
    → (strip_slash_and_subnet_ip_address (address ++ b'/' ∷ len) ≡ address)
      × (strip_slash_and_subnet_ip_address address ≡ address)
unfolding strip_slash_and_subnet_ip_address part_at
strip_slash_and_subnet_ip_address_lem address len h =
    (rw (split-append address len h) refl, rw (split_whole address h) refl)
