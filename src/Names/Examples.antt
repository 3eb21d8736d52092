-- ===== src/Names/Examples.antt =====
-- Tests of the names, and their theorems at "vnf1/port1" and short lists of addresses.
use mathlib.Core.List.{Mem}
use sfc_controller.Common.{Text, ◌≡◌, refl, ◌↔◌, codes, true, [], ◌∷◌, ◌++◌, length, text_eq}
use sfc_controller.Names.{
  index_of, conn_pod_name, conn_interface_name, conn_pod_interface_names,
  conn_pod_interface_slash_to_uscore, is_in, found_count, ip_address_arrays_equal,
}
use sfc_controller.Names.Parts.{conn_pod_interface_names_lem, ip_address_arrays_equal_lem}

no_slash_test : conn_pod_interface_slash_to_uscore (codes "vnf1") ≡ codes "_"
unfolding conn_pod_interface_slash_to_uscore conn_pod_interface_names index_of
no_slash_test = refl

-- A repeated address stands for two.
repeated_test :
    ip_address_arrays_equal (codes "a" ∷ codes "a" ∷ []) (codes "a" ∷ codes "b" ∷ []) ≡ true
unfolding ip_address_arrays_equal found_count is_in text_eq
repeated_test = refl

conn_pod_interface_names_lem_example :
    let s = codes "vnf1" ++ b'/' ∷ codes "port1" in
    (conn_pod_interface_names s ≡ (codes "vnf1", codes "port1"))
    × (conn_pod_name s ≡ codes "vnf1")
    × (conn_interface_name s ≡ codes "port1")
    × (conn_pod_interface_slash_to_uscore s ≡ codes "vnf1" ++ b'_' ∷ codes "port1")
conn_pod_interface_names_lem_example =
    conn_pod_interface_names_lem (codes "vnf1") (codes "port1") (refl, (refl, (refl, (refl, tt))))

ip_address_arrays_equal_lem_example :
    (ip_address_arrays_equal (codes "a" ∷ []) (codes "b" ∷ []) ≡ true) ↔ (
      (length (codes "a" ∷ []) ≡ length (codes "b" ∷ []))
      × ((e : Text) → Mem e (codes "a" ∷ []) → Mem e (codes "b" ∷ [])))
ip_address_arrays_equal_lem_example = ip_address_arrays_equal_lem (codes "a" ∷ []) (codes "b" ∷ [])
