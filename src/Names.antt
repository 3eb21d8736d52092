-- ===== src/Names.antt =====
-- plugins/controller/utils.go: the parts of names like "pod/interface", and the comparison of
-- lists of addresses.
pub mod Parts
mod Examples
use sfc_controller.Common.{
  ℕ, zero, suc, ◌+◌, Text, Bool, true, false, Option, none, some, List, [], ◌∷◌, ◌++◌, ◌==◌,
  if◌then◌else◌, take, drop, length, text_eq, not,
}

-- strings.Index(s, c) for a text of one byte; `none` is -1.
unfoldable pub index_of : ℕ → Text → Option ℕ
index_of c [] = none
index_of c (d ∷ s) =
    if d == c then some 0 else elim (index_of c s) [ none ↦ none | some n ↦ some (suc n) ]

unfoldable pub conn_pod_name : Text → Text
conn_pod_name s = elim (index_of b'/' s) [ none ↦ [] | some n ↦ take n s ]

unfoldable pub conn_interface_name : Text → Text
conn_interface_name s = elim (index_of b'/' s) [ none ↦ [] | some n ↦ drop (n + 1) s ]

unfoldable pub conn_pod_interface_names : Text → Text × Text
conn_pod_interface_names s = elim (index_of b'/' s) [
  | none ↦ ([], [])
  | some n ↦ (take n s, drop (n + 1) s)
]

unfoldable pub conn_pod_interface_slash_to_uscore : Text → Text
conn_pod_interface_slash_to_uscore s = let (s0, s1) = conn_pod_interface_names s in s0 ++ b'_' ∷ s1

-- Whether the inner loop finds the address.
unfoldable pub is_in : Text → List Text → Bool
is_in e1 [] = false
is_in e1 (e2 ∷ a2) = if text_eq e1 e2 then true else is_in e1 a2

unfoldable pub found_count : List Text → List Text → ℕ
found_count [] a2 = 0
found_count (e1 ∷ a1) a2 = let rest = found_count a1 a2 in if is_in e1 a2 then rest + 1 else rest

unfoldable pub ip_address_arrays_equal : List Text → List Text → Bool
ip_address_arrays_equal a1 a2 =
    if not (length a1 == length a2) then false else found_count a1 a2 == length a1
