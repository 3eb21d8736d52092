-- ===== src/Names/Parts.antt =====
-- The parts of a name, and what the comparison of address lists tells.
use mathlib.Core.Path.{subst}
use mathlib.Core.List.{
  Mem, Mem-prop, mem-cons_self, mem-cons_of_mem, eq-or-mem_of_mem-cons, not-mem-nil,
}
use mathlib.Core.Logic.Or
use sfc_controller.Common.{
  ℕ, suc, ◌+◌, ◌≤◌, ◌≡◌, refl, ◌↔◌, Text, true, some, List, [], ◌∷◌, ◌++◌, take, drop, length,
  arith, All, ap, sym, text_eq, text_eq_iff, Bool-cases, inl, inr,
}
use sfc_controller.Common.Texts.{HasNoSlash}
use sfc_controller.Names.{
  index_of, conn_pod_name, conn_interface_name, conn_pod_interface_names,
  conn_pod_interface_slash_to_uscore, is_in, found_count, ip_address_arrays_equal,
}

index_of-append : (p i : Text) → HasNoSlash p → index_of b'/' (p ++ b'/' ∷ i) ≡ some (length p)
unfolding index_of
index_of-append [] i h = refl
index_of-append (c ∷ p) i h = ground (arith, h.0, index_of-append p i h.1)

take-append : (p i : Text) → take (length p) (p ++ i) ≡ p
take-append [] i = refl
take-append (c ∷ p) i = ap (λ q. c ∷ q) (take-append p i)

drop-append : (p : Text) (c : ℕ) (i : Text) → drop (length p + 1) (p ++ c ∷ i) ≡ i
drop-append p c i = let e : length p + 1 ≡ suc (length p) = omega arith in rw e (past p)
  where
    past : (p : Text) → drop (suc (length p)) (p ++ c ∷ i) ≡ i
    past [] = refl
    past (d ∷ p) = past p

-- A pod name without a slash and any interface name, put together with a slash, are taken apart
-- again by the three functions, and put together with an underscore by the fourth.
pub conn_pod_interface_names_lem :
    (p i : Text)
    → HasNoSlash p
    → let s = p ++ b'/' ∷ i in
      (conn_pod_interface_names s ≡ (p, i))
      × (conn_pod_name s ≡ p)
      × (conn_interface_name s ≡ i)
      × (conn_pod_interface_slash_to_uscore s ≡ p ++ b'_' ∷ i)
unfolding conn_pod_interface_names conn_pod_name conn_interface_name
    conn_pod_interface_slash_to_uscore
conn_pod_interface_names_lem p i h =
    let e = index_of-append p i h in
    let t = take-append p (b'/' ∷ i) in
    let d = drop-append p b'/' i in
    (ground (arith, e, t, d), ground (arith, e, t), ground (arith, e, d), ground (arith, e, t, d))

found_count-le : (a1 a2 : List Text) → found_count a1 a2 ≤ length a1
unfolding found_count
found_count-le [] a2 = omega arith
found_count-le (e ∷ a1) a2 = ground (arith, found_count-le a1 a2)

found_count-All :
    (a1 a2 : List Text) → (found_count a1 a2 ≡ length a1) ↔ All (λ e. is_in e a2 ≡ true) a1
unfolding found_count
found_count-All [] a2 = (λ h. tt, λ h. refl)
found_count-All (e ∷ a1) a2 = (
  λ h. (
    ground (arith, h, found_count-le a1 a2),
    (found_count-All a1 a2).0 (ground (arith, h, found_count-le a1 a2)),
  ),
  λ h. ground (arith, h.0, (found_count-All a1 a2).1 h.1),
)

is_in-Mem : (e : Text) (a : List Text) → (is_in e a ≡ true) ↔ Mem e a
unfolding is_in
is_in-Mem e [] = (λ h. absurd (ground (arith, h)), λ m. absurd (not-mem-nil m))
is_in-Mem e (d ∷ a) =
    let ih = is_in-Mem e a in
    let t = text_eq_iff e d in
    (
      λ h. elim (Bool-cases (text_eq e d)) [
        | inl c ↦ subst (λ x. Mem e (x ∷ a)) (t.0 c) mem-cons_self
        | inr c ↦ mem-cons_of_mem d (ih.0 (ground (arith, h, c)))
      ],
      λ m.
          Or.elim (hlevel) (eq-or-mem_of_mem-cons m) (λ c. ground (arith, t.1 c))
            (λ m'. ground (arith, ih.1 m')),
    )

All-Mem : (a1 a2 : List Text) → All (λ e. is_in e a2 ≡ true) a1 ↔ ((e : Text) → Mem e a1 → Mem e a2)
All-Mem [] a2 = (λ h e m. absurd (not-mem-nil m), λ h. tt)
All-Mem (d ∷ a1) a2 =
    let ih = All-Mem a1 a2 in
    (
      λ h e m.
          Or.elim Mem-prop (eq-or-mem_of_mem-cons m)
            (λ c. subst (λ x. Mem x a2) (sym c) ((is_in-Mem d a2).0 h.0)) (λ m'. ih.0 h.1 e m'),
      λ f. ((is_in-Mem d a2).1 (f d mem-cons_self), ih.1 (λ e m. f e (mem-cons_of_mem d m))),
    )

-- Two lists of addresses are taken for equal exactly if they have the same length and each address
-- that occurs in the first occurs in the second.
pub ip_address_arrays_equal_lem :
    (a1 a2 : List Text)
    → (ip_address_arrays_equal a1 a2 ≡ true)
      ↔ ((length a1 ≡ length a2) × ((e : Text) → Mem e a1 → Mem e a2))
unfolding ip_address_arrays_equal
ip_address_arrays_equal_lem a1 a2 =
    let count = found_count-All a1 a2 in
    let mem = All-Mem a1 a2 in
    (
      λ h. (ground (arith, h), mem.0 (count.0 (ground (arith, h)))),
      λ h. ground (arith, h.0, count.1 (mem.1 h.1)),
    )
