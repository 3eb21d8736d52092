-- ===== src/Services/HostName.antt =====
-- plugins/controller/networkservice_if.go, stringFirstNLastM and constructBaseHostName: the name of
-- an interface on the host, of at most 15 characters.
use sfc_controller.Common.{
  ℕ, ◌+◌, ◌-◌, ◌/◌, ◌%◌, ◌≤◌, ◌<◌, ◌≡◌, refl, Text, [], ◌∷◌, ◌++◌, ◌==◌, ltb, leb, arith, length,
  take, drop, All, if◌then◌else◌, Bool-cases, inl, inr, ◌⊎◌, length-append, length-take-le,
  length-drop, zero, suc,
}

-- Sprintf("%c", b) of each byte: a byte from 128 on gives the two bytes of its UTF-8 form.
unfoldable pub print_chars : Text → Text
print_chars [] = []
print_chars (b ∷ s) =
    let rest = print_chars s in
    if ltb b 128 then b ∷ rest else (192 + b / 64) ∷ (128 + b % 64) ∷ rest

unfoldable pub string_first_n_last_m : ℕ → ℕ → Text → Text
unfolding print_chars
string_first_n_last_m n m str =
    if leb (length str) (n + m)
    then str
    else print_chars (take n str) ++ print_chars (drop (length str - m) str)

-- pb and pe, from the length of the container's name.
unfoldable pub port_budget : ℕ → ℕ × ℕ
port_budget n =
    if n == 7
    then (4, 4)
    else if n == 6
    then (4, 5)
    else if n == 5
    then (5, 5)
    else if n == 4
    then (5, 6)
    else if n == 3
    then (6, 6)
    else if n == 2
    then (6, 7)
    else if n == 1
    then (7, 7)
    else (3, 4)

-- cb and ce, from the length of the port's name.
unfoldable pub container_budget : ℕ → ℕ × ℕ
container_budget n =
    if n == 6
    then (5, 4)
    else if n == 5
    then (5, 5)
    else if n == 4
    then (6, 5)
    else if n == 3
    then (6, 6)
    else if n == 2
    then (7, 6)
    else if n == 1
    then (7, 7)
    else (4, 4)

unfoldable pub construct_base_host_name : Text → Text → Text
unfolding string_first_n_last_m port_budget container_budget
construct_base_host_name container port =
    let (cb, ce) = container_budget (length port) in
    let (pb, pe) = port_budget (length container) in
    string_first_n_last_m cb ce container ++ string_first_n_last_m pb pe port

abbrev pub IsAscii : Text → Type 0
IsAscii s = All (λ b. b < 128) s

print_chars-ascii : (s : Text) → IsAscii s → print_chars s ≡ s
unfolding print_chars
print_chars-ascii [] h = refl
print_chars-ascii (b ∷ s) h = ground (arith, h.0, print_chars-ascii s h.1)

take-IsAscii : (n : ℕ) (s : Text) → IsAscii s → IsAscii (take n s)
take-IsAscii zero s h = tt
take-IsAscii (suc n) [] h = tt
take-IsAscii (suc n) (b ∷ s) h = (h.0, take-IsAscii n s h.1)

drop-IsAscii : (n : ℕ) (s : Text) → IsAscii s → IsAscii (drop n s)
drop-IsAscii zero s h = h
drop-IsAscii (suc n) [] h = tt
drop-IsAscii (suc n) (b ∷ s) h = drop-IsAscii n s h.1

length-string_first_n_last_m :
    (n m : ℕ) (s : Text)
    → IsAscii s
    → (length (string_first_n_last_m n m s) ≤ n + m)
      × (length (string_first_n_last_m n m s) ≤ length s)
unfolding string_first_n_last_m
length-string_first_n_last_m n m s h = elim (Bool-cases (leb (length s) (n + m))) [
  | inl e ↦ rw e (ground (arith, e), omega arith)
  | inr e ↦
      let back = length s - m in
      let front : length (print_chars (take n s)) ≤ n =
        rw (print_chars-ascii (take n s) (take-IsAscii n s h)) (length-take-le n s) in
      let rear : length (print_chars (drop back s)) ≡ length s - back =
        rw (print_chars-ascii (drop back s) (drop-IsAscii back s h)) (length-drop back s) in
      let both = length-append (print_chars (take n s)) (print_chars (drop back s)) in
      rw e (ground (arith, e, front, rear, both), ground (arith, e, front, rear, both))
]

short_whole : (n m : ℕ) (s : Text) → length s ≤ n + m → string_first_n_last_m n m s ≡ s
unfolding string_first_n_last_m
short_whole n m s h = ground (arith, h)

-- Without the characters that the other name leaves, a name has its budget.
budget_left :
    (a b : ℕ)
    → (((container_budget b).0 + (container_budget b).1 + b ≤ 15)
        ⊎ ((container_budget b).0 + (container_budget b).1 ≡ 8))
      × (((port_budget a).0 + (port_budget a).1 + a ≤ 15)
          ⊎ ((port_budget a).0 + (port_budget a).1 ≡ 7))
      × ((1 ≤ b) → (b ≤ 7) → (container_budget b).0 + (container_budget b).1 + b ≡ 15)
      × ((1 ≤ a) → (a ≤ 8) → (port_budget a).0 + (port_budget a).1 + a ≡ 15)
unfolding container_budget port_budget
budget_left a b = (ground arith, ground arith, ground arith, ground arith)

-- The host name of an interface whose names are ASCII has at most 15 characters; and if both names
-- have characters, 15 at most together, it is the two names, one behind the other.
pub construct_base_host_name_lem :
    (container port : Text)
    → IsAscii container
    → IsAscii port
    → (length (construct_base_host_name container port) ≤ 15)
      × (1 ≤ length container
          → 1 ≤ length port
          → length container + length port ≤ 15
          → construct_base_host_name container port ≡ container ++ port)
unfolding construct_base_host_name
construct_base_host_name_lem container port hc hp =
    let c = container_budget (length port) in
    let p = port_budget (length container) in
    let (c1, c2) = length-string_first_n_last_m c.0 c.1 container hc in
    let (p1, p2) = length-string_first_n_last_m p.0 p.1 port hp in
    let both =
      length-append (string_first_n_last_m c.0 c.1 container)
        (string_first_n_last_m p.0 p.1 port) in
    let (lc, lp, ec, ep) = budget_left (length container) (length port) in
    (
      ground (arith, c1, c2, p1, p2, both, lc, lp),
      (λ h k l.
          let whole_c = short_whole c.0 c.1 container (ground (arith, h, k, l, lc, ec)) in
          let whole_p = short_whole p.0 p.1 port (ground (arith, h, k, l, lp, ep)) in
          rw (whole_c, whole_p) refl),
    )
