-- ===== src/Interfaces/Allocation.antt =====
-- plugins/controller/interfaces.go, InitInterfaceStatus: what an interface holds stays its own, and
-- which addresses the pools learn of.
use mathlib.Core.Path.{subst}
use sfc_controller.Common.{
  ℕ, ◌≡◌, ◌≢◌, refl, ◌∙◌, sym, ap, inl, inr, Text, Option, none, some, List, [], ◌∷◌, arith, All,
  text_eq, text_eq_iff, text_eq_refl, Bool-cases, Option-cases,
}
use sfc_controller.Common.Maps.{lookup, insert, lookup-insert}
use sfc_controller.Model.{Interface, InterfaceStatus}
use sfc_controller.Ids.{MacAddrAllocator, allocate_mac_addr, format_mac_address}
use sfc_controller.Ipam.{Ip}
use sfc_controller.Pools.{Pools, Result, ok, err, set_address, allocate_address}
use sfc_controller.Interfaces.{
  StatusStore, Ram, existing_status, entity_interface_name, init_interface_status, settle,
  finish_status, Outcome, add_address, note_id, and_then, and_loop, set_known, allocate_new, ids_of,
  and_note, mark_addresses, settle_mac, pool_addresses,
}

-- The ids of the first status are those of the second, which may have more.
abbrev pub Keeps : InterfaceStatus → InterfaceStatus → Type 0
Keeps st st' =
    (k : Text) (id : ℕ) → lookup k (ids_of st) ≡ some id → lookup k (ids_of st') ≡ some id

-- The status has an id in the pool.
abbrev pub HasId : InterfaceStatus → Text → Type 0
HasId st pool = (id : ℕ) × (lookup pool (ids_of st) ≡ some id)

HasId-Keeps :
    (st st' : InterfaceStatus) (pool : Text) → Keeps st st' → HasId st pool → HasId st' pool
HasId-Keeps st st' pool k (id, e) = (id, k pool id e)

-- What holds of the status of a loop that ends with no error.
abbrev pub Post : (InterfaceStatus → Type 0) → Outcome → Type 0
Post P none = Unit
Post P (some (p, st, some e)) = Unit
Post P (some (p, st, none)) = P st

and_then-Post :
    {A : Type 0} (P : InterfaceStatus → Type 0) (r : Option (Pools × Result A))
    (st : InterfaceStatus) (next : Pools → A → Outcome)
    → ((p : Pools) (a : A) → Post P (next p a))
    → Post P (and_then r st next)
unfolding and_then
and_then-Post P none st next h = tt
and_then-Post P (some (p, err e)) st next h = tt
and_then-Post P (some (p, ok a)) st next h = h p a

and_loop-Post :
    (P Q : InterfaceStatus → Type 0) (r : Outcome) (next : Pools → InterfaceStatus → Outcome)
    → Post P r
    → ((p : Pools) (st : InterfaceStatus) → P st → Post Q (next p st))
    → Post Q (and_loop r next)
unfolding and_loop
and_loop-Post P Q none next h k = tt
and_loop-Post P Q (some (p, st, some e)) next h k = tt
and_loop-Post P Q (some (p, st, none)) next h k = k p st h

-- The ids that were held are held, the listed pools have ids, and the MAC address stays.
abbrev Grown : List Text → InterfaceStatus → InterfaceStatus → Type 0
Grown pools st st' = Keeps st st' × All (HasId st') pools × (st'.mac_address ≡ st.mac_address)

-- What is noted: one id more.
note_id_lem :
    (pool address : Text) (id : ℕ) (st st1 : InterfaceStatus)
    → lookup pool (ids_of st) ≡ none
    → note_id pool address id st ≡ some st1
    → Keeps st st1 × HasId st1 pool × (st1.mac_address ≡ st.mac_address)
unfolding note_id
note_id_lem pool address id st st1 e h = elim (Option-cases st.ipam_pool_nums) [
  | inl nil ↦ ground (arith, h, nil)
  | inr (ids, there) ↦
      let fresh : InterfaceStatus = record (add_address address st) {
        ipam_pool_nums = some (insert pool id ids);
      } in
      let same : fresh ≡ st1 = cc (rw there at h) in
      subst (λ x. Keeps st x × HasId x pool × (x.mac_address ≡ st.mac_address)) same
        (
          (λ k v f. ground (arith, e, f, there, lookup-insert pool k id ids, text_eq_iff pool k)),
          (id, ground (arith, lookup-insert pool pool id ids, text_eq_refl pool)),
          refl,
        )
]

Grown-after :
    (pool : Text) (rest : List Text) (st st1 st2 : InterfaceStatus)
    → Keeps st st1
    → HasId st1 pool
    → st1.mac_address ≡ st.mac_address
    → Grown rest st1 st2
    → Grown (pool ∷ rest) st st2
Grown-after pool rest st st1 st2 k has mac g =
    ((λ key id e. g.0 key id (k key id e)), (HasId-Keeps st1 st2 pool g.0 has, g.1), g.2 ∙ mac)

Post-map :
    (P Q : InterfaceStatus → Type 0) (r : Outcome)
    → ((st : InterfaceStatus) → P st → Q st)
    → Post P r
    → Post Q r
Post-map P Q none f h = tt
Post-map P Q (some (p, st, some e)) f h = tt
Post-map P Q (some (p, st, none)) f h = f st h

and_note-Post :
    (P : InterfaceStatus → Type 0) (o : Option InterfaceStatus) (next : InterfaceStatus → Outcome)
    → ((st : InterfaceStatus) → o ≡ some st → Post P (next st))
    → Post P (and_note o next)
unfolding and_note
and_note-Post P none next h = tt
and_note-Post P (some st) next h = h st refl

module _ (vpp_agent entity_name : Text) where
  set_known-Post :
      (nums : List (Text × ℕ)) (p : Pools) (st : InterfaceStatus)
      → Post (Grown [] st) (set_known vpp_agent entity_name nums p st)
  unfolding set_known
  set_known-Post [] p st = ((λ k id e. e), tt, refl)
  set_known-Post ((pool, id) ∷ rest) p st =
      and_then-Post (Grown [] st) (set_address p pool vpp_agent entity_name id) st _
        (λ p' address. set_known-Post rest p' (add_address address st))

  allocate_new-Post :
      (fuel : ℕ) (pools : List Text) (p : Pools) (st : InterfaceStatus)
      → Post (Grown pools st) (allocate_new vpp_agent entity_name fuel pools p st)
  unfolding allocate_new
  allocate_new-Post fuel [] p st = ((λ k id e. e), tt, refl)
  allocate_new-Post fuel (pool ∷ rest) p st = elim (Option-cases (lookup pool (ids_of st))) [
    | inr (id, e) ↦
        rw (allocate_new, e)
          (Post-map (Grown rest st) (Grown (pool ∷ rest) st) _
            (λ st2 g. Grown-after pool rest st st st2 (λ k i h. h) (id, e) refl g)
            (allocate_new-Post fuel rest p st))
    | inl e ↦
        rw (allocate_new, e)
          (and_then-Post (Grown (pool ∷ rest) st)
            (allocate_address fuel p pool vpp_agent entity_name) st _
            (λ p' r.
              and_note-Post (Grown (pool ∷ rest) st) (note_id pool r.0 r.1 st) _ (λ st1 noted.
                let (keeps, has, mac) = note_id_lem pool r.0 r.1 st st1 e noted in
                Post-map (Grown rest st1) (Grown (pool ∷ rest) st) _
                  (λ st2 g. Grown-after pool rest st st1 st2 keeps has mac g)
                  (allocate_new-Post fuel rest p' st1))))
  ]

settle_mac_lem :
    (configured : Text) (st : InterfaceStatus) (mac : MacAddrAllocator)
    → let (st', mac') = settle_mac configured st mac in
      (ids_of st' ≡ ids_of st)
      × (st'.mac_address ≢ [])
      × (configured ≢ [] → st'.mac_address ≡ configured)
      × (configured ≡ [] → st.mac_address ≢ [] → (st'.mac_address ≡ st.mac_address) × (mac' ≡ mac))
unfolding settle_mac allocate_mac_addr format_mac_address
settle_mac_lem configured st mac =
    let c = text_eq_iff configured [] in
    let h = text_eq_iff st.mac_address [] in
    elim (Bool-cases (text_eq configured [])) [
      | inr e ↦ rw e (
        refl,
        (λ same. ground (arith, e, c.1 same)),
        (λ _. refl),
        (λ same. ground (arith, e, c.1 same)),
      )
      | inl e ↦ elim (Bool-cases (text_eq st.mac_address [])) [
        | inl e' ↦
            rw (e, e')
              (
                refl,
                (λ same. ground (arith, same)),
                (λ some. absurd (some (c.0 e))),
                (λ _ some. absurd (some (h.0 e'))),
              )
        | inr e' ↦
            rw (e, e')
              (
                refl,
                (λ same. ground (arith, e', h.1 same)),
                (λ some. absurd (some (c.0 e))),
                (λ _ _. (refl, refl)),
              )
      ]
    ]

pool_addresses-Post :
    (fuel : ℕ) (entity_name vpp_agent : Text) (i : Interface) (p : Pools) (st : InterfaceStatus)
    → Post (Grown i.ipam_pool_names st) (pool_addresses fuel entity_name vpp_agent i p st)
unfolding pool_addresses
pool_addresses-Post fuel entity_name vpp_agent i p st =
    let fresh = record st { ip_addresses = i.ip_addresses } in
    and_loop-Post (Grown [] fresh) (Grown i.ipam_pool_names st) _ _
      (set_known-Post vpp_agent entity_name (ids_of st) p fresh)
      (λ p1 st1 g.
        Post-map (Grown i.ipam_pool_names st1) (Grown i.ipam_pool_names st) _
          (λ st2 g'. ((λ k id e. g'.0 k id (g.0 k id e)), g'.1, g'.2 ∙ g.2))
          (allocate_new-Post vpp_agent entity_name fuel i.ipam_pool_names p1 st1))

module _ ⦃S : StatusStore⦄ where
  finish_status_lem :
      (parse_ip : Text → Option Ip) (entity_name vpp_agent name : Text) (mac : MacAddrAllocator)
      (r r' : Ram) (st : InterfaceStatus) (P : InterfaceStatus → Type 0) (o : Outcome)
      → Post P o
      → finish_status parse_ip entity_name vpp_agent name mac r o ≡ some (r', ok st)
      → P st × (r'.mac_addr_allocator ≡ mac)
  unfolding finish_status
  finish_status_lem parse_ip entity_name vpp_agent name mac r r' st P none h e =
      absurd (ground (arith, e))
  finish_status_lem parse_ip entity_name vpp_agent name mac r r' st P (some (p, st', some x)) h e =
      absurd (ground (arith, e))
  finish_status_lem parse_ip entity_name vpp_agent name mac r r' st P (some (p, st', none)) h e =
      elim (Option-cases (mark_addresses vpp_agent entity_name parse_ip st'.ip_addresses p)) [
        | inl n ↦ absurd (ground (arith, e, n))
        | inr (p', n) ↦
            let e' : some (settle name mac r p' st', ok st') ≡ some (r', ok st) = rw n at e in
            let same : st' ≡ st = cc e' in
            let ram : settle name mac r p' st' ≡ r' = cc e' in
            (subst P same h, ap (λ (x : Ram). x.mac_addr_allocator) (sym ram))
      ]

  -- When InitInterfaceStatus succeeds, the interface keeps the ids that it had in pools, and has an id
  -- in each pool of its configuration; it has a MAC address: that of its configuration if there is
  -- one, and otherwise the one that it had, if any, and then no address is taken from the allocator.
  pub init_interface_status_lem :
      (parse_ip : Text → Option Ip) (fuel : ℕ) (entity_name vpp_agent : Text) (i : Interface)
      (r r' : Ram) (st : InterfaceStatus)
      → init_interface_status parse_ip fuel entity_name vpp_agent i r ≡ some (r', ok st)
      → let old = existing_status (entity_interface_name i.parent i.name) vpp_agent r in
        Keeps old st
        × All (HasId st) i.ipam_pool_names
        × (st.mac_address ≢ [])
        × (i.mac_address ≢ [] → st.mac_address ≡ i.mac_address)
        × (i.mac_address ≡ []
            → old.mac_address ≢ []
            → (st.mac_address ≡ old.mac_address) × (r'.mac_addr_allocator ≡ r.mac_addr_allocator))
  unfolding init_interface_status
  init_interface_status_lem parse_ip fuel entity_name vpp_agent i r r' st h =
      let name = entity_interface_name i.parent i.name in
      let old = existing_status name vpp_agent r in
      let (st1, mac) = settle_mac i.mac_address old r.mac_addr_allocator in
      let (nums, there, given, held) = settle_mac_lem i.mac_address old r.mac_addr_allocator in
      let (grown, allocator) =
        finish_status_lem parse_ip entity_name vpp_agent name mac r r' st
          (Grown i.ipam_pool_names st1) _
          (pool_addresses-Post fuel entity_name vpp_agent i r.pools st1) h in
      (
        (λ k id e. grown.0 k id (ap (lookup k) nums ∙ e)),
        grown.1,
        (λ e. there (sym grown.2 ∙ e)),
        (λ c. grown.2 ∙ given c),
        (λ c o. let (m, a) = held c o in (grown.2 ∙ m, allocator ∙ a)),
      )
