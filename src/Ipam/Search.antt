-- ===== src/Ipam/Search.antt =====
-- The two loops of AllocateIPAddress end within their fuel, at the first free id.
use sfc_controller.Common.{
  ℕ, zero, suc, ◌+◌, ◌%◌, ◌^◌, ◌≤◌, ◌<◌, ◌≡◌, ◌⊎◌, inl, inr, true, false, Option, none, some, List,
  arith, ltb, leb, ◌==◌, ==_iff, Bool-cases,
}
use sfc_controller.Common.Sets.{member}
use sfc_controller.Ipam.{scan_up, scan_below}

abbrev pub AllTaken : List ℕ → ℕ → ℕ → Type 0
AllTaken taken lo hi = (i : ℕ) → lo ≤ i → i < hi → member i taken ≡ true

-- The outcome of a search of the ids from `lo` up to `hi`, which is left out.
abbrev pub Searched : List ℕ → ℕ → ℕ → Option (Option ℕ) → Type 0
Searched taken lo hi o =
    ((o ≡ some none) × AllTaken taken lo hi)
    ⊎ ((r : ℕ) × (o ≡ some (some r))
        × (lo ≤ r)
        × (r < hi)
        × (member r taken ≡ false)
        × AllTaken taken lo r)

module _ (taken : List ℕ) where
  AllTaken-from :
      (lo hi : ℕ) → member lo taken ≡ true → AllTaken taken (lo + 1) hi → AllTaken taken lo hi
  AllTaken-from lo hi m all i p q = elim (Bool-cases (i == lo)) [
    | inl here ↦ rw ((==_iff i lo).0 here) m
    | inr above ↦ all i (ground arith) q
  ]

  later :
      (lo hi : ℕ) (o : Option (Option ℕ))
      → member lo taken ≡ true
      → Searched taken (lo + 1) hi o
      → Searched taken lo hi o
  later lo hi o m (inl (e, all)) = inl (e, AllTaken-from lo hi m all)
  later lo hi o m (inr (r, e, p, q, free, all)) =
      inr (r, e, omega arith, q, free, AllTaken-from lo r m all)

  scan_up_next :
      (fuel last id : ℕ)
      → id ≤ last
      → last + 1 < 2 ^ 32
      → member id taken ≡ true
      → scan_up (suc fuel) taken last id ≡ scan_up fuel taken last (id + 1)
  unfolding scan_up
  scan_up_next fuel last id p fits m =
      let e : (id + 1) % 2 ^ 32 ≡ id + 1 = omega arith in ground (arith, e)

  pub scan_up_lem :
      (fuel last id : ℕ)
      → last + 1 < 2 ^ 32
      → id ≤ last + 1
      → last + 1 < fuel + id
      → Searched taken id (last + 1) (scan_up fuel taken last id)
  scan_up_lem zero last id fits p q = absurd (omega arith)
  scan_up_lem (suc fuel) last id fits p q = elim (Bool-cases (ltb last id)) [
    | inl past ↦ inl (unfold scan_up in rw past, λ i lo hi. absurd (ground arith))
    | inr inside ↦ elim (Bool-cases (member id taken)) [
      | inl m ↦ rw (scan_up_next fuel last id (ground arith) fits m) (
          later id (last + 1) (scan_up fuel taken last (id + 1)) m
            (scan_up_lem fuel last (id + 1) fits (ground arith) (omega arith)))
      | inr m ↦ inr (
        id,
        unfold scan_up in rw (inside, m),
        omega arith,
        ground arith,
        m,
        λ i lo hi. absurd (omega arith),
      )
    ]
  ]

  scan_below_next :
      (fuel stop id : ℕ)
      → id < stop
      → stop < 2 ^ 32
      → member id taken ≡ true
      → scan_below (suc fuel) taken stop id ≡ scan_below fuel taken stop (id + 1)
  unfolding scan_below
  scan_below_next fuel stop id p fits m =
      let e : (id + 1) % 2 ^ 32 ≡ id + 1 = omega arith in ground (arith, e)

  pub scan_below_lem :
      (fuel stop id : ℕ)
      → stop < 2 ^ 32
      → id ≤ stop
      → stop < fuel + id
      → Searched taken id stop (scan_below fuel taken stop id)
  scan_below_lem zero stop id fits p q = absurd (omega arith)
  scan_below_lem (suc fuel) stop id fits p q = elim (Bool-cases (leb stop id)) [
    | inl past ↦ inl (unfold scan_below in rw past, λ i lo hi. absurd (ground arith))
    | inr inside ↦ elim (Bool-cases (member id taken)) [
      | inl m ↦ rw (scan_below_next fuel stop id (ground arith) fits m) (
          later id stop (scan_below fuel taken stop (id + 1)) m
            (scan_below_lem fuel stop (id + 1) fits (ground arith) (omega arith)))
      | inr m ↦ inr (
        id,
        unfold scan_below in rw (inside, m),
        omega arith,
        ground arith,
        m,
        λ i lo hi. absurd (omega arith),
      )
    ]
  ]
