-- ===== src/Common/Maps.antt =====
-- Go maps with string keys, as association lists. Iteration takes the entries in the order of
-- the list; statements quantify over every list, hence over every order of iteration.
use mathlib.Core.Path.{◌≡◌, refl, subst}
use mathlib.Core.Logic.{inl, inr}
use mathlib.Core.Bool.{Bool, true, false}
use mathlib.Core.List.{List, [], ◌∷◌}
use mathlib.Core.Option.{Option, none, some}
use native.Mathlib.Omega.{arith}
use sfc_controller.Common.Tests.{if◌then◌else◌, Bool-cases}
use sfc_controller.Common.Texts.{Text, text_eq, text_eq_iff}

abbrev pub Map {ℓ} : Type ℓ → Type ℓ
Map V = List (Text × V)

module _ {ℓ} {V : Type ℓ} where
  -- v, exists := m[k]
  unfoldable pub lookup : Text → Map V → Option V
  lookup k [] = none
  lookup k ((j, v) ∷ m) = if text_eq j k then some v else lookup k m

  -- m[k] = v
  unfoldable pub insert : Text → V → Map V → Map V
  insert k v [] = (k, v) ∷ []
  insert k v ((j, w) ∷ m) = if text_eq j k then (k, v) ∷ m else (j, w) ∷ insert k v m

  -- delete(m, k)
  unfoldable pub erase : Text → Map V → Map V
  erase k [] = []
  erase k ((j, w) ∷ m) = let rest = erase k m in if text_eq j k then rest else (j, w) ∷ rest

  -- _, exists := m[k]
  unfoldable pub has : Text → Map V → Bool
  unfolding lookup
  has k m = elim (lookup k m) [ none ↦ false | some v ↦ true ]

  pub lookup-empty : (k : Text) → lookup k [] ≡ none
  unfolding lookup
  lookup-empty k = refl

  pub lookup-cons :
      (k j : Text) (v : V) (m : Map V)
      → lookup k ((j, v) ∷ m) ≡ (if text_eq j k then some v else lookup k m)
  unfolding lookup
  lookup-cons k j v m = refl

  pub lookup-insert :
      (k j : Text) (v : V) (m : Map V)
      → lookup j (insert k v m) ≡ (if text_eq k j then some v else lookup j m)
  unfolding lookup insert
  lookup-insert k j v [] = refl
  lookup-insert k j v ((i, w) ∷ m) =
      ground (arith, text_eq_iff k j, text_eq_iff i k, text_eq_iff i j, lookup-insert k j v m)

  pub lookup-erase :
      (k j : Text) (m : Map V) → lookup j (erase k m) ≡ (if text_eq k j then none else lookup j m)
  unfolding lookup erase
  lookup-erase k j [] = ground arith
  lookup-erase k j ((i, w) ∷ m) =
      ground (arith, text_eq_iff k j, text_eq_iff i k, text_eq_iff i j, lookup-erase k j m)

  pub has-lookup : (k : Text) (m : Map V) (v : V) → lookup k m ≡ some v → has k m ≡ true
  unfolding has
  has-lookup k m v h = rw (h, has)

  -- Each key stands once, as in a Go map.
  abbrev pub IsMap : Map V → Type ℓ
  IsMap [] = Unit
  IsMap ((k, v) ∷ m) = (lookup k m ≡ none) × IsMap m

  pub insert-IsMap : (k : Text) (v : V) (m : Map V) → IsMap m → IsMap (insert k v m)
  unfolding lookup insert
  insert-IsMap k v [] h = (refl, tt)
  insert-IsMap k v ((j, w) ∷ m) h = elim (Bool-cases (text_eq j k)) [
    | inl e ↦ rw e (let e' : j ≡ k = (text_eq_iff j k).0 e in (rw (← e') h.0, h.1))
    | inr e ↦ rw e (
      (let s = lookup-insert k j v m in ground (arith, s, h.0, text_eq_iff k j, text_eq_iff j k)),
      insert-IsMap k v m h.1,
    )
  ]

  pub erase-IsMap : (k : Text) (m : Map V) → IsMap m → IsMap (erase k m)
  unfolding erase
  erase-IsMap k [] h = tt
  erase-IsMap k ((j, w) ∷ m) h = elim (Bool-cases (text_eq j k)) [
    | inl e ↦ rw e (erase-IsMap k m h.1)
    | inr e ↦ rw e (ground (arith, lookup-erase k j m, h.0), erase-IsMap k m h.1)
  ]

-- What holds of each entry of the list, and of each entry that a lookup finds.
module _ {ℓ κ} {V : Type ℓ} (P : Text → V → Type κ) where
  abbrev pub AllEntries : Map V → Type κ
  AllEntries [] = Unit
  AllEntries ((k, v) ∷ m) = P k v × AllEntries m

  pub AllEntries-lookup :
      (m : Map V) (k : Text) (v : V) → AllEntries m → lookup k m ≡ some v → P k v
  unfolding lookup
  AllEntries-lookup [] k v h e = absurd (ground (arith, e))
  AllEntries-lookup ((j, w) ∷ m) k v h e = elim (Bool-cases (text_eq j k)) [
    | inl c ↦
        let same : w ≡ v = ground (arith, e, c) in
        subst (λ i. P i v) ((text_eq_iff j k).0 c) (subst (P j) same h.0)
    | inr c ↦ AllEntries-lookup m k v h.1 (ground (arith, e, c))
  ]

  pub lookup-AllEntries :
      (m : Map V) → IsMap m → ((k : Text) (v : V) → lookup k m ≡ some v → P k v) → AllEntries m
  unfolding lookup
  lookup-AllEntries [] h f = tt
  lookup-AllEntries ((j, w) ∷ m) h f = (
    f j w (ground (arith, (text_eq_iff j j).1 refl)),
    lookup-AllEntries m h.1 (λ k v e. f k v (elim (Bool-cases (text_eq j k)) [
      | inl c ↦
          let gone : lookup k m ≡ none = rw ((text_eq_iff j k).0 c) at h.0 in
          absurd (ground (arith, gone, e))
      | inr c ↦ ground (arith, e, c)
    ])),
  )
