-- ===== src/Services/Verdicts.antt =====
-- How the checks of plugins/controller/networkservice.go compose: when a chain of checks finds no
-- error, and when it cannot panic.
use sfc_controller.Common.{
  ◌≡◌, ◌≢◌, ◌↔◌, ◌⊎◌, inl, inr, refl, Text, Bool, true, false, not, List, [], ◌∷◌, arith, All,
  text_eq, text_eq_iff, Bool-cases,
}
use sfc_controller.Services.{
  Verdict, panic, invalid, valid, Fault, ◌also◌, require, check_each, one_of,
}

infixr 4 ◌⨾◌
pub ◌⨾◌ : {A B C : Type 0} → A ↔ B → B ↔ C → A ↔ C
p ⨾ q = (λ a. q.0 (p.0 a), λ c. p.1 (q.1 c))

infixr 5 ◌and◌
pub ◌and◌ : {A A' B B' : Type 0} → A ↔ A' → B ↔ B' → (A × B) ↔ (A' × B')
p and q = (λ ab. (p.0 ab.0, q.0 ab.1), λ ab. (p.1 ab.0, q.1 ab.1))

pub All-iff :
    {A : Type 0} {P Q : A → Type 0} (xs : List A) → ((x : A) → P x ↔ Q x) → All P xs ↔ All Q xs
All-iff [] e = (λ h. h, λ h. h)
All-iff (x ∷ xs) e = e x and All-iff xs e

pub also_iff : (v w : Verdict) → ((v also w) ≡ valid) ↔ ((v ≡ valid) × (w ≡ valid))
unfolding ◌also◌
also_iff panic w = (λ e. cc, λ e. cc)
also_iff (invalid f) w = (λ e. cc, λ e. cc)
also_iff valid w = (λ e. (refl, e), λ e. e.1)

pub require_iff : (c : Bool) (f : Fault) → (require c f ≡ valid) ↔ (c ≡ true)
require_iff true f = (λ e. refl, λ e. refl)
require_iff false f = (λ e. cc, λ e. cc)

pub check_each_iff :
    {A : Type 0} (check : A → Verdict) (xs : List A)
    → (check_each check xs ≡ valid) ↔ All (λ x. check x ≡ valid) xs
unfolding check_each
check_each_iff check [] = (λ e. tt, λ e. refl)
check_each_iff check (x ∷ xs) =
    also_iff (check x) (check_each check xs) ⨾ ((λ e. e, λ e. e) and check_each_iff check xs)

-- One of the texts of a list.
abbrev pub IsOneOf : Text → List Text → Type 0
IsOneOf t [] = ⊥
IsOneOf t (s ∷ ss) = (t ≡ s) ⊎ IsOneOf t ss

pub one_of_iff : (t : Text) (ss : List Text) → (one_of t ss ≡ true) ↔ IsOneOf t ss
one_of_iff t [] = (λ e. absurd (ground (arith, e)), λ h. elim h [ ])
one_of_iff t (s ∷ ss) = elim (Bool-cases (text_eq t s)) [
  | inl e ↦ (λ h. inl ((text_eq_iff t s).0 e), λ h. rw e refl)
  | inr e ↦ (
    (λ h. inr ((one_of_iff t ss).0 (rw e at h))),
    (λ h. elim h [
      | inl same ↦ ground (arith, (text_eq_iff t s).1 same)
      | inr later ↦ rw e ((one_of_iff t ss).1 later)
    ]),
  )
]

pub not_empty_iff : (t : Text) → (not (text_eq t []) ≡ true) ↔ (t ≢ [])
not_empty_iff t = (
  λ e h. ground (arith, e, (text_eq_iff t []).1 h),
  λ h. elim (Bool-cases (text_eq t [])) [
    | inl e ↦ absurd (h ((text_eq_iff t []).0 e))
    | inr e ↦ rw e refl
  ],
)

-- Checks that do not panic.
abbrev pub NoPanic : Verdict → Type 0
NoPanic v = v ≢ panic

pub also-NoPanic : (v w : Verdict) → NoPanic v → (v ≡ valid → NoPanic w) → NoPanic (v also w)
unfolding ◌also◌
also-NoPanic panic w h k e = h refl
also-NoPanic (invalid f) w h k e = cc
also-NoPanic valid w h k e = k refl e

pub require-NoPanic : (c : Bool) (f : Fault) → NoPanic (require c f)
require-NoPanic true f e = cc
require-NoPanic false f e = cc

pub check_each-NoPanic :
    {A : Type 0} (check : A → Verdict) (xs : List A)
    → ((x : A) → NoPanic (check x))
    → NoPanic (check_each check xs)
unfolding check_each
check_each-NoPanic check [] h = λ e. cc
check_each-NoPanic check (x ∷ xs) h =
    also-NoPanic (check x) (check_each check xs) (h x) (λ e. check_each-NoPanic check xs h)
