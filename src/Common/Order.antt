-- ===== src/Common/Order.antt =====
-- The order of Go strings, byte by byte, and sorted lists of items by a text.
use mathlib.Core.Path.{◌≡◌, refl}
use mathlib.Core.Bool.{Bool, true, false}
use mathlib.Core.List.{[], ◌∷◌}
use native.Mathlib.Omega.{arith}
use sfc_controller.Common.Tests.{ltb, ◌==◌, if◌then◌else◌}
use sfc_controller.Common.Texts.{Text}

-- s < t
unfoldable pub text_lt : Text → Text → Bool
text_lt [] [] = false
text_lt [] (b ∷ t) = true
text_lt (a ∷ s) [] = false
text_lt (a ∷ s) (b ∷ t) = if a == b then text_lt s t else ltb a b

pub text_lt_irrefl : (s : Text) → text_lt s s ≡ false
unfolding text_lt
text_lt_irrefl [] = refl
text_lt_irrefl (a ∷ s) = ground (arith, text_lt_irrefl s)

pub text_lt_asym : (s t : Text) → text_lt s t ≡ true → text_lt t s ≡ false
unfolding text_lt
text_lt_asym [] [] h = refl
text_lt_asym [] (b ∷ t) h = refl
text_lt_asym (a ∷ s) [] h = ground (arith, h)
text_lt_asym (a ∷ s) (b ∷ t) h = ground (arith, h, text_lt_asym s t)

-- t ≤ s and s ≤ t
pub text_lt_antisym : (s t : Text) → text_lt s t ≡ false → text_lt t s ≡ false → s ≡ t
unfolding text_lt
text_lt_antisym [] [] h k = refl
text_lt_antisym [] (b ∷ t) h k = ground (arith, h)
text_lt_antisym (a ∷ s) [] h k = ground (arith, k)
text_lt_antisym (a ∷ s) (b ∷ t) h k = ground (arith, h, k, text_lt_antisym s t)

-- s ≤ t and t ≤ u
pub text_le_trans : (s t u : Text) → text_lt t s ≡ false → text_lt u t ≡ false → text_lt u s ≡ false
unfolding text_lt
text_le_trans [] t [] h k = refl
text_le_trans [] t (c ∷ u) h k = refl
text_le_trans (a ∷ s) [] u h k = ground (arith, h)
text_le_trans (a ∷ s) (b ∷ t) [] h k = ground (arith, k)
text_le_trans (a ∷ s) (b ∷ t) (c ∷ u) h k = ground (arith, h, k, text_le_trans s t u)
