-- ===== src/Base/Texts.antt =====
-- Texts as lists of numbers (bytes or code points, as the part of the program says).
use Prim.Native.Nat.{ℕ}
use mathlib.Core.Path.{◌≡◌, refl}
use mathlib.Core.Bool.{Bool, true, false, ◌&&◌}
use mathlib.Core.Logic.{◌↔◌}
use mathlib.Core.List.{List, [], ◌∷◌}
use native.Mathlib.Omega.{arith}
use lusbip.Base.Tests.{◌==◌}

abbrev pub Text : Type 0
Text = List ℕ

-- `==` on strings.
unfoldable pub text_eq : Text → Text → Bool
text_eq (c ∷ cs) (d ∷ ds) = c == d && text_eq cs ds
text_eq (c ∷ cs) [] = false
text_eq [] (d ∷ ds) = false
text_eq [] [] = true

pub text_eq_refl : (s : Text) → text_eq s s ≡ true
unfolding text_eq
text_eq_refl (c ∷ cs) = ground (arith, text_eq_refl cs)
text_eq_refl [] = refl

pub text_eq_sound : (s t : Text) → text_eq s t ≡ true → s ≡ t
unfolding text_eq
text_eq_sound (c ∷ cs) (d ∷ ds) h = ground (arith, text_eq_sound cs ds)
text_eq_sound (c ∷ cs) [] h = cc
text_eq_sound [] (d ∷ ds) h = cc
text_eq_sound [] [] h = refl

pub text_eq_iff : (s t : Text) → (text_eq s t ≡ true) ↔ (s ≡ t)
text_eq_iff s t = (text_eq_sound s t, λ e. ground (arith, text_eq_refl s))
