-- ===== src/Common/Texts.antt =====
-- Text: Go strings as native strings. `◌==◌` is Go's `==`; `text_le` is Go's `<=` on strings.
use Prim.Native.Char.{Char, code}
use Prim.Native.String.compare
use Prim.Native.String.{String, [], ◌∷◌, compare}
use mathlib.Core.Path.{◌≡◌, refl, ap, ◌∙◌}
use mathlib.Core.Logic.{◌⊎◌, inl, inr}
use mathlib.Core.Bool.{Bool, true, false}
use native.Mathlib.Omega.{arith}
use text.Mathlib.Text.{is_le}
use text.Mathlib.TextEquality.{codes_equal}
use rw_node_go.Common.Tests.{ltb, if◌then◌else◌}
pub use text.Mathlib.Text.{◌==◌}
pub use text.Mathlib.TextEquality.{eq_iff}
pub use text.Mathlib.TextPositions.{eq_refl}

unfoldable pub text_le : String → String → Bool
text_le s t = is_le (compare s t)

text_le-nil : (t : String) → text_le [] t ≡ true
unfolding text_le
text_le-nil [] = refl
text_le-nil (d ∷ t) = ap is_le (compare.nil-cons d t)

text_le-cons-nil : (c : Char) (s : String) → text_le (c ∷ s) [] ≡ false
unfolding text_le
text_le-cons-nil c s = ap is_le (compare.cons-nil c s)

text_le-cons :
    (c d : Char) (s t : String)
    → text_le (c ∷ s) (d ∷ t) ≡ (
        if ltb (code c) (code d)
        then true
        else if ltb (code d) (code c)
        then false
        else text_le s t)
unfolding text_le
text_le-cons c d s t = ap is_le (compare.cons-cons c d s t) ∙ ground arith

pub text_le_refl : (s : String) → text_le s s ≡ true
text_le_refl [] = text_le-nil []
text_le_refl (c ∷ s) = ground (arith, text_le-cons c c s s, text_le_refl s)

pub text_le_total : (s t : String) → (text_le s t ≡ true) ⊎ (text_le t s ≡ true)
text_le_total [] t = inl (text_le-nil t)
text_le_total (c ∷ s) [] = inr (text_le-nil (c ∷ s))
text_le_total (c ∷ s) (d ∷ t) =
    ground (arith, text_le-cons c d s t, text_le-cons d c t s, text_le_total s t)

pub text_le_trans : (s t u : String) → text_le s t ≡ true → text_le t u ≡ true → text_le s u ≡ true
text_le_trans [] t u p q = text_le-nil u
text_le_trans (c ∷ s) [] u p q = ground (arith, text_le-cons-nil c s)
text_le_trans (c ∷ s) (d ∷ t) [] p q = ground (arith, text_le-cons-nil d t)
text_le_trans (c ∷ s) (d ∷ t) (e ∷ u) p q =
    ground
      (arith, text_le-cons c d s t, text_le-cons d e t u, text_le-cons c e s u, text_le_trans s t u)

codes_eq : (c d : Char) → ltb (code c) (code d) ≡ false → ltb (code d) (code c) ≡ false → c ≡ d
codes_eq c d p q = codes_equal c d (ground arith)

pub text_le_antisymm : (s t : String) → text_le s t ≡ true → text_le t s ≡ true → s ≡ t
text_le_antisymm [] [] p q = refl
text_le_antisymm [] (d ∷ t) p q = ground (arith, text_le-cons-nil d t)
text_le_antisymm (c ∷ s) [] p q = ground (arith, text_le-cons-nil c s)
text_le_antisymm (c ∷ s) (d ∷ t) p q =
    ground (arith, text_le-cons c d s t, text_le-cons d c t s, text_le_antisymm s t, codes_eq c d)
