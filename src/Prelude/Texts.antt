-- ===== src/Prelude/Texts.antt =====
-- Equality of texts as a test. It is shut where proofs need no more than its two laws.
use Prim.Native.String.{String}
use mathlib.Core.Path.{◌≡◌}
use mathlib.Core.Logic.{◌↔◌}
use mathlib.Core.Bool.{Bool, true}
use text.Mathlib.Text.{◌==◌}
use text.Mathlib.TextEquality.{eq_iff}
use text.Mathlib.TextPositions.{eq_refl}

unfoldable pub same_text : String → String → Bool
same_text s t = s == t

pub same_text_iff : (s t : String) → (same_text s t ≡ true) ↔ (s ≡ t)
unfolding same_text
same_text_iff s t = eq_iff s t

pub same_text_refl : (s : String) → same_text s s ≡ true
unfolding same_text
same_text_refl s = eq_refl s
