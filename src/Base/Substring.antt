-- ===== src/Base/Substring.antt =====
-- The search for a text in a text (`in`).
use Prim.Native.Nat.{ℕ}
use mathlib.Core.Bool.{Bool, true, false, ◌&&◌, ◌||◌}
use mathlib.Core.List.{List, [], ◌∷◌}
use bitchchain.Base.Tests.{◌==◌}

-- `part in text`
unfoldable pub starts_with : List ℕ → List ℕ → Bool
starts_with [] s = true
starts_with (c ∷ cs) [] = false
starts_with (c ∷ cs) (d ∷ s) = (c == d) && starts_with cs s

unfoldable pub occurs_in : List ℕ → List ℕ → Bool
occurs_in term [] = starts_with term []
occurs_in term (c ∷ s) = starts_with term (c ∷ s) || occurs_in term s
