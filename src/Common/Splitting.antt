-- ===== src/Common/Splitting.antt =====
-- strings.Split and strings.TrimSpace on bytes. The separator is one byte, the only kind that the
-- programs split at; the spaces are those of ASCII.
use Prim.Native.Nat.{ℕ}
use mathlib.Core.Bool.{Bool, ◌&&◌, ◌||◌}
use mathlib.Core.List.{List, [], ◌∷◌}
use orbstrike.Common.Tests.{◌==◌, leb, if◌then◌else◌}
use orbstrike.Common.Texts.{Text}

-- The part before the first separator, and the others.
unfoldable pub cut_at : ℕ → Text → Text × List Text
cut_at sep [] = ([], [])
cut_at sep (c ∷ s) =
    let (part, parts) = cut_at sep s in if c == sep then ([], part ∷ parts) else (c ∷ part, parts)

unfoldable pub split : Text → ℕ → List Text
unfolding cut_at
split s sep = let (part, parts) = cut_at sep s in part ∷ parts

abbrev pub is_blank : ℕ → Bool
is_blank c = c == 32 || (leb 9 c && leb c 13)

unfoldable pub trim_left : Text → Text
trim_left [] = []
trim_left (c ∷ s) = let rest = trim_left s in if is_blank c then rest else c ∷ s

abbrev pub cons_right : ℕ → Text → Text
cons_right c [] = if is_blank c then [] else c ∷ []
cons_right c (d ∷ s) = c ∷ d ∷ s

unfoldable pub trim_right : Text → Text
trim_right [] = []
trim_right (c ∷ s) = cons_right c (trim_right s)

unfoldable pub trim_space : Text → Text
unfolding trim_left trim_right
trim_space s = trim_right (trim_left s)
