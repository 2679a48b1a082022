-- ===== src/Prelude/Trim.antt =====
-- strings.TrimSpace and strings.ToLower on ASCII texts.
use mathlib.Core.List.{[], ◌∷◌, reverse}
use mathlib.Core.Bool.{Bool, ◌&&◌, ◌||◌}
use Prim.Native.Nat.{ℕ, ◌+◌}
use ddbot_nexus.Prelude.Tests.{leb, ◌==◌, if◌then◌else◌}
use ddbot_nexus.Prelude.Texts.{Text}

unfoldable pub is_space : ℕ → Bool
is_space c = c == 32 || leb 9 c && leb c 13

unfoldable pub trim_left : Text → Text
unfolding is_space
trim_left [] = []
trim_left (c ∷ s) = let rest = trim_left s in if is_space c then rest else c ∷ s

unfoldable pub trim_space : Text → Text
unfolding trim_left
trim_space s = reverse (trim_left (reverse (trim_left s)))

unfoldable pub lower : ℕ → ℕ
lower c = if leb b'A' c && leb c b'Z' then c + 32 else c

unfoldable pub to_lower : Text → Text
unfolding lower
to_lower [] = []
to_lower (c ∷ s) = lower c ∷ to_lower s
