-- ===== src/Common/Text.antt =====
-- Go strings as their runes, and the functions of package strings that the code calls on them.
use Prim.Native.Nat.{ℕ}
use mathlib.Core.Path.{◌≡◌, refl}
use native.Mathlib.Omega.{arith}
use mathlib.Core.Bool.{Bool, true, false, ◌&&◌, ◌||◌}
use mathlib.Core.List.{List, [], ◌∷◌}
use sobhemessenger.Common.Tests.{◌==◌, leb, if◌then◌else◌}

abbrev pub Runes : Type 0
Runes = List ℕ

abbrev pub is_empty : Runes → Bool
is_empty [] = true
is_empty _ = false

abbrev pub is_equal : Runes → Runes → Bool
is_equal [] [] = true
is_equal (a ∷ s) (b ∷ t) = (a == b) && is_equal s t
is_equal _ _ = false

pub is_equal_refl : (s : Runes) → is_equal s s ≡ true
is_equal_refl [] = refl
is_equal_refl (c ∷ s) = ground (arith, is_equal_refl s)

abbrev pub is_between : ℕ → ℕ → ℕ → Bool
is_between low high c = leb low c && leb c high

-- `unicode.IsSpace`
unfoldable pub is_space : ℕ → Bool
is_space c =
    is_between 9 13 c
    || c == 32
    || c == 133
    || c == 160
    || c == 5760
    || is_between 8192 8202 c
    || c == 8232
    || c == 8233
    || c == 8239
    || c == 8287
    || c == 12288

unfoldable pub trim_left : Runes → Runes
unfolding is_space
trim_left [] = []
trim_left (c ∷ s) = let rest = trim_left s in if is_space c then rest else c ∷ s

unfoldable pub trim_right : Runes → Runes
unfolding is_space
trim_right [] = []
trim_right (c ∷ s) = let rest = trim_right s in if is_empty rest && is_space c then [] else c ∷ rest

-- `strings.TrimSpace`
unfoldable pub trim_space : Runes → Runes
unfolding trim_left trim_right
trim_space s = trim_right (trim_left s)
