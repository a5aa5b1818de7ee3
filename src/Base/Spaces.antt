-- ===== src/Base/Spaces.antt =====
-- `strings.TrimSpace` for the white space of ASCII.
use mathlib.Core.Bool.{Bool, ◌&&◌, ◌||◌}
use mathlib.Core.List.{[], ◌∷◌}
use Prim.Native.Nat.{ℕ}
use ahv_to_ove_operator.Base.Tests.{◌==◌, if◌then◌else◌}
use ahv_to_ove_operator.Base.Lists.{is_nil}
use ahv_to_ove_operator.Base.Texts.{Text}
use ahv_to_ove_operator.Base.Decimals.{is_space}

abbrev pub is_white : ℕ → Bool
is_white c = is_space c || c == b'\n'

-- `strings.TrimSpace`
unfoldable pub trim_start : Text → Text
trim_start [] = []
trim_start (c ∷ s) = let rest = trim_start s in if is_white c then rest else c ∷ s

unfoldable pub trim_end : Text → Text
trim_end [] = []
trim_end (c ∷ s) = let rest = trim_end s in if is_white c && is_nil rest then [] else c ∷ rest

unfoldable pub trim_space : Text → Text
trim_space s = trim_end (trim_start s)
