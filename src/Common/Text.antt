-- ===== src/Common/Text.antt =====
-- Go's functions on strings, for ASCII.
use Prim.Native.Nat.{ℕ, ◌+◌, ◌-◌}
use mathlib.Core.Bool.{Bool, true, false, not, ◌&&◌, ◌||◌}
use mathlib.Core.List.{List, [], ◌∷◌}
use ghost_cache.Common.Tests.{ltb, ◌==◌, if◌then◌else◌}
use ghost_cache.Common.Lists.{length}

-- `strings.ToUpper` and `strings.TrimSpace`, on ASCII.
unfoldable pub to_upper : List ℕ → List ℕ
to_upper [] = []
to_upper (c ∷ cs) = (if not (ltb c b'a') && not (ltb b'z' c) then c - 32 else c) ∷ to_upper cs

abbrev pub is_space : ℕ → Bool
is_space c = c == 32 || not (ltb c 9) && not (ltb 13 c)

unfoldable pub trim_left : List ℕ → List ℕ
trim_left [] = []
trim_left (c ∷ cs) = let rest = trim_left cs in if is_space c then rest else c ∷ cs

unfoldable pub trim_right : List ℕ → List ℕ
trim_right [] = []
trim_right (c ∷ cs) =
    let rest = trim_right cs in if length rest == 0 && is_space c then [] else c ∷ rest

unfoldable pub trim_space : List ℕ → List ℕ
trim_space cs = trim_right (trim_left cs)

-- `strings.ToLower`.
unfoldable pub to_lower : List ℕ → List ℕ
to_lower [] = []
to_lower (c ∷ cs) = (if not (ltb c b'A') && not (ltb b'Z' c) then c + 32 else c) ∷ to_lower cs

-- `strings.HasPrefix`.
unfoldable pub has_prefix : List ℕ → List ℕ → Bool
has_prefix text [] = true
has_prefix [] (p ∷ prefix) = false
has_prefix (c ∷ text) (p ∷ prefix) = c == p && has_prefix text prefix
