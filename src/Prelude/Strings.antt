-- ===== src/Prelude/Strings.antt =====
-- The functions of package strings that the code calls, on byte strings.
use Prim.Native.Nat.{ℕ, ◌+◌}
use mathlib.Core.Path.{◌≡◌, refl}
use mathlib.Core.Bool.{Bool, true, false, ◌&&◌}
use mathlib.Core.List.{List, [], ◌∷◌}
use apminsight_server_sdk_go.Prelude.Tests.{Bytes, codes, leb, ◌==◌, if◌then◌else◌}

-- A byte joins the first part.
abbrev pub cons_head : ℕ → List Bytes → List Bytes
cons_head c [] = (c ∷ []) ∷ []
cons_head c (p ∷ ps) = (c ∷ p) ∷ ps

-- strings.Split at a separator of one byte
unfoldable pub split : ℕ → Bytes → List Bytes
split sep [] = [] ∷ []
split sep (c ∷ s) = let rest = split sep s in if c == sep then [] ∷ rest else cons_head c rest

-- strings.ToLower of one byte of ASCII
unfoldable pub lower : ℕ → ℕ
lower c = if leb b'A' c && leb c b'Z' then c + 32 else c

unfoldable pub to_lower : Bytes → Bytes
unfolding lower
to_lower [] = []
to_lower (c ∷ s) = lower c ∷ to_lower s

-- strings.HasPrefix(s, prefix)
unfoldable pub has_prefix : Bytes → Bytes → Bool
has_prefix s [] = true
has_prefix [] (p ∷ ps) = false
has_prefix (c ∷ s) (p ∷ ps) = c == p && has_prefix s ps

split_values :
    (split b'.' (codes "1.0.x") ≡ codes "1" ∷ codes "0" ∷ codes "x" ∷ [])
    × (split b'.' [] ≡ [] ∷ [])
    × (split b'.' (codes "a.") ≡ codes "a" ∷ [] ∷ [])
unfolding split
split_values = (refl, refl, refl)
