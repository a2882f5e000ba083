-- ===== src/Prelude/Text.antt =====
-- Text that the program walks, as the list of its code points.
use Prim.Native.Char.{code}
use Prim.Native.Nat.{ℕ}
use Prim.Native.String.{String}
use mathlib.Core.Bool.{Bool, true, false, ◌&&◌, ◌||◌}
use mathlib.Core.List.{List, [], ◌∷◌}
use starlite.Prelude.Tests.{nat_eq, leb, if◌then◌else◌}
use starlite.Prelude.Lists.{is_nil}

abbrev pub Text : Type 0
Text = List ℕ

abbrev pub codes : String → Text
codes String.[] = []
codes (String.◌∷◌ c s) = code c ∷ codes s

-- `text.startswith(prefix)`
abbrev pub starts_with : Text → Text → Bool
starts_with text [] = true
starts_with [] (p ∷ ps) = false
starts_with (c ∷ cs) (p ∷ ps) = nat_eq c p && starts_with cs ps

-- `text.split(sep)` at one code point, its first part and the others
unfoldable pub split_on : ℕ → Text → Text × List Text
split_on sep [] = ([], [])
split_on sep (c ∷ cs) =
    let (part, parts) = split_on sep cs in
    if nat_eq c sep then ([], part ∷ parts) else (c ∷ part, parts)

-- `chr(c).isspace()`
unfoldable pub is_space : ℕ → Bool
is_space c =
    (leb 9 c && leb c 13)
    || (leb 28 c && leb c 32)
    || nat_eq c 133
    || nat_eq c 160
    || nat_eq c 5760
    || (leb 8192 c && leb c 8202)
    || nat_eq c 8232
    || nat_eq c 8233
    || nat_eq c 8239
    || nat_eq c 8287
    || nat_eq c 12288

unfoldable pub strip_left : Text → Text
strip_left [] = []
strip_left (c ∷ cs) = let rest = strip_left cs in if is_space c then rest else c ∷ cs

unfoldable pub strip_right : Text → Text
strip_right [] = []
strip_right (c ∷ cs) =
    let rest = strip_right cs in if is_space c && is_nil rest then [] else c ∷ rest

-- `text.strip()`
unfoldable pub strip : Text → Text
unfolding strip_left strip_right is_space
strip text = strip_right (strip_left text)
