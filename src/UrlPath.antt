-- ===== src/UrlPath.antt =====
-- utils/path.py, with the two uses of `str.split("/")` on request paths: the components of a path
-- (`[p for p in path.split("/") if p]`) and `"/".join(components)`. A text is the list of its code
-- points. The proofs are in the children.
mod Split
pub mod Normal
mod Tests
use starlite.Prelude.{
  ℕ, List, [], ◌∷◌, ◌++◌, Bool, true, false, not, ◌&&◌, keep, is_nil, nat_eq, if◌then◌else◌,
}
use starlite.Prelude.Text.{Text}

abbrev pub slash : ℕ
slash = b'/'

unfoldable pub is_slash : ℕ → Bool
is_slash c = nat_eq c slash

-- `text.lstrip("/")`
unfoldable pub strip_left : Text → Text
strip_left [] = []
strip_left (c ∷ cs) = let rest = strip_left cs in if is_slash c then rest else c ∷ cs

-- `text.rstrip("/")`
unfoldable pub strip_right : Text → Text
strip_right [] = []
strip_right (c ∷ cs) =
    let rest = strip_right cs in if is_slash c && is_nil rest then [] else c ∷ rest

-- `multi_slash_pattern.sub("/", text)`, where `after` says that the code point before is a slash
unfoldable pub collapse : Bool → Text → Text
collapse after [] = []
collapse after (c ∷ cs) =
    let rest = collapse (is_slash c) cs in if is_slash c && after then rest else c ∷ rest

unfoldable pub normalize_path : Text → Text
unfolding strip_left strip_right collapse
normalize_path path = collapse false (slash ∷ strip_right (strip_left path))

-- `text.split("/")`, its first part and the others
unfoldable pub split : Text → Text × List Text
split [] = ([], [])
split (c ∷ cs) =
    let (part, parts) = split cs in if is_slash c then ([], part ∷ parts) else (c ∷ part, parts)

abbrev pub is_filled : Text → Bool
is_filled part = not (is_nil part)

-- `[p for p in path.split("/") if p]`
unfoldable pub components : Text → List Text
unfolding split
components path = let (part, parts) = split path in keep is_filled (part ∷ parts)

-- the end of `"/".join`, from the second part on
unfoldable pub join_rest : List Text → Text
join_rest [] = []
join_rest (part ∷ parts) = slash ∷ part ++ join_rest parts

-- `"/".join(parts)`
unfoldable pub join : List Text → Text
unfolding join_rest
join [] = []
join (part ∷ parts) = part ++ join_rest parts

unfoldable pub join_paths : List Text → Text
unfolding normalize_path join
join_paths paths = normalize_path (join paths)
