-- ===== src/UrlPath/Tests.antt =====
-- Runs of the functions on paths, and the theorems at concrete paths.
use starlite.Prelude.{[], ◌∷◌, ◌≡◌, refl, nat_Eq}
use starlite.Prelude.Text.{codes}
use starlite.UrlPath.{slash, is_slash, normalize_path, join, join_paths}
use starlite.UrlPath.Normal.{all_components, join_paths-eq-join}

normalize_run : normalize_path (codes "a//b/") ≡ codes "/a/b"
unfolding normalize_path is_slash
normalize_run = refl

join_run : join_paths (codes "/a/" ∷ codes "" ∷ codes "b//c" ∷ []) ≡ codes "/a/b/c"
unfolding join_paths is_slash
join_run = refl

join_paths-eq-join_example :
    join_paths (codes "/a/" ∷ codes "" ∷ codes "b//c" ∷ [])
    ≡ slash ∷ join (all_components (codes "/a/" ∷ codes "" ∷ codes "b//c" ∷ []))
join_paths-eq-join_example = join_paths-eq-join (codes "/a/" ∷ codes "" ∷ codes "b//c" ∷ [])
