-- ===== src/Router/Mounts.antt =====
-- The mount that a request goes to: the regular expression lists the mounts in the order of strings, and
-- the first one that the path starts with matches.
use starlite.Prelude.{string_Eq, nat_Eq, list_Eq}
use starlite.Prelude.Text.{Text}
use starlite.Trie.{Trie}
