-- ===== src/Domain/Paths.antt =====
-- internal/domain/path.go
use agent_sets.Prelude.{List, [], ◌∷◌}
use agent_sets.Text.{Bytes, lit, replace_all, trim_prefix}

abbrev pub prefixes : List Bytes
prefixes =
    lit "a/"
    ∷ lit "b/"
    ∷ lit "src://trunk/"
    ∷ lit "dst://trunk/"
    ∷ lit "src/trunk/"
    ∷ lit "dst/trunk/"
    ∷ lit "src://"
    ∷ lit "dst://"
    ∷ lit "trunk/"
    ∷ []

-- the loop over the prefixes
unfoldable pub strip_prefixes : List Bytes → Bytes → Bytes
strip_prefixes [] path = path
strip_prefixes (p ∷ ps) path = strip_prefixes ps (trim_prefix path p)

unfoldable pub normalize_path : Bytes → Bytes
normalize_path path = strip_prefixes prefixes (replace_all path (lit "\\") (lit "/"))
