-- ===== src/Pipeline/Rules/Names.antt =====
-- `filepath.Base`, `filepath.Ext` and `sort.Strings` of Go, with paths that are cut at slashes.
use agent_sets.Prelude.{
  List, Option, [], drop, if◌then◌else◌, none, not, some, suc, ◌&&◌, ◌==◌, ◌∷◌,
}
use agent_sets.Prelude.Sorting.{sort_by}
use agent_sets.Text.{Bytes, last_index, is_some}
use agent_sets.Domain.{is_empty}
use agent_sets.Pipeline.Chunks.{before}

unfoldable pub trim_slashes : Bytes → Bytes
unfolding is_empty
trim_slashes [] = []
trim_slashes (c ∷ s) =
    let rest = trim_slashes s in if is_empty rest && c == b'/' then [] else c ∷ rest

unfoldable pub last_part : Bytes → Bytes
unfolding last_index
last_part [] = b'/' ∷ []
last_part (c ∷ s) = elim (last_index (c ∷ s) b'/') [ none ↦ c ∷ s | some i ↦ drop (suc i) (c ∷ s) ]

unfoldable pub base_name : Bytes → Bytes
unfolding trim_slashes last_part
base_name [] = b'.' ∷ []
base_name (c ∷ s) = last_part (trim_slashes (c ∷ s))

unfoldable pub find_extension : Bytes → Option Bytes
unfolding last_index is_some
find_extension [] = none
find_extension (c ∷ s) = elim (find_extension s) [
  | some e ↦ some e
  | none ↦ if c == b'.' && not (is_some (last_index s b'/')) then some (c ∷ s) else none
]

unfoldable pub extension : Bytes → Bytes
unfolding find_extension
extension path = elim (find_extension path) [ none ↦ [] | some e ↦ e ]

unfoldable pub sort_strings : List Bytes → List Bytes
unfolding sort_by before
sort_strings = sort_by before
