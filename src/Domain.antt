-- ===== src/Domain.antt =====
-- internal/domain: the data that the components share.
pub mod Paths
use agent_sets.Prelude.{
  Bool, List, Option, [], if◌then◌else◌, length, ltb, none, not, some, take, ◌&&◌, ◌++◌, ◌||◌, ◌∷◌,
}
use agent_sets.Prelude.Int.{pos, ℤ}
use agent_sets.Text.{Bytes, lit, equal}
use agent_sets.Text.Trim.{trim_space}

pub record PullRequest : Type 0 where
  pub id : Bytes
  pub project_key : Bytes
  pub repo_slug : Bytes
  pub title : Bytes
  pub description : Bytes
  pub author : Bytes
  pub latest_commit : Bytes
  pub web_url : Bytes

unfoldable pub is_empty : Bytes → Bool
unfolding equal
is_empty s = equal s []

unfoldable pub pr_is_valid : PullRequest → Bool
unfolding is_empty
pr_is_valid pr =
    not (is_empty pr.id) && not (is_empty pr.project_key) && not (is_empty pr.repo_slug)

pub record ReviewComment : Type 0 where
  pub file : Bytes
  pub line : ℤ
  pub comment : Bytes
  pub severity : Bytes
  pub marker : Bytes

-- What the two attempts of `json.Unmarshal` give, and the value before.
unfoldable pub unmarshal_line : Option ℤ → Option (List ℤ) → ℤ → ℤ
unmarshal_line (some single) arr l = single
unmarshal_line none (some (first ∷ rest)) l = first
unmarshal_line none (some []) l = pos 0
unmarshal_line none none l = l

-- The case mappings of package strings.
pub record CaseMap : Type 0 where
  pub to_lower : Bytes → Bytes
  pub to_upper : Bytes → Bytes

module _ (u : CaseMap) where
  unfoldable pub fingerprint : ReviewComment → Bytes
  fingerprint c =
      let content = u.to_lower (trim_space c.comment) in
      let head = if ltb 50 (length content) then take 50 content else content in
      c.file ++ (b':' ∷ head)

  unfoldable pub is_high_severity : Bytes → Bool
  is_high_severity severity =
      let s = u.to_upper severity in equal s (lit "CRITICAL") || equal s (lit "WARNING")

pub record ReviewResult : Type 0 where
  pub comments : List ReviewComment
  pub score : ℤ
  pub summary : Bytes
  pub model : Bytes
