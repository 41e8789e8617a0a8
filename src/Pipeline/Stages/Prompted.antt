-- ===== src/Pipeline/Stages/Prompted.antt =====
-- The prompts of `Review` and `reviewCore` of pipeline/stage_review.go: the data that the loader of
-- prompt_loader.go gets for them, with the rules of the languages.
pub mod Estimate
use agent_sets.Prelude.{List, Option, [], none, some, ◌∷◌}
use agent_sets.Pipeline.Rules.{load_language_rules, RuleDetector}
use agent_sets.Pipeline.Types.{FileChange, Call, FileContent}
use agent_sets.Domain.{PullRequest, CaseMap}
use agent_sets.Text.{join, Bytes, lit}
use agent_sets.Pipeline.Prompts.{
  rendered, prompt_error, PromptLibrary, PromptResult, PromptLoader, load_prompt,
}
use agent_sets.Pipeline.Stages.{loaded, load_failed, Loaded, Model}

-- What a template sees as the pull request, the changes and the context.
pub record StageValues (P : PromptLibrary) : Type 0 where
  pub pr_value : PullRequest → P.DataValue
  pub changes_value : List FileChange → P.DataValue
  pub context_value : List FileContent → P.DataValue

unfoldable pub get_result_format : Bytes
unfolding join
get_result_format =
    join
      (lit "{"
        ∷ lit "  \"comments\": ["
        ∷ lit "    {"
        ∷ lit "      \"path\": \"path/to/file.go\","
        ∷ lit "      \"line\": 42,"
        ∷ lit "      \"message\": \"Comment text...\","
        ∷ lit "      \"severity\": \"INFO|WARNING|CRITICAL|NIT\""
        ∷ lit "    }"
        ∷ lit "  ],"
        ∷ lit "  \"score\": 85,"
        ∷ lit "  \"summary\": \"Overall review summary...\""
        ∷ lit "}"
        ∷ [])
      (lit "\n")

unfoldable pub loaded_of : PromptResult → Loaded
loaded_of (rendered text) = loaded text
loaded_of (prompt_error err) = load_failed err

-- `content, err` of a rule
unfoldable pub rule_of : PromptResult → Option Bytes
rule_of (rendered text) = some text
rule_of (prompt_error err) = none

module _ (P : PromptLibrary) (V : StageValues P) (l : PromptLoader) where
  unfoldable pub base_data : PullRequest → List (Bytes × P.DataValue)
  base_data pr =
      (lit "PR", V.pr_value pr)
      ∷ (lit "ResultFormat", P.of_string get_result_format)
      ∷ (lit "Changes", V.changes_value [])
      ∷ (lit "Context", V.context_value [])
      ∷ []

  unfoldable pub core_data : PullRequest → Call → Bytes × Bytes → List (Bytes × P.DataValue)
  core_data pr c (rules, names) =
      (lit "PR", V.pr_value pr)
      ∷ (lit "ResultFormat", P.of_string get_result_format)
      ∷ (lit "Changes", V.changes_value c.changes)
      ∷ (lit "Context", V.context_value c.context)
      ∷ (lit "LanguageRules", P.of_string rules)
      ∷ (lit "Language", P.of_string names)
      ∷ []

  -- the prompt of a rule, which gets no data
  unfoldable pub load_rule : Bytes → Option Bytes
  unfolding rule_of load_prompt
  load_rule r = rule_of (load_prompt P l (P.join_path (lit "rules" ∷ r ∷ [])) [])

  unfoldable pub load_core : CaseMap → RuleDetector → Bytes → PullRequest → Call → Loaded
  unfolding loaded_of load_prompt core_data load_language_rules load_rule
  load_core u d template pr c =
      loaded_of
        (load_prompt P l template (core_data pr c (load_language_rules u d load_rule c.changes)))

  unfoldable pub load_base_prompt : Bytes → PullRequest → Loaded
  unfolding loaded_of load_prompt base_data
  load_base_prompt template pr = loaded_of (load_prompt P l template (base_data pr))

  -- `Stage3`, with these prompts
  unfoldable pub prompted : CaseMap → RuleDetector → Bytes → PullRequest → Model → Model
  unfolding load_core load_base_prompt
  prompted u d template pr m = record m {
    load_for = load_core u d template pr;
    load_base = load_base_prompt template pr;
  }
