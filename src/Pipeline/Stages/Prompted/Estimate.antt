-- ===== src/Pipeline/Stages/Prompted/Estimate.antt =====
-- The prompt by which the size of a review is estimated, and the prompt that is sent.

use agent_sets.Prelude.{
  Bool-cases, List, Option, [], ap, false, if◌then◌else◌, inl, inr, none, refl, some, subst, sym,
  true, ◌++◌, ◌∙◌, ◌∷◌, ◌≡◌,
}
use agent_sets.Pipeline.Stages.{Model}
use agent_sets.Pipeline.Rules.{detect, load_language_rules, RuleDetector, rules_and_names, detect}
use agent_sets.Pipeline.Prompts.Fallback.{lookup-merge_over}
use agent_sets.Text.Search.{equal_iff}
use agent_sets.Maps.{lookup, put}
use agent_sets.Text.{Bytes, equal, lit, is_some, trim_suffix}
use agent_sets.Domain.{PullRequest, CaseMap}
use agent_sets.Pipeline.Types.{Call}
use agent_sets.Pipeline.Stages.Prompted.{
  StageValues, base_data, core_data, prompted, load_core, load_base_prompt, loaded_of, load_rule,
}
use agent_sets.Pipeline.Prompts.{
  PromptLibrary, PromptLoader, merged_data, string_at, merge_over, data_entries,
  enrich_from_raw_schema, load_prompt, of_prompt_file, render_prompt, read_text, new_prompt_data,
}

module _ (P : PromptLibrary) (V : StageValues P) (l : PromptLoader) where
  -- The data of the prompt that is sent, by those of the estimate: the entries that differ.
  abbrev pub Differs :
      Call → Bytes × Bytes → List (Bytes × P.DataValue) → List (Bytes × P.DataValue) → Type 0
  Differs c (rules, names) base sent =
      (j : Bytes)
      → lookup equal j sent ≡ (
          if equal j (lit "LanguageRules")
          then some (P.of_string rules)
          else if equal j (lit "Language")
          then some (P.of_string names)
          else if equal j (lit "Changes")
          then some (V.changes_value c.changes)
          else if equal j (lit "Context")
          then some (V.context_value c.context)
          else lookup equal j base)

  -- what is said of one name
  abbrev Entry : Call → Bytes × Bytes → PullRequest → Bytes → Type 0
  Entry c (rules, names) pr j =
      lookup equal j (merged_data P l (core_data P V l pr c (rules, names))) ≡ (
        if equal j (lit "LanguageRules")
        then some (P.of_string rules)
        else if equal j (lit "Language")
        then some (P.of_string names)
        else if equal j (lit "Changes")
        then some (V.changes_value c.changes)
        else if equal j (lit "Context")
        then some (V.context_value c.context)
        else lookup equal j (merged_data P l (base_data P V l pr)))

  at_name :
      (c : Call) (texts : Bytes × Bytes) (pr : PullRequest) (k j : Bytes)
      → Entry c texts pr k
      → equal j k ≡ true
      → Entry c texts pr j
  at_name c texts pr k j there e = subst (Entry c texts pr) (sym ((equal_iff j k).0 e)) there

  at_rules :
      (c : Call) (texts : Bytes × Bytes) (pr : PullRequest) → Entry c texts pr (lit "LanguageRules")
  unfolding merged_data base_data core_data string_at lookup equal merge_over put
  at_rules c (rules, names) pr = refl

  at_language :
      (c : Call) (texts : Bytes × Bytes) (pr : PullRequest) → Entry c texts pr (lit "Language")
  unfolding merged_data base_data core_data string_at lookup equal merge_over put
  at_language c (rules, names) pr = refl

  at_changes :
      (c : Call) (texts : Bytes × Bytes) (pr : PullRequest) → Entry c texts pr (lit "Changes")
  unfolding merged_data base_data core_data string_at lookup equal merge_over put
  at_changes c (rules, names) pr = refl

  at_context :
      (c : Call) (texts : Bytes × Bytes) (pr : PullRequest) → Entry c texts pr (lit "Context")
  unfolding merged_data base_data core_data string_at lookup equal merge_over put
  at_context c (rules, names) pr = refl

  other_names :
      (pr : PullRequest) (c : Call) (texts : Bytes × Bytes) (j : Bytes)
      → equal j (lit "LanguageRules") ≡ false
      → equal j (lit "Language") ≡ false
      → equal j (lit "Changes") ≡ false
      → equal j (lit "Context") ≡ false
      → lookup equal j (core_data P V l pr c texts) ≡ lookup equal j (base_data P V l pr)
  unfolding base_data core_data lookup
  other_names pr c (rules, names) j a b d e = rw (a, b, d, e) refl

  -- the entries behind those of the caller
  abbrev preset : List (Bytes × P.DataValue)
  preset = data_entries P (enrich_from_raw_schema l.provider new_prompt_data)

  at_other :
      (pr : PullRequest) (c : Call) (texts : Bytes × Bytes) (j : Bytes)
      → lookup equal j (core_data P V l pr c texts) ≡ lookup equal j (base_data P V l pr)
      → lookup equal j (merged_data P l (core_data P V l pr c texts))
        ≡ lookup equal j (merged_data P l (base_data P V l pr))
  unfolding merged_data base_data core_data string_at lookup equal
  at_other pr c (rules, names) j same =
      lookup-merge_over j (core_data P V l pr c (rules, names)) preset
      ∙ ap (λ (o : Option P.DataValue). if is_some o then o else lookup equal j preset) same
      ∙ sym (lookup-merge_over j (base_data P V l pr) preset)

  merged-Differs :
      (pr : PullRequest) (c : Call) (texts : Bytes × Bytes)
      → Differs c texts
          (merged_data P l (base_data P V l pr))
          (merged_data P l (core_data P V l pr c texts))
  merged-Differs pr c (rules, names) j = elim (Bool-cases (equal j (lit "LanguageRules"))) [
    | inl a ↦ at_name c (rules, names) pr _ j (at_rules c (rules, names) pr) a
    | inr a ↦ elim (Bool-cases (equal j (lit "Language"))) [
      | inl b ↦ at_name c (rules, names) pr _ j (at_language c (rules, names) pr) b
      | inr b ↦ elim (Bool-cases (equal j (lit "Changes"))) [
        | inl d ↦ at_name c (rules, names) pr _ j (at_changes c (rules, names) pr) d
        | inr d ↦ elim (Bool-cases (equal j (lit "Context"))) [
          | inl e ↦ at_name c (rules, names) pr _ j (at_context c (rules, names) pr) e
          | inr e ↦
              rw (a, b, d, e)
                (at_other pr c (rules, names) j (other_names pr c (rules, names) j a b d e))
        ]
      ]
    ]
  ]

  rules_missing :
      (pr : PullRequest)
      → (lookup equal (lit "LanguageRules") (merged_data P l (base_data P V l pr)) ≡ none)
        × (lookup equal (lit "Language") (merged_data P l (base_data P V l pr)) ≡ none)
  unfolding merged_data base_data string_at lookup equal merge_over put data_entries
      enrich_from_raw_schema
  rules_missing pr = (refl, refl)

  -- Where the prompt file of the third stage is there, the prompt by which a review is estimated and the
  -- prompt that is sent are the template on two maps. The estimate has no rules and no names of rules; what
  -- is sent has the prompts of the rules that are detected in the changes and their names, the changes and
  -- the context, and under every other name what the estimate has.
  pub prompted-Differs :
      (u : CaseMap) (d : RuleDetector) (template content : Bytes) (pr : PullRequest) (m : Model)
      (c : Call)
      → P.read_file
          (P.join_path (l.base_dir ∷ (trim_suffix template (lit ".md") ++ lit ".md") ∷ []))
        ≡ read_text content
      → let stage = prompted P V l u d template pr m in
        (base : List (Bytes × P.DataValue)) × (sent : List (Bytes × P.DataValue)) × (stage.load_base
          ≡ loaded_of (P.execute_template content base))
        × (stage.load_for c ≡ loaded_of (P.execute_template content sent))
        × (lookup equal (lit "LanguageRules") base ≡ none)
        × (lookup equal (lit "Language") base ≡ none)
        × Differs c (rules_and_names (load_rule P V l) (detect u d c.changes)) base sent
  unfolding prompted load_core load_base_prompt load_prompt of_prompt_file render_prompt
      load_language_rules
  prompted-Differs u d template content pr m c there =
      let texts = load_language_rules u d (load_rule P V l) c.changes in
      let (no_rules, no_names) = rules_missing pr in
      (
        merged_data P l (base_data P V l pr),
        merged_data P l (core_data P V l pr c texts),
        rw there refl,
        rw there refl,
        no_rules,
        no_names,
        merged-Differs pr c texts,
      )
