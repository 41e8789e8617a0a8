-- ===== src/Pipeline/Rules.antt =====
-- stage_review.go, the rules that a prompt gets, and helpers.go, the language of the files. A compiled
-- regular expression is the test that it makes of a line, and the maps of the detector are lists in the
-- order in which they are visited.
pub mod Names
pub mod Detected
pub mod Order
pub mod Sorted
use agent_sets.Prelude.{
  Bool, List, Option, [], false, if◌then◌else◌, ltb, none, some, suc, true, ℕ, ◌&&◌, ◌++◌, ◌∷◌,
}
use agent_sets.Text.{Bytes, lit, has_prefix, equal, join}
use agent_sets.Maps.{put, lookup}
use agent_sets.Domain.{CaseMap}
use agent_sets.Pipeline.Types.{FileChange}
use agent_sets.Client.Tools.{has_name}
use agent_sets.Pipeline.Rules.Names.{base_name, extension, sort_strings}

pub record RuleDetector : Type 0 where
  pub ext_rules : List (Bytes × Bytes)
  pub filename_rules : List (Bytes × Bytes)
  pub content_rules : List (Bytes × (Bytes → Bool))

abbrev cpp : Bytes
cpp = lit "cpp"

abbrev py : Bytes
py = lit "py"

unfoldable pub new_rule_detector : (Bytes → Bool) → (Bytes → Bool) → RuleDetector
new_rule_detector sql_pattern k8s_pattern = record {
  ext_rules =
      (lit ".cpp", cpp)
      ∷ (lit ".cxx", cpp)
      ∷ (lit ".cc", cpp)
      ∷ (lit ".c", cpp)
      ∷ (lit ".h", cpp)
      ∷ (lit ".hpp", cpp)
      ∷ (lit ".hxx", cpp)
      ∷ (lit ".inc", cpp)
      ∷ (lit ".go", lit "go")
      ∷ (lit ".py", py)
      ∷ (lit ".pyi", py)
      ∷ (lit ".pyw", py)
      ∷ (lit ".sql", lit "sql")
      ∷ (lit ".java", lit "java")
      ∷ [];
  filename_rules = (lit "Dockerfile", lit "docker") ∷ [];
  content_rules = (lit "sql", sql_pattern) ∷ (lit "k8s", k8s_pattern) ∷ [];
}

-- `detected[rule] = true`
unfoldable pub mark_rule : Bytes → List Bytes → List Bytes
unfolding has_name
mark_rule rule ds = if has_name rule ds then ds else rule ∷ ds

unfoldable pub detect_filename : Bytes → List (Bytes × Bytes) → List Bytes → List Bytes
unfolding mark_rule has_prefix
detect_filename base [] ds = ds
detect_filename base ((prefix, rule) ∷ rules) ds =
    detect_filename base rules (if has_prefix base prefix then mark_rule rule ds else ds)

unfoldable pub detect_extension : Option Bytes → List Bytes → List Bytes
unfolding mark_rule
detect_extension none ds = ds
detect_extension (some rule) ds = mark_rule rule ds

-- the loop over the added lines
unfoldable pub matches_added : (Bytes → Bool) → List Bytes → Bool
unfolding has_prefix
matches_added pattern [] = false
matches_added pattern (hunk ∷ hunks) =
    let rest = matches_added pattern hunks in
    if has_prefix hunk (lit "+") && pattern hunk then true else rest

unfoldable pub detect_content : List Bytes → List (Bytes × (Bytes → Bool)) → List Bytes → List Bytes
unfolding mark_rule matches_added has_name
detect_content hunks [] ds = ds
detect_content hunks ((rule, pattern) ∷ rules) ds =
    detect_content hunks rules (
      if has_name rule ds
      then ds
      else if matches_added pattern hunks
      then mark_rule rule ds
      else ds)

module _ (u : CaseMap) where
  unfoldable pub detect_change : RuleDetector → FileChange → List Bytes → List Bytes
  unfolding detect_filename detect_extension detect_content lookup base_name extension
  detect_change d file ds = detect_content file.hunk_lines d.content_rules (
      detect_extension (lookup equal (u.to_lower (extension file.path)) d.ext_rules)
        (detect_filename (base_name file.path) d.filename_rules ds))

  unfoldable pub detect_changes : RuleDetector → List FileChange → List Bytes → List Bytes
  unfolding detect_change
  detect_changes d [] ds = ds
  detect_changes d (file ∷ changes) ds = detect_changes d changes (detect_change d file ds)

  unfoldable pub detect : RuleDetector → List FileChange → List Bytes
  unfolding detect_changes sort_strings
  detect d changes = sort_strings (detect_changes d changes [])

-- What `LoadPrompt` gives for a rule; a rule without a prompt is left out.
unfoldable pub rule_texts : (Bytes → Option Bytes) → List Bytes → Bytes
rule_texts load_rule [] = []
rule_texts load_rule (r ∷ rules) =
    let rest = rule_texts load_rule rules in
    elim (load_rule r) [ none ↦ rest | some content ↦ content ++ (lit "\n\n" ++ rest) ]

unfoldable pub rules_and_names : (Bytes → Option Bytes) → List Bytes → Bytes × Bytes
unfolding rule_texts join
rules_and_names load_rule [] = ([], [])
rules_and_names load_rule (r ∷ rules) = (
  lit "## Domain Specific Rules\n\n" ++ rule_texts load_rule (r ∷ rules),
  join (r ∷ rules) (lit ", "),
)

unfoldable pub load_language_rules :
    CaseMap → RuleDetector → (Bytes → Option Bytes) → List FileChange → Bytes × Bytes
unfolding rules_and_names detect
load_language_rules u d load_rule changes = rules_and_names load_rule (detect u d changes)

abbrev language_extensions : List (Bytes × Bytes)
language_extensions =
    (lit ".cpp", cpp)
    ∷ (lit ".cc", cpp)
    ∷ (lit ".cxx", cpp)
    ∷ (lit ".c", cpp)
    ∷ (lit ".h", cpp)
    ∷ (lit ".hpp", cpp)
    ∷ (lit ".hxx", cpp)
    ∷ (lit ".go", lit "golang")
    ∷ (lit ".py", lit "python")
    ∷ (lit ".java", lit "java")
    ∷ (lit ".ts", lit "typescript")
    ∷ (lit ".tsx", lit "typescript")
    ∷ (lit ".js", lit "javascript")
    ∷ (lit ".jsx", lit "javascript")
    ∷ (lit ".rs", lit "rust")
    ∷ (lit ".kt", lit "kotlin")
    ∷ (lit ".kts", lit "kotlin")
    ∷ (lit ".swift", lit "swift")
    ∷ (lit ".rb", lit "ruby")
    ∷ (lit ".cs", lit "csharp")
    ∷ []

unfoldable pub count_language : Option Bytes → List (Bytes × ℕ) → List (Bytes × ℕ)
unfolding put lookup
count_language none counts = counts
count_language (some lang) counts =
    put equal lang (elim (lookup equal lang counts) [ none ↦ 1 | some n ↦ suc n ]) counts

unfoldable pub count_languages : CaseMap → List Bytes → List (Bytes × ℕ) → List (Bytes × ℕ)
unfolding count_language lookup extension
count_languages u [] counts = counts
count_languages u (file ∷ files) counts =
    count_languages u files
      (count_language (lookup equal (u.to_lower (extension file)) language_extensions) counts)

-- The loop over the counts, in the order in which the map is visited.
unfoldable pub max_language : List (Bytes × ℕ) → Bytes → ℕ → Bytes
max_language [] best n = best
max_language ((lang, count) ∷ counts) best n =
    if ltb n count then max_language counts lang count else max_language counts best n

-- `visit` is the order in which the map of the counts is visited.
unfoldable pub detect_language :
    CaseMap → (List (Bytes × ℕ) → List (Bytes × ℕ)) → List Bytes → Bytes
unfolding count_languages max_language
detect_language u visit files = max_language (visit (count_languages u files [])) (lit "default") 0

-- `values_at` gives the texts of what a path of gjson leads to in a JSON text; the reply is the answer of
-- the server, marshalled, if there is one.
unfoldable pub fetch_changed_files : (Bytes → Bytes → List Bytes) → Option Bytes → List Bytes
fetch_changed_files values_at none = []
fetch_changed_files values_at (some json) = elim (values_at json (lit "values.#.path.name")) [
  | [] ↦ values_at json (lit "values.#.path.toString")
  | f ∷ fs ↦ f ∷ fs
]
