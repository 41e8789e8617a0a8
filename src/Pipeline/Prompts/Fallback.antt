-- ===== src/Pipeline/Prompts/Fallback.antt =====
-- prompt_loader.go: which file a prompt is from, and which data it gets.

use agent_sets.Prelude.{
  Bool-cases, List, Option, [], ap, if◌then◌else◌, inl, inr, none, refl, some, ◌++◌, ◌∙◌, ◌∷◌, ◌≡◌,
  ◌⊎◌,
}
use agent_sets.Text.Search.{equal_iff}
use agent_sets.Maps.Laws.{lookup-put}
use agent_sets.Text.{Bytes, equal, is_some, lit}
use agent_sets.Maps.{lookup}
use agent_sets.Pipeline.Prompts.{
  load, PromptLibrary, PromptLoader, PromptResult, try_paths, render_prompt, merge_over, read_text,
  not_there, read_failed, read_error, FileRead, candidates, merged_data, no_prompt,
}

module _ (P : PromptLibrary) where
  -- What a file at a path makes of a prompt, where it is there.
  abbrev pub Taken : PromptLoader → List (Bytes × P.DataValue) → Bytes → PromptResult → Type 0
  Taken l extra path r =
      ((content : Bytes) × (P.read_file path ≡ read_text content)
        × (r ≡ render_prompt P l content extra))
      ⊎ ((e : Bytes) × (P.read_file path ≡ read_failed e) × (r ≡ read_error P path e))

  -- The first path at which a file is there decides; without one it is what stands behind the loop.
  abbrev pub FirstTaken :
      PromptLoader → List (Bytes × P.DataValue) → PromptResult → List Bytes → PromptResult → Type 0
  FirstTaken l extra nothing [] r = r ≡ nothing
  FirstTaken l extra nothing (path ∷ paths) r =
      Taken l extra path r
      ⊎ (((e : Bytes) × (P.read_file path ≡ not_there e)) × FirstTaken l extra nothing paths r)

  FileRead-cases :
      (f : FileRead)
      → ((c : Bytes) × (f ≡ read_text c))
        ⊎ (((e : Bytes) × (f ≡ not_there e)) ⊎ ((e : Bytes) × (f ≡ read_failed e)))
  FileRead-cases (read_text c) = inl (c, refl)
  FileRead-cases (not_there e) = inr (inl (e, refl))
  FileRead-cases (read_failed e) = inr (inr (e, refl))

  try_paths-FirstTaken :
      (l : PromptLoader) (extra : List (Bytes × P.DataValue)) (nothing : PromptResult)
      (paths : List Bytes)
      → FirstTaken l extra nothing paths (try_paths P l extra paths nothing)
  unfolding try_paths
  try_paths-FirstTaken l extra nothing [] = refl
  try_paths-FirstTaken l extra nothing (path ∷ paths) = elim (FileRead-cases (P.read_file path)) [
    | inl (c, d) ↦ inl (inl (c, d, rw (try_paths, d) refl))
    | inr (inl (e, d)) ↦
        inr ((e, d), rw (try_paths, d) (try_paths-FirstTaken l extra nothing paths))
    | inr (inr (e, d)) ↦ inl (inr (e, d, rw (try_paths, d) refl))
  ]

pub lookup-merge_over :
    {V : Type 0} (j : Bytes) (extra base : List (Bytes × V))
    → lookup equal j (merge_over extra base)
      ≡ (if is_some (lookup equal j extra) then lookup equal j extra else lookup equal j base)
unfolding merge_over lookup is_some
lookup-merge_over j [] base = refl
lookup-merge_over j ((k, v) ∷ extra) base =
    lookup-put equal k j v (merge_over extra base) equal_iff ∙ elim (Bool-cases (equal j k)) [
      | inl e ↦ rw e refl
      | inr e ↦ rw e (lookup-merge_over j extra base)
    ]

chosen :
    {V : Type 0} (o base : Option V)
    → (if is_some o then (if is_some o then o else base) else none) ≡ o
unfolding is_some
chosen none base = refl
chosen (some v) base = refl

module _ (P : PromptLibrary) where
  -- The prompt for a project and a language is from the first of these files that is there: the
  -- project's file for the language, the project's default, the default for the language, the default of
  -- all; one that is there and cannot be read ends the search with its error. In the data that the
  -- prompt gets, what the caller gave under a name stands.
  pub load-FirstTaken :
      (quote : Bytes → Bytes) (l : PromptLoader) (project language : Bytes)
      (extra : List (Bytes × P.DataValue))
      → FirstTaken P l extra
          (no_prompt P quote project language)
          (P.join_path (l.base_dir ∷ project ∷ (language ++ lit ".md") ∷ [])
            ∷ P.join_path (l.base_dir ∷ project ∷ lit "default.md" ∷ [])
            ∷ P.join_path (l.base_dir ∷ lit "default" ∷ (language ++ lit ".md") ∷ [])
            ∷ P.join_path (l.base_dir ∷ lit "default" ∷ lit "default.md" ∷ [])
            ∷ [])
          (load P quote l project language extra)
        × ((j : Bytes)
            → (if is_some (lookup equal j extra)
                then lookup equal j (merged_data P l extra)
                else none)
              ≡ lookup equal j extra)
  unfolding load candidates merged_data is_some
  load-FirstTaken quote l project language extra = (
    try_paths-FirstTaken P l extra (no_prompt P quote project language)
        (candidates P l project language),
    λ j.
        ap (λ (o : Option P.DataValue). if is_some (lookup equal j extra) then o else none)
          (lookup-merge_over j extra _)
        ∙ chosen (lookup equal j extra) _,
  )
