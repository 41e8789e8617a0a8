-- ===== src/Pipeline/Rules/Sorted.antt =====
-- stage_review.go: the list that `Detect` gives.
use agent_sets.Prelude.{
  Bool, Bool-cases, List, Occurs, Option, [], arith, false, if◌then◌else◌, inl, inr, none, refl,
  some, subst, sym, true, ◌↔◌, ◌∙◌, ◌∷◌, ◌⊎◌,
}
use agent_sets.Pipeline.Chunks.{before}
use agent_sets.Prelude.Sorting.{Occurs-sort_by}
use agent_sets.Text.{Bytes, has_prefix, equal}
use agent_sets.Maps.{lookup}
use agent_sets.Domain.{CaseMap}
use agent_sets.Pipeline.Types.{FileChange}
use agent_sets.Client.Tools.{has_name}
use agent_sets.Pipeline.Rules.Names.{base_name, extension, sort_strings}
use agent_sets.Pipeline.Rules.Order.{NoneTwice, Ascending, sort_strings-Ascending}
use agent_sets.Pipeline.Rules.{
  RuleDetector, mark_rule, detect_filename, detect_extension, matches_added, detect_content,
  detect_change, detect_changes, detect,
}
use agent_sets.Pipeline.Rules.Detected.{
  Triggers, has_name_iff, Occurs-detect_filename, Occurs-detect_extension, Occurs-detect_content,
}

mark_rule-NoneTwice : (q : Bytes) (ds : List Bytes) → NoneTwice ds → NoneTwice (mark_rule q ds)
unfolding mark_rule
mark_rule-NoneTwice q ds h = elim (Bool-cases (has_name q ds)) [
  | inl e ↦ rw e h
  | inr e ↦ rw e (λ o. ground (arith, sym e ∙ (has_name_iff q ds).1 o), h)
]

mark_if-NoneTwice :
    (b : Bool) (q : Bytes) (ds : List Bytes)
    → NoneTwice ds
    → NoneTwice (if b then mark_rule q ds else ds)
mark_if-NoneTwice true q ds h = mark_rule-NoneTwice q ds h
mark_if-NoneTwice false q ds h = h

detect_filename-NoneTwice :
    (base : Bytes) (rules : List (Bytes × Bytes)) (ds : List Bytes)
    → NoneTwice ds
    → NoneTwice (detect_filename base rules ds)
unfolding detect_filename
detect_filename-NoneTwice base [] ds h = h
detect_filename-NoneTwice base ((p, q) ∷ rules) ds h =
    detect_filename-NoneTwice base rules _ (mark_if-NoneTwice (has_prefix base p) q ds h)

detect_extension-NoneTwice :
    (o : Option Bytes) (ds : List Bytes) → NoneTwice ds → NoneTwice (detect_extension o ds)
unfolding detect_extension
detect_extension-NoneTwice none ds h = h
detect_extension-NoneTwice (some q) ds h = mark_rule-NoneTwice q ds h

keep_if-NoneTwice :
    (known b : Bool) (q : Bytes) (ds : List Bytes)
    → NoneTwice ds
    → NoneTwice (if known then ds else if b then mark_rule q ds else ds)
keep_if-NoneTwice true b q ds h = h
keep_if-NoneTwice false b q ds h = mark_if-NoneTwice b q ds h

detect_content-NoneTwice :
    (hunks : List Bytes) (rules : List (Bytes × (Bytes → Bool))) (ds : List Bytes)
    → NoneTwice ds
    → NoneTwice (detect_content hunks rules ds)
unfolding detect_content
detect_content-NoneTwice hunks [] ds h = h
detect_content-NoneTwice hunks ((q, test) ∷ rules) ds h =
    detect_content-NoneTwice hunks rules _
      (keep_if-NoneTwice (has_name q ds) (matches_added test hunks) q ds h)

module _ (u : CaseMap) (d : RuleDetector) where
  Occurs-detect_change :
      (r : Bytes) (file : FileChange) (ds : List Bytes)
      → Occurs r (detect_change u d file ds) ↔ (Occurs r ds ⊎ Triggers u d file r)
  unfolding detect_change
  Occurs-detect_change r file ds =
      let named = detect_filename (base_name file.path) d.filename_rules ds in
      let by_ext = lookup equal (u.to_lower (extension file.path)) d.ext_rules in
      let content =
        Occurs-detect_content r file.hunk_lines d.content_rules (detect_extension by_ext named) in
      let ext = Occurs-detect_extension r by_ext named in
      let name = Occurs-detect_filename r (base_name file.path) d.filename_rules ds in
      (
        λ h. elim (content.0 h) [
          | inr line ↦ inr (inr (inr line))
          | inl m ↦ elim (ext.0 m) [
            | inr k ↦ inr (inr (inl k))
            | inl n ↦ elim (name.0 n) [ inl there ↦ inl there | inr p ↦ inr (inl p) ]
          ]
        ],
        λ h. content.1 (elim h [
          | inl there ↦ inl (ext.1 (inl (name.1 (inl there))))
          | inr t ↦ elim t [
            | inl p ↦ inl (ext.1 (inl (name.1 (inr p))))
            | inr v ↦ elim v [ inl k ↦ inl (ext.1 (inr k)) | inr line ↦ inr line ]
          ]
        ]),
      )

  Occurs-detect_changes :
      (r : Bytes) (changes : List FileChange) (ds : List Bytes)
      → Occurs r (detect_changes u d changes ds)
        ↔ (Occurs r ds ⊎ ((file : FileChange) × Occurs file changes × Triggers u d file r))
  unfolding detect_changes
  Occurs-detect_changes r [] ds =
      (λ h. inl h, λ h. elim h [ inl there ↦ there | inr (file, o, t) ↦ absurd o ])
  Occurs-detect_changes r (c ∷ changes) ds =
      let one = Occurs-detect_change r c ds in
      let step = Occurs-detect_changes r changes (detect_change u d c ds) in
      (
        λ h. elim (step.0 h) [
          | inr (file, o, t) ↦ inr (file, inr o, t)
          | inl m ↦ elim (one.0 m) [ inl there ↦ inl there | inr t ↦ inr (c, inl refl, t) ]
        ],
        λ h. step.1 (elim h [
          | inl there ↦ inl (one.1 (inl there))
          | inr (file, o, t) ↦ elim o [
            | inl same ↦ inl (one.1 (inr (subst (λ (x : FileChange). Triggers u d x r) same t)))
            | inr later ↦ inr (file, later, t)
          ]
        ]),
      )

  detect_changes-NoneTwice :
      (changes : List FileChange) (ds : List Bytes)
      → NoneTwice ds
      → NoneTwice (detect_changes u d changes ds)
  unfolding detect_changes detect_change
  detect_changes-NoneTwice [] ds h = h
  detect_changes-NoneTwice (c ∷ changes) ds h =
      let by_ext = lookup equal (u.to_lower (extension c.path)) d.ext_rules in
      let named = detect_filename (base_name c.path) d.filename_rules ds in
      detect_changes-NoneTwice changes (detect_change u d c ds) (
        detect_content-NoneTwice c.hunk_lines d.content_rules (detect_extension by_ext named) (
          detect_extension-NoneTwice by_ext named
            (detect_filename-NoneTwice (base_name c.path) d.filename_rules ds h)))

  -- The rules that are detected are those that a file triggers by its name, by its extension or by an
  -- added line; they are sorted and none is there twice, so they do not depend on the order in which the
  -- maps of the detector are visited.
  pub detect_iff :
      (changes : List FileChange)
      → ((r : Bytes)
          → Occurs r (detect u d changes)
            ↔ ((file : FileChange) × Occurs file changes × Triggers u d file r))
        × Ascending (detect u d changes)
  unfolding detect sort_strings
  detect_iff changes = (
    λ r.
        let all = Occurs-detect_changes r changes [] in
        let sorted = Occurs-sort_by before r (detect_changes u d changes []) in
        (
          λ h. elim (all.0 (sorted.0 h)) [ inl empty ↦ absurd empty | inr t ↦ t ],
          λ t. sorted.1 (all.1 (inr t)),
        ),
    sort_strings-Ascending (detect_changes u d changes []) (detect_changes-NoneTwice changes [] tt),
  )
