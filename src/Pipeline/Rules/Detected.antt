-- ===== src/Pipeline/Rules/Detected.antt =====
-- stage_review.go: which rules `Detect` gives.
use agent_sets.Prelude.{
  Bool, Bool-cases, List, Occurs, Option, [], ap, arith, false, if◌then◌else◌, inl, inr, none,
  none-ne-some, refl, some, some-inj, subst, sym, true, ◌&&◌, ◌↔◌, ◌∙◌, ◌∷◌, ◌≡◌, ◌⊎◌,
}
use agent_sets.Text.Search.{equal_iff}
use agent_sets.Text.{Bytes, lit, has_prefix, equal}
use agent_sets.Maps.{lookup}
use agent_sets.Domain.{CaseMap}
use agent_sets.Pipeline.Types.{FileChange}
use agent_sets.Client.Tools.{has_name}
use agent_sets.Pipeline.Rules.Names.{base_name, extension}
use agent_sets.Pipeline.Rules.{
  RuleDetector, mark_rule, detect_filename, matches_added, detect_extension, detect_content,
}

-- A file that starts with a prefix of the detector; an extension of it; or an added line that its test of
-- the rule accepts.
abbrev pub ByName : Bytes → List (Bytes × Bytes) → Bytes → Type 0
ByName base rules r = (p : Bytes) × Occurs (p, r) rules × (has_prefix base p ≡ true)

abbrev pub ByLine : List Bytes → List (Bytes × (Bytes → Bool)) → Bytes → Type 0
ByLine hunks rules r =
    (test : Bytes → Bool) × Occurs (r, test) rules
    × ((hunk : Bytes) × Occurs hunk hunks × (has_prefix hunk (lit "+") ≡ true) × (test hunk ≡ true))

abbrev pub Triggers : CaseMap → RuleDetector → FileChange → Bytes → Type 0
Triggers u d file r =
    ByName (base_name file.path) d.filename_rules r
    ⊎ ((lookup equal (u.to_lower (extension file.path)) d.ext_rules ≡ some r)
        ⊎ ByLine file.hunk_lines d.content_rules r)

pub has_name_iff : (r : Bytes) (ds : List Bytes) → (has_name r ds ≡ true) ↔ Occurs r ds
unfolding has_name
has_name_iff r [] = (λ h. ground (arith, h), λ h. absurd h)
has_name_iff r (x ∷ ds) = elim (Bool-cases (equal r x)) [
  | inl e ↦ rw e (λ h. inl ((equal_iff r x).0 e), λ h. refl)
  | inr e ↦ rw e (
    λ h. inr ((has_name_iff r ds).0 h),
    λ h. elim h [
      | inl same ↦ absurd (ground (arith, sym e ∙ (equal_iff r x).1 same))
      | inr later ↦ (has_name_iff r ds).1 later
    ],
  )
]

Occurs-mark_rule :
    (r q : Bytes) (ds : List Bytes) → Occurs r (mark_rule q ds) ↔ ((r ≡ q) ⊎ Occurs r ds)
unfolding mark_rule
Occurs-mark_rule r q ds = elim (Bool-cases (has_name q ds)) [
  | inl e ↦ rw e (
    λ h. inr h,
    λ h. elim h [
      | inl same ↦ subst (λ (x : Bytes). Occurs x ds) (sym same) ((has_name_iff q ds).0 e)
      | inr there ↦ there
    ],
  )
  | inr e ↦ rw e (λ h. h, λ h. h)
]

-- A rule that is marked where a test holds.
Occurs-mark_if :
    (r q : Bytes) (b : Bool) (ds : List Bytes)
    → Occurs r (if b then mark_rule q ds else ds) ↔ (Occurs r ds ⊎ ((r ≡ q) × (b ≡ true)))
Occurs-mark_if r q true ds = (
  λ h. elim ((Occurs-mark_rule r q ds).0 h) [ inl same ↦ inr (same, refl) | inr there ↦ inl there ],
  λ h. (Occurs-mark_rule r q ds).1 (elim h [ inl there ↦ inr there | inr (same, k) ↦ inl same ]),
)
Occurs-mark_if r q false ds =
    (λ h. inl h, λ h. elim h [ inl there ↦ there | inr (same, k) ↦ absurd (ground (arith, k)) ])

Occurs-mark_new :
    (r q : Bytes) (b : Bool) (ds : List Bytes)
    → Occurs r (if has_name q ds then ds else if b then mark_rule q ds else ds)
      ↔ (Occurs r ds ⊎ ((r ≡ q) × (b ≡ true)))
Occurs-mark_new r q b ds = elim (Bool-cases (has_name q ds)) [
  | inl e ↦ rw e (
    λ h. inl h,
    λ h. elim h [
      | inl there ↦ there
      | inr (same, k) ↦ subst (λ (x : Bytes). Occurs x ds) (sym same) ((has_name_iff q ds).0 e)
    ],
  )
  | inr e ↦ rw e (Occurs-mark_if r q b ds)
]

pub Occurs-detect_filename :
    (r base : Bytes) (rules : List (Bytes × Bytes)) (ds : List Bytes)
    → Occurs r (detect_filename base rules ds) ↔ (Occurs r ds ⊎ ByName base rules r)
unfolding detect_filename
Occurs-detect_filename r base [] ds =
    (λ h. inl h, λ h. elim h [ inl there ↦ there | inr (p, o, k) ↦ absurd o ])
Occurs-detect_filename r base ((p, q) ∷ rules) ds =
    let marked = Occurs-mark_if r q (has_prefix base p) ds in
    let step =
      Occurs-detect_filename r base rules (if has_prefix base p then mark_rule q ds else ds) in
    (
      λ h. elim (step.0 h) [
        | inr (x, o, k) ↦ inr (x, inr o, k)
        | inl m ↦ elim (marked.0 m) [
          | inl there ↦ inl there
          | inr (same, k) ↦ inr (p, inl (ap (λ (z : Bytes). (p, z)) same), k)
        ]
      ],
      λ h. step.1 (elim h [
        | inl there ↦ inl (marked.1 (inl there))
        | inr (x, o, k) ↦ elim o [
          | inl same ↦ inl (
              marked.1 (
                inr (
                  ap (λ (z : Bytes × Bytes). z.1) same,
                  ap (λ (z : Bytes × Bytes). has_prefix base z.0) (sym same) ∙ k,
                )))
          | inr later ↦ inr (x, later, k)
        ]
      ]),
    )

matches_added_iff :
    (test : Bytes → Bool) (hunks : List Bytes)
    → (matches_added test hunks ≡ true) ↔ (
        (hunk : Bytes) × Occurs hunk hunks
        × (has_prefix hunk (lit "+") ≡ true)
        × (test hunk ≡ true))
unfolding matches_added
matches_added_iff test [] = (λ h. ground (arith, h), λ (hunk, o, a, b). absurd o)
matches_added_iff test (x ∷ hunks) = elim (Bool-cases (has_prefix x (lit "+") && test x)) [
  | inl e ↦
      rw e (
        λ h. let (a, b) = both (has_prefix x (lit "+")) (test x) e in (x, inl refl, a, b),
        λ h. refl,
      )
  | inr e ↦ rw e (
    λ h. let (y, o, a, b) = (matches_added_iff test hunks).0 h in (y, inr o, a, b),
    λ (y, o, a, b). elim o [
      | inl same ↦ absurd (
          ground (
            arith,
            sym e
                ∙ together x (ap (λ (z : Bytes). has_prefix z (lit "+")) (sym same) ∙ a)
                    (ap test (sym same) ∙ b),
          ))
      | inr later ↦ (matches_added_iff test hunks).1 (y, later, a, b)
    ],
  )
]
  where
    both : (a b : Bool) → (a && b) ≡ true → (a ≡ true) × (b ≡ true)
    both a b h = ground (arith, h)

    together :
        (z : Bytes)
        → has_prefix z (lit "+") ≡ true
        → test z ≡ true
        → (has_prefix z (lit "+") && test z) ≡ true
    together z a b = rw (a, b) refl

pub Occurs-detect_extension :
    (r : Bytes) (o : Option Bytes) (ds : List Bytes)
    → Occurs r (detect_extension o ds) ↔ (Occurs r ds ⊎ (o ≡ some r))
unfolding detect_extension
Occurs-detect_extension r none ds =
    (λ h. inl h, λ h. elim h [ inl there ↦ there | inr k ↦ absurd (none-ne-some r k) ])
Occurs-detect_extension r (some q) ds = (
  λ h. elim ((Occurs-mark_rule r q ds).0 h) [
    | inl same ↦ inr (ap some (sym same))
    | inr there ↦ inl there
  ],
  λ h.
      (Occurs-mark_rule r q ds).1
        (elim h [ inl there ↦ inr there | inr k ↦ inl (sym (some-inj q r k)) ]),
)

pub Occurs-detect_content :
    (r : Bytes) (hunks : List Bytes) (rules : List (Bytes × (Bytes → Bool))) (ds : List Bytes)
    → Occurs r (detect_content hunks rules ds) ↔ (Occurs r ds ⊎ ByLine hunks rules r)
unfolding detect_content
Occurs-detect_content r hunks [] ds =
    (λ h. inl h, λ h. elim h [ inl there ↦ there | inr (p, o, k) ↦ absurd o ])
Occurs-detect_content r hunks ((q, test) ∷ rules) ds =
    let marked = Occurs-mark_new r q (matches_added test hunks) ds in
    let step =
      Occurs-detect_content r hunks rules
        (if has_name q ds then ds else if matches_added test hunks then mark_rule q ds else ds) in
    (
      λ h. elim (step.0 h) [
        | inr (x, o, k) ↦ inr (x, inr o, k)
        | inl m ↦ elim (marked.0 m) [
          | inl there ↦ inl there
          | inr (same, k) ↦
              inr
                (test, inl (ap (λ (z : Bytes). (z, test)) same), (matches_added_iff test hunks).0 k)
        ]
      ],
      λ h. step.1 (elim h [
        | inl there ↦ inl (marked.1 (inl there))
        | inr (x, o, k) ↦ elim o [
          | inl same ↦ inl (
              marked.1 (
                inr (
                  ap (λ (z : Bytes × (Bytes → Bool)). z.0) same,
                  ap (λ (z : Bytes × (Bytes → Bool)). matches_added z.1 hunks) (sym same)
                      ∙ (matches_added_iff x hunks).1 k,
                )))
          | inr later ↦ inr (x, later, k)
        ]
      ]),
    )
