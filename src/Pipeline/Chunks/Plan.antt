-- ===== src/Pipeline/Chunks/Plan.antt =====
-- The chunks hold every group once, in order, and keep the limit.

use agent_sets.Prelude.{
  All, All-append, Bool-cases, List, [], ap, append-nil, append_assoc, arith, inl, inr, length, ltb,
  refl, subst, sym, total, total-append, ℕ, ◌++◌, ◌+◌, ◌<◌, ◌∙◌, ◌∷◌, ◌≡◌, ◌≤◌, ◌⊎◌,
}
use agent_sets.Text.Search.{equal_iff}
use agent_sets.Text.{equal, Bytes}
use agent_sets.Maps.Laws.{put-put}
use agent_sets.Pipeline.Types.{FileChange, FileContent}
use agent_sets.Pipeline.Chunks.{
  FileGroup, ChunkState, close_chunk, group_tokens, cleared, add_lone, add_group, add_groups,
  chunk_groups, clear_chunk, chunks_with, add_change, add_changes, plan, Groups, group_files,
}

abbrev pub joined : List (List FileGroup) → List FileGroup
joined [] = []
joined (c ∷ cs) = c ++ joined cs

joined-append : (cs ds : List (List FileGroup)) → joined (cs ++ ds) ≡ joined cs ++ joined ds
joined-append [] ds = refl
joined-append (c ∷ cs) ds = simp (joined-append cs ds, append_assoc)

abbrev held : ChunkState → List FileGroup
held st = joined st.chunks ++ st.current_chunk

joined_more :
    (cs : List (List FileGroup)) (c : List FileGroup) → joined (cs ++ c ∷ []) ≡ joined cs ++ c
joined_more cs c =
    joined-append cs (c ∷ []) ∙ ap (λ (l : List FileGroup). joined cs ++ l) (append-nil c)

joined-chunks_with :
    (cs : List (List FileGroup)) (c : List FileGroup) → joined (chunks_with cs c) ≡ joined cs ++ c
joined-chunks_with cs [] = sym (append-nil (joined cs))
joined-chunks_with cs (g ∷ gs) = joined_more cs (g ∷ gs)

joined-close_chunk : (st : ChunkState) → joined (close_chunk st) ≡ held st
unfolding close_chunk
joined-close_chunk st = joined-chunks_with st.chunks st.current_chunk

-- What stands in a chunk is within the limit, unless it is alone there.
abbrev pub Fits : ℕ → List FileGroup → Type 0
Fits available c = (0 < length c) × ((total group_tokens c ≤ available) ⊎ (length c ≡ 1))

module _ (available : ℕ) where
  -- the invariant of the loop
  record Kept (gs : List FileGroup) (st : ChunkState) : Type 0 where
    whole : held st ≡ gs
    fits : All (Fits available) st.chunks
    counted : total group_tokens st.current_chunk ≡ st.current_tokens
    within : st.current_tokens ≤ available

  chunks_with-Fits :
      (cs : List (List FileGroup)) (c : List FileGroup)
      → All (Fits available) cs
      → total group_tokens c ≤ available
      → All (Fits available) (chunks_with cs c)
  chunks_with-Fits cs [] h k = h
  chunks_with-Fits cs (g ∷ gs) h k =
      All-append (Fits available) cs ((g ∷ gs) ∷ []) h ((omega arith, inl k), tt)

  cleared-Kept :
      (gs : List FileGroup) (st : ChunkState) (c : List FileGroup)
      → st.current_chunk ≡ c
      → Kept gs st
      → Kept gs (cleared st c) × ((cleared st c).current_chunk ≡ [])
  cleared-Kept gs st [] e h = (h, e)
  cleared-Kept gs st (g ∷ c) e h =
      let same : total group_tokens (g ∷ c) ≡ st.current_tokens = rw e at h.counted in
      (
        record {
          whole = append-nil _ ∙ joined_more st.chunks (g ∷ c) ∙ rw e at h.whole;
          fits = chunks_with-Fits st.chunks (g ∷ c) h.fits (omega (arith, same, h.within));
          counted = refl;
          within = omega arith;
        },
        refl,
      )

  add_lone-Kept :
      (gs : List FileGroup) (st : ChunkState) (g : FileGroup)
      → st.current_chunk ≡ []
      → Kept gs st
      → Kept (gs ++ g ∷ []) (add_lone st g)
  unfolding add_lone
  add_lone-Kept gs st g e h =
      let all_closed : joined st.chunks ≡ gs = sym (append-nil _) ∙ (rw e at h.whole) in
      record {
        whole = rw e (
            append-nil _
            ∙ joined_more st.chunks (g ∷ [])
            ∙ ap (λ (l : List FileGroup). l ++ g ∷ []) all_closed);
        fits =
            All-append (Fits available) st.chunks ((g ∷ []) ∷ []) h.fits
              ((omega arith, inr refl), tt);
        counted = h.counted;
        within = h.within;
      }

  add_group-Kept :
      (gs : List FileGroup) (st : ChunkState) (g : FileGroup)
      → Kept gs st
      → Kept (gs ++ g ∷ []) (add_group available st g)
  unfolding add_group clear_chunk close_chunk
  add_group-Kept gs st g h = elim (Bool-cases (ltb available (group_tokens g))) [
    | inl large ↦
        let (k, e) = cleared-Kept gs st st.current_chunk refl h in
        rw large (add_lone-Kept gs (cleared st st.current_chunk) g e k)
    | inr small ↦ elim (Bool-cases (ltb available (st.current_tokens + group_tokens g))) [
      | inl over ↦
          rw (small, over)
            (record {
              whole =
                  ap (λ (l : List FileGroup). l ++ g ∷ [])
                    (joined-chunks_with st.chunks st.current_chunk ∙ h.whole);
              fits =
                  chunks_with-Fits st.chunks st.current_chunk h.fits
                    (omega (arith, h.counted, h.within));
              counted = omega arith;
              within = ground (arith, small);
            })
      | inr more ↦
          rw (small, more)
            (record {
              whole =
                  sym (append_assoc (joined st.chunks) st.current_chunk (g ∷ []))
                  ∙ ap (λ (l : List FileGroup). l ++ g ∷ []) h.whole;
              fits = h.fits;
              counted =
                  omega (arith, total-append group_tokens st.current_chunk (g ∷ []), h.counted);
              within = ground (arith, more);
            })
    ]
  ]

  add_groups-Kept :
      (gs hs : List FileGroup) (st : ChunkState)
      → Kept gs st
      → Kept (gs ++ hs) (add_groups available st hs)
  unfolding add_groups
  add_groups-Kept gs [] st h = subst (λ (l : List FileGroup). Kept l st) (sym (append-nil gs)) h
  add_groups-Kept gs (g ∷ hs) st h =
      subst (λ (l : List FileGroup). Kept l (add_groups available (add_group available st g) hs))
        (append_assoc gs (g ∷ []) hs)
        (add_groups-Kept (gs ++ g ∷ []) hs (add_group available st g) (add_group-Kept gs st g h))

  -- One chunk after the other has the groups in their order; no chunk is empty, and a chunk is within the
  -- tokens that are available, unless it is of one group.
  pub chunk_groups-Fits :
      (gs : List FileGroup)
      → (joined (chunk_groups available gs) ≡ gs) × All (Fits available) (chunk_groups available gs)
  unfolding chunk_groups close_chunk
  chunk_groups-Fits gs =
      let none_yet : ChunkState = record { chunks = []; current_chunk = []; current_tokens = 0 } in
      let h =
        add_groups-Kept [] gs none_yet
          (record { whole = refl; fits = tt; counted = refl; within = omega arith }) in
      let st = add_groups available none_yet gs in
      (
        joined-chunks_with st.chunks st.current_chunk ∙ h.whole,
        chunks_with-Fits st.chunks st.current_chunk h.fits (omega (arith, h.counted, h.within)),
      )

add_change_twice :
    (groups : Groups) (c d : FileChange)
    → c.path ≡ d.path
    → add_change (add_change groups c) d ≡ add_change groups d
unfolding add_change
add_change_twice groups c d e =
    rw e (put-put equal d.path _ _ groups ((equal_iff d.path d.path).1 refl))

add_changes_twice :
    (pre post : List FileChange) (c d : FileChange) (groups : Groups)
    → c.path ≡ d.path
    → add_changes groups (pre ++ c ∷ d ∷ post) ≡ add_changes groups (pre ++ d ∷ post)
unfolding add_changes
add_changes_twice [] post c d groups e =
    ap (λ (g : Groups). add_changes g post) (add_change_twice groups c d e)
add_changes_twice (p ∷ pre) post c d groups e =
    add_changes_twice pre post c d (add_change groups p) e

-- A change that is followed by one with the same path is in no chunk: the plan is the one without it.
pub plan_same_path :
    (max_tokens : ℕ) (pre post : List FileChange) (c d : FileChange) (context : List FileContent)
    (base_prompt : Bytes)
    → c.path ≡ d.path
    → plan max_tokens (pre ++ c ∷ d ∷ post) context base_prompt
      ≡ plan max_tokens (pre ++ d ∷ post) context base_prompt
unfolding plan group_files
plan_same_path max_tokens pre post c d context base_prompt e =
    rw (add_changes_twice pre post c d [] e) refl
