-- ===== src/Pipeline/Degradation/Limits.antt =====
-- Which calls of the model are made, and how large they are.
use agent_sets.Prelude.{
  All, Bool, Bool-cases, List, [], arith, false, inl, inr, leb, leb→le, refl, subst, sym, ℕ, ◌&&◌,
  ◌*◌, ◌/◌, ◌≡◌, ◌≤◌,
}
use agent_sets.Pipeline.Degradation.{
  DegradationManager, call_tokens, apply_l2_l3, degrade, after_standard, apply_strategy,
  is_timeout_error, apply_l1_truncation,
}
use agent_sets.Pipeline.Types.{reviewed, review_failed, Call, Reviewed, FileChange, FileContent}
use agent_sets.Text.{Bytes}

module _ (review : ℕ → Call → Reviewed) (dm : DegradationManager) where
  -- a call that is within the limit
  abbrev pub CallWithin : Bytes → Call → Type 0
  CallWithin base_prompt c = call_tokens base_prompt c ≤ dm.max_tokens

  apply_l2_l3_none :
      (n : ℕ) (changes : List FileChange) (context : List FileContent) (base_prompt : Bytes)
      → (dm.l2_chunk_by_file && dm.chunks) ≡ false
      → dm.l3_diff_only ≡ false
      → (apply_l2_l3 review dm n changes context base_prompt).0 ≡ []
  unfolding apply_l2_l3
  apply_l2_l3_none n changes context base_prompt e d = rw (e, d) refl

  degrade-CallWithin :
      (n : ℕ) (changes : List FileChange) (context : List FileContent) (base_prompt : Bytes)
      → (dm.l2_chunk_by_file && dm.chunks) ≡ false
      → dm.l3_diff_only ≡ false
      → All (CallWithin base_prompt) (degrade review dm n changes context base_prompt).0
  unfolding degrade
  degrade-CallWithin n changes context base_prompt e d =
      let gone = apply_l2_l3_none n changes context base_prompt e d in
      let reduced : Call = record { changes = changes; context = apply_l1_truncation dm context } in
      let none_made : All (CallWithin base_prompt)
          (apply_l2_l3 review dm n changes context base_prompt).0 =
        subst (All (CallWithin base_prompt)) (sym gone) tt in
      let whole : Call = record { changes = changes; context = context } in
      elim (Bool-cases (leb (call_tokens base_prompt whole) (dm.max_tokens * 6 / 5))) [
        | inr far ↦ rw far none_made
        | inl near ↦ elim (Bool-cases (leb (call_tokens base_prompt reduced) dm.max_tokens)) [
          | inr over ↦ rw (near, over) none_made
          | inl fits ↦ rw (near, fits) (leb→le _ _ fits, tt)
        ]
      ]

  after_standard-All :
      (P : Call → Type 0) (alive : Bool) (r : Reviewed) (c : Call) (rest : List Call × Reviewed)
      → P c
      → All P rest.0
      → All P (after_standard review dm alive r c rest).0
  unfolding after_standard
  after_standard-All P alive (reviewed result) c rest h k = (h, tt)
  after_standard-All P alive (review_failed err) c rest h k =
      elim (Bool-cases (is_timeout_error err && alive)) [
        | inl e ↦ rw e (h, k)
        | inr e ↦ rw e (h, tt)
      ]

  -- Where neither chunks nor a review of the diff alone are allowed, every call that is made is
  -- estimated within the limit.
  pub apply_strategy-CallWithin :
      (alive : Bool) (changes : List FileChange) (context : List FileContent) (base_prompt : Bytes)
      → (dm.l2_chunk_by_file && dm.chunks) ≡ false
      → dm.l3_diff_only ≡ false
      → All (CallWithin base_prompt) (apply_strategy review dm alive changes context base_prompt).0
  unfolding apply_strategy
  apply_strategy-CallWithin alive changes context base_prompt e d =
      let whole : Call = record { changes = changes; context = context } in
      elim (Bool-cases (leb (call_tokens base_prompt whole) (dm.max_tokens * 4 / 5))) [
        | inr over ↦ rw over (degrade-CallWithin 0 changes context base_prompt e d)
        | inl fits ↦ rw fits (
            after_standard-All (CallWithin base_prompt) alive (review 0 whole) whole
              (degrade review dm 1 changes context base_prompt) (omega (arith, leb→le _ _ fits))
              (degrade-CallWithin 1 changes context base_prompt e d))
      ]
