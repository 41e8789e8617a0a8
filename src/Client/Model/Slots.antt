-- ===== src/Client/Model/Slots.antt =====
-- openai_adapter.go: the semaphore of `Chat` over the goroutines that call it.
use agent_sets.Prelude.{
  Bool-cases, List, [], ap, arith, inl, inr, length, length_middle, ltb, ltb→lt, refl, subst, suc,
  sym, zero, ℕ, ◌++◌, ◌-◌, ◌<◌, ◌∷◌, ◌≡◌, ◌≤◌, ◌⊎◌,
}
use agent_sets.Prelude.Int.{ltb_ℤ, negsuc, pos, ℤ}
use agent_sets.Config.{Config}
use agent_sets.Client.Model.{new_llm, sem_size, new_openai_adapter_with_config, set_timeout}

pub record ChatCalls : Type 0 where
  pub in_front : List ℕ  -- calls that wait for the semaphore
  pub requesting : List ℕ  -- calls that are inside
  pub in_use : ℕ  -- the elements of `sem`

abbrev pub no_calls : ChatCalls
no_calls = record { in_front = []; requesting = []; in_use = 0 }

unfoldable pub take_slot : ℕ → ChatCalls → ChatCalls
take_slot c s = record s { requesting = c ∷ s.requesting; in_use = suc s.in_use }

-- the deferred receive
unfoldable pub free_slot : ChatCalls → ChatCalls
free_slot s = record s { in_use = s.in_use - 1 }

pub data ChatStep (size : ℕ) (s : ChatCalls) : ChatCalls → Type 0 where
  called : (c : ℕ) → ChatStep size s (record s { in_front = c ∷ s.in_front })
  entered :
      (pre post : List ℕ) (c : ℕ)
      → s.in_front ≡ pre ++ c ∷ post
      → s.in_use < size
      → ChatStep size s (take_slot c (record s { in_front = pre ++ post }))
  gave_up :
      (pre post : List ℕ) (c : ℕ)
      → s.in_front ≡ pre ++ c ∷ post
      → ChatStep size s (record s { in_front = pre ++ post })
  returned :
      (pre post : List ℕ) (c : ℕ)
      → s.requesting ≡ pre ++ c ∷ post
      → ChatStep size s (free_slot (record s { requesting = pre ++ post }))

pub data ChatReach (size : ℕ) : ChatCalls → Type 0 where
  idle : ChatReach size no_calls
  next : (s t : ChatCalls) → ChatReach size s → ChatStep size s t → ChatReach size t

record Held (size : ℕ) (in_use : ℕ) (requesting : List ℕ) : Type 0 where
  counted : in_use ≡ length requesting
  within : in_use ≤ size

step-Held :
    (size : ℕ) (s t : ChatCalls)
    → ChatStep size s t
    → Held size s.in_use s.requesting
    → Held size t.in_use t.requesting
unfolding take_slot free_slot
step-Held size s _ (called c) h = h
step-Held size s _ (entered pre post c e free) h = record {
  counted = ap suc h.counted;
  within = omega (arith, free);
}
step-Held size s _ (gave_up pre post c e) h = h
step-Held size s _ (returned pre post c e) h = record {
  counted = omega (arith, h.counted, length_middle s.requesting pre post c e);
  within = omega (arith, h.within);
}

ChatReach-Held : (size : ℕ) (s : ChatCalls) → ChatReach size s → Held size s.in_use s.requesting
ChatReach-Held size _ idle = record { counted = refl; within = omega arith }
ChatReach-Held size _ (next s t before step) =
    step-Held size s t step (ChatReach-Held size s before)

sem_size_positive : (n : ℤ) → 1 ≤ sem_size n
unfolding sem_size
sem_size_positive (pos zero) = omega arith
sem_size_positive (pos (suc n)) = omega arith
sem_size_positive (negsuc n) = omega arith

new_llm_slots : (cfg : Config) → (new_llm cfg).slots ≡ sem_size cfg.server.concurrency_limit
unfolding new_llm new_openai_adapter_with_config set_timeout
new_llm_slots cfg = elim (Bool-cases (ltb_ℤ (pos 0) cfg.llm.llm_timeout)) [
  | inl e ↦ rw e refl
  | inr e ↦ rw e refl
]

-- A call that waits can go in.
abbrev pub CanEnter : ℕ → ChatCalls → Type 0
CanEnter size s =
    (t : ChatCalls) × ChatStep size s t × (length t.requesting ≡ suc (length s.requesting))

entering :
    (size : ℕ) (s : ChatCalls)
    → Held size s.in_use s.requesting
    → (s.in_front ≡ []) ⊎ ((length s.requesting ≡ size) ⊎ CanEnter size s)
unfolding take_slot
entering size s h = go s.in_front refl
  where
    go :
        (front : List ℕ)
        → s.in_front ≡ front
        → (s.in_front ≡ []) ⊎ ((length s.requesting ≡ size) ⊎ CanEnter size s)
    go [] e = inl e
    go (c ∷ cs) e = elim (Bool-cases (ltb s.in_use size)) [
      | inl free ↦ inr (
          inr (take_slot c (record s { in_front = cs }), entered [] cs c e (ltb→lt _ _ free), refl))
      | inr full ↦ inr (inl (ground (arith, full, h.counted, h.within)))
    ]

-- Of the calls of a client that is made for a configuration, no more are at a request than it has
-- slots, of which there is at least one, and as many slots are in use as calls are at a request. So
-- either no call waits in front of the semaphore, or every slot has a call at a request, or a call that
-- waits can enter.
pub ChatReach-Within :
    (cfg : Config) (s : ChatCalls)
    → ChatReach (new_llm cfg).slots s
    → (1 ≤ (new_llm cfg).slots)
      × (length s.requesting ≤ (new_llm cfg).slots)
      × (s.in_use ≡ length s.requesting)
      × ((s.in_front ≡ [])
          ⊎ ((length s.requesting ≡ (new_llm cfg).slots) ⊎ CanEnter (new_llm cfg).slots s))
unfolding take_slot
ChatReach-Within cfg s reach =
    let h = ChatReach-Held (new_llm cfg).slots s reach in
    (
      subst (λ (n : ℕ). 1 ≤ n) (sym (new_llm_slots cfg))
          (sem_size_positive cfg.server.concurrency_limit),
      omega (arith, h.counted, h.within),
      h.counted,
      entering (new_llm cfg).slots s h,
    )
