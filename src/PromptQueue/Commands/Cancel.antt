-- ===== src/PromptQueue/Commands/Cancel.antt =====
-- cancelQueuedPromptsForSessionSwitch: exactly the stale prompts of the chat go.
use echo_client.Prelude.{
  ℕ, ◌+◌, String, Bool, true, false, not, ◌≡◌, refl, ap, ◌≢◌, ◌⊎◌, inl, inr, none, List, [], ◌∷◌,
  ◌==◌, arith, ltb, ltb-false, Bool-cases, ==_true, ◌↔◌, eq_iff, length, filter,
}
use echo_client.Prelude.Dict.{Dict, get, total, Distinct}
use echo_client.PromptQueue.{
  QueuedPrompt, is_cron, PromptQueueState, Queues, new_state, or_new, state_of,
}
use echo_client.PromptQueue.Turns.{is_idle}
use echo_client.PromptQueue.Commands.{
  is_cancelled, keep_items, cancel_in, cancel_queued_prompts_for_session_switch,
}

module _ (cancel : QueuedPrompt → Bool) where
  -- What the loop keeps: the items that are not cancelled, in their order.
  abbrev pub kept : List QueuedPrompt → List QueuedPrompt
  kept = filter (λ item. not (cancel item))

  keep_items-kept : (items : List QueuedPrompt) → (keep_items cancel items).0 ≡ kept items
  unfolding keep_items
  keep_items-kept [] = refl
  keep_items-kept (item ∷ items) = ground (arith, keep_items-kept items)

  keep_items-count :
      (items : List QueuedPrompt) → length (kept items) + (keep_items cancel items).1 ≡ length items
  unfolding keep_items
  keep_items-count [] = refl
  keep_items-count (item ∷ items) = ground (arith, keep_items-count items)

  abbrev pub cleaned : PromptQueueState → PromptQueueState
  cleaned state = record state { items = kept state.items }

  kept_empty : (items : List QueuedPrompt) → ltb 0 (length items) ≡ false → kept items ≡ items
  kept_empty [] h = refl
  kept_empty (item ∷ items) h = absurd (omega (arith, ltb-false 0 (length (item ∷ items)) h))

  cleaned_empty :
      (state : PromptQueueState) → ltb 0 (length state.items) ≡ false → cleaned state ≡ state
  cleaned_empty state h = ap (λ xs. record state { items = xs }) (kept_empty state.items h)

  idle_new : (state : PromptQueueState) → is_idle state ≡ true → state ≡ new_state
  unfolding is_idle
  idle_new state h = ground arith

  pub cancel_in-none :
      (k : String) (m : Dict PromptQueueState)
      → get k m ≡ none
      → get k (cancel_in cancel m).0 ≡ none
  unfolding get cancel_in
  cancel_in-none k [] h = refl
  cancel_in-none k ((j, state) ∷ m) h = ground (arith, cancel_in-none k m)

  -- An entry that the loop deletes reads as the new state, which is what it had become.
  cancel_in-get :
      (k : String) (m : Dict PromptQueueState)
      → Distinct m
      → or_new (get k (cancel_in cancel m).0) ≡ cleaned (or_new (get k m))
  unfolding get cancel_in
  cancel_in-get k [] d = refl
  cancel_in-get k ((j, state) ∷ m) d = ground (
    arith,
    cancel_in-get k m d.1,
    cancel_in-none j m d.0,
    eq_iff j k,
    keep_items-kept state.items,
    cleaned_empty state,
    idle_new (cleaned state),
  )

  cancel_in-total :
      (m : Dict PromptQueueState)
      → total (λ s. length s.items) (cancel_in cancel m).0 + (cancel_in cancel m).1
        ≡ total (λ s. length s.items) m
  unfolding total cancel_in
  cancel_in-total [] = refl
  cancel_in-total ((j, state) ∷ m) = ground (
    arith,
    cancel_in-total m,
    keep_items-kept state.items,
    keep_items-count state.items,
    idle_new (cleaned state),
  )

-- A prompt that a switch of the chat leaves alone: another chat's, or one that was queued against the
-- new agent session and, cron prompts aside, in the new local session.
abbrev pub IsFresh : String → String → String → QueuedPrompt → Type 0
IsFresh session_key local agent item =
    (item.origin_session_key ≢ session_key)
    ⊎ ((item.agent_session_id_snapshot ≡ agent)
        × (item.agent_session_id_snapshot ≢ "")
        × ((item.source ≡ "cron")
            ⊎ ((item.origin_local_session_id ≡ local) × (item.origin_local_session_id ≢ ""))))

module _ (session_key local agent : String) (item : QueuedPrompt) where
  kept-IsFresh :
      is_cancelled session_key local agent item ≡ false → IsFresh session_key local agent item
  unfolding is_cancelled is_cron
  kept-IsFresh h = elim (Bool-cases (item.origin_session_key == session_key)) [
    | inr d ↦ inl (λ e. cc (==_true _ _ e))
    | inl own ↦ inr (
      ground (arith, eq_iff item.agent_session_id_snapshot agent),
      (λ e. ground (arith, eq_iff item.agent_session_id_snapshot "")),
      elim (Bool-cases (item.source == "cron")) [
        | inl cron ↦ inl ((eq_iff item.source "cron").0 cron)
        | inr user ↦ inr (
          ground (arith, eq_iff item.origin_local_session_id local),
          (λ e. ground (arith, eq_iff item.origin_local_session_id "")),
        )
      ],
    )
  ]

  IsFresh-kept :
      IsFresh session_key local agent item → is_cancelled session_key local agent item ≡ false
  unfolding is_cancelled is_cron
  IsFresh-kept f = ground (
    arith,
    eq_iff item.origin_session_key session_key,
    eq_iff item.agent_session_id_snapshot agent,
    eq_iff item.agent_session_id_snapshot "",
    eq_iff item.origin_local_session_id local,
    eq_iff item.origin_local_session_id "",
    eq_iff item.source "cron",
  )

module _ (qs : Queues) (session_key local agent : String)
    (distinct : Distinct qs.prompt_queues) where
  abbrev outcome : Queues × ℕ
  outcome = cancel_queued_prompts_for_session_switch qs session_key local agent

  -- After a switch every queue holds what it held, in order, less the prompts that are cancelled, and
  -- its gate is as it was; the prompts that are kept are exactly the fresh ones; and the count tells
  -- how many prompts are gone from all queues together. The map has no key twice.
  pub cancel_lem :
      ((k : String)
        → state_of outcome.0 k ≡ cleaned (is_cancelled session_key local agent) (state_of qs k))
      × ((item : QueuedPrompt)
          → (is_cancelled session_key local agent item ≡ false)
            ↔ IsFresh session_key local agent item)
      × (total (λ s. length s.items) outcome.0.prompt_queues + outcome.1
          ≡ total (λ s. length s.items) qs.prompt_queues)
  unfolding cancel_queued_prompts_for_session_switch
  cancel_lem =
      let cancel = is_cancelled session_key local agent in
      (
        λ k. cancel_in-get cancel k qs.prompt_queues distinct,
        λ item.
            (kept-IsFresh session_key local agent item, IsFresh-kept session_key local agent item),
        cancel_in-total cancel qs.prompt_queues,
      )
