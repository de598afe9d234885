-- ===== src/PromptQueue/Lookup.antt =====
-- What a read of the queues sees after a write. `settle` is seen by `state_of` as a plain write:
-- to delete an idle entry is not observable there.
use echo_client.Prelude.{String, true, ◌≡◌, ◌≢◌, arith, inl, inr, Bool-cases}
use echo_client.Prelude.Dict.{get-put_self, get-put_ne, get-delete_self, get-delete_ne}
use echo_client.PromptQueue.{PromptQueueState, Queues, new_state, state_of, set_state}
use echo_client.PromptQueue.Turns.{is_idle, settle, remove_state}

module _ (qs : Queues) (k : String) where
  pub state_of-set_state_self : (s : PromptQueueState) → state_of (set_state qs k s) k ≡ s
  state_of-set_state_self s = rw (get-put_self k s qs.prompt_queues)

  pub state_of-set_state_ne :
      (j : String) (s : PromptQueueState) → k ≢ j → state_of (set_state qs k s) j ≡ state_of qs j
  state_of-set_state_ne j s h = rw (get-put_ne k j s qs.prompt_queues h)

  pub state_of-remove_state_self : state_of (remove_state qs k) k ≡ new_state
  state_of-remove_state_self = rw (get-delete_self k qs.prompt_queues)

  pub state_of-remove_state_ne :
      (j : String) → k ≢ j → state_of (remove_state qs k) j ≡ state_of qs j
  state_of-remove_state_ne j h = rw (get-delete_ne k j qs.prompt_queues h)

  is_idle-new_state : (s : PromptQueueState) → is_idle s ≡ true → new_state ≡ s
  unfolding is_idle
  is_idle-new_state s h = ground arith

  pub state_of-settle_self : (s : PromptQueueState) → state_of (settle qs k s) k ≡ s
  unfolding settle
  state_of-settle_self s = elim (Bool-cases (is_idle s)) [
    | inl idle ↦ rw idle (rw state_of-remove_state_self (is_idle-new_state s idle))
    | inr kept ↦ rw kept (state_of-set_state_self s)
  ]

  pub state_of-settle_ne :
      (j : String) (s : PromptQueueState) → k ≢ j → state_of (settle qs k s) j ≡ state_of qs j
  unfolding settle
  state_of-settle_ne j s h = elim (Bool-cases (is_idle s)) [
    | inl idle ↦ rw idle (state_of-remove_state_ne j h)
    | inr kept ↦ rw kept (state_of-set_state_ne j s h)
  ]
