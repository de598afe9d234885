-- ===== src/PromptQueue/Lifecycle.antt =====
-- A turn from its claim to its end: what begin, pop, requeue, fail and complete do to the state at
-- every key. Reads are by `state_of`, to which an absent entry is the idle, empty one.
use echo_client.Prelude.{
  String, Bool, true, false, ◌≡◌, refl, ◌≢◌, ◌⊎◌, inl, inr, Option, none, some, List, [], ◌∷◌,
  arith, if◌then◌else◌, Option-cases, ==_self,
}
use mathlib.Core.Path.{subst}
use echo_client.Prelude.Dict.{get}
use echo_client.PromptQueue.{
  QueuedPrompt, PromptQueueState, Queues, new_state, prompt_queue_key, state_of, set_state,
}
use echo_client.PromptQueue.Turns.{
  settle, remove_state, clear_running, complete_prompt_turn, keys_differ, pop_next_queued_prompt,
  requeue_prompt_front, release_failed,
}
use echo_client.PromptQueue.Lookup.{
  state_of-set_state_self, state_of-set_state_ne, state_of-settle_self, state_of-settle_ne,
  state_of-remove_state_self, state_of-remove_state_ne,
}

-- Exactly one key changes, to the given state.
pub record Becomes (qs qs' : Queues) (k : String) (s : PromptQueueState) : Type 0 where
  pub here : state_of qs' k ≡ s
  pub elsewhere : (j : String) → k ≢ j → state_of qs' j ≡ state_of qs j

pub set_state-Becomes :
    (qs : Queues) (k : String) (s : PromptQueueState) → Becomes qs (set_state qs k s) k s
set_state-Becomes qs k s = record {
  here = state_of-set_state_self qs k s;
  elsewhere = λ j h. state_of-set_state_ne qs k j s h;
}

pub settle-Becomes :
    (qs : Queues) (k : String) (s : PromptQueueState) → Becomes qs (settle qs k s) k s
settle-Becomes qs k s = record {
  here = state_of-settle_self qs k s;
  elsewhere = λ j h. state_of-settle_ne qs k j s h;
}

pub removed-Becomes : (qs : Queues) (k : String) → Becomes qs (remove_state qs k) k new_state
removed-Becomes qs k = record {
  here = state_of-remove_state_self qs k;
  elsewhere = λ j h. state_of-remove_state_ne qs k j h;
}

pub unchanged-Becomes :
    (qs : Queues) (k : String) (s : PromptQueueState) → state_of qs k ≡ s → Becomes qs qs k s
unchanged-Becomes qs k s e = record { here = e; elsewhere = λ j h. refl }

pub clear_running-Becomes :
    (qs : Queues) (k : String) (should_clear : Bool)
    → Becomes qs (clear_running qs k should_clear) k (record (state_of qs k) {
      running = if should_clear then false else (state_of qs k).running;
    })
unfolding clear_running
clear_running-Becomes qs k should_clear = elim (Option-cases (get k qs.prompt_queues)) [
  | inl e ↦ rw (e, clear_running) (unchanged-Becomes qs k _ (rw e (stays should_clear)))
  | inr (s, e) ↦ rw (e, clear_running) (settle-Becomes qs k _)
]
  where
    stays : (b : Bool) → new_state ≡ record { running = if b then false else false; items = [] }
    stays true = refl
    stays false = refl

pub keys_differ_self : (k : String) → keys_differ k k ≡ false
unfolding keys_differ
keys_differ_self k = ground (arith, ==_self k)

-- A turn that ends under the key it began with opens the gate: the chat's queue is no longer running, keeps its items in order, and no other
-- queue changes; the key to drain next is the same.
pub complete_prompt_turn-Becomes :
    (qs : Queues) (session_key agent_session_id : String)
    → let k = (prompt_queue_key session_key agent_session_id).0 in
      let r = complete_prompt_turn qs k session_key agent_session_id in
      Becomes qs r.0 k (record (state_of qs k) { running = false }) × (r.1 ≡ k)
unfolding complete_prompt_turn
complete_prompt_turn-Becomes qs session_key agent_session_id =
    let k = (prompt_queue_key session_key agent_session_id).0 in
    rw (keys_differ_self k) (clear_running-Becomes qs k true, refl)

pub release_failed-Becomes :
    (qs : Queues) (item : QueuedPrompt)
    → Becomes qs
        (release_failed qs item)
        item.queue_key
        (record (state_of qs item.queue_key) { running = false })
unfolding release_failed
release_failed-Becomes qs item = elim (Option-cases (get item.queue_key qs.prompt_queues)) [
  | inl e ↦ rw (e, release_failed) (unchanged-Becomes qs item.queue_key _ (rw e))
  | inr (s, e) ↦ rw (e, release_failed) (settle-Becomes qs item.queue_key _)
]

pub requeue-Becomes :
    (qs : Queues) (item : QueuedPrompt)
    → Becomes qs
        (requeue_prompt_front qs item)
        item.queue_key
        (record { running = false; items = item ∷ (state_of qs item.queue_key).items })
unfolding requeue_prompt_front
requeue-Becomes qs item = set_state-Becomes qs item.queue_key _

pub release_failed-Becomes-at :
    (qs : Queues) (item : QueuedPrompt) (j : String)
    → item.queue_key ≡ j
    → Becomes qs (release_failed qs item) j (record (state_of qs j) { running = false })
release_failed-Becomes-at qs item j e =
    subst (λ m. Becomes qs (release_failed qs item) m (record (state_of qs m) { running = false }))
      e (release_failed-Becomes qs item)

pub requeue-Becomes-at :
    (qs : Queues) (item : QueuedPrompt) (j : String)
    → item.queue_key ≡ j
    → Becomes qs
        (requeue_prompt_front qs item)
        j
        (record { running = false; items = item ∷ (state_of qs j).items })
requeue-Becomes-at qs item j e =
    subst
      (λ m.
        Becomes qs (requeue_prompt_front qs item) m
          (record { running = false; items = item ∷ (state_of qs m).items }))
      e (requeue-Becomes qs item)

-- What a pop does at a state, by its two guards.
abbrev pub Pops : Queues → String → Queues → Option QueuedPrompt → Type 0
Pops qs k qs' none = (qs' ≡ qs) × (((state_of qs k).running ≡ true) ⊎ ((state_of qs k).items ≡ []))
Pops qs k qs' (some item) =
    ((state_of qs k).running ≡ false)
    × ((rest : List QueuedPrompt) × ((state_of qs k).items ≡ item ∷ rest)
        × Becomes qs qs' k (record { running = true; items = rest }))

pop_state-Pops :
    (qs : Queues) (k : String) (b : Bool) (xs : List QueuedPrompt)
    → get k qs.prompt_queues ≡ some (record { running = b; items = xs })
    → Pops qs k (pop_next_queued_prompt qs k).0 (pop_next_queued_prompt qs k).1
unfolding pop_next_queued_prompt
pop_state-Pops qs k true xs e = rw (e, pop_next_queued_prompt) (refl, inl (rw e))
pop_state-Pops qs k false [] e = rw (e, pop_next_queued_prompt) (refl, inr (rw e))
pop_state-Pops qs k false (x ∷ xs) e =
    rw (e, pop_next_queued_prompt) (rw e, (xs, rw e, set_state-Becomes qs k _))

-- A pop takes the first item of a chat's queue and closes its gate, and touches no other queue; it
-- takes nothing, and changes nothing, exactly if the gate is closed or no item waits.
pub pop-Pops :
    (qs : Queues) (k : String)
    → Pops qs k (pop_next_queued_prompt qs k).0 (pop_next_queued_prompt qs k).1
unfolding pop_next_queued_prompt
pop-Pops qs k = elim (Option-cases (get k qs.prompt_queues)) [
  | inl e ↦ rw (e, pop_next_queued_prompt) (refl, inr (rw e))
  | inr (s, e) ↦ pop_state-Pops qs k s.running s.items e
]
