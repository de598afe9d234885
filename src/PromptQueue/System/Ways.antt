-- ===== src/PromptQueue/System/Ways.antt =====
-- The ways into the queue besides begin: enqueuePrompt, and a cron turn that is given back.
use echo_client.Prelude.{
  ℕ, ◌+◌, ◌≤◌, String, false, ◌≡◌, refl, ◌∙◌, inl, inr, Option, none, some, [], ◌∷◌, ◌++◌, length,
  ap, Option-cases, Bool-cases, arith,
}
use echo_client.Prelude.Dict.{get}
use echo_client.Message.{Message}
use echo_client.PromptQueue.{
  QueuedPrompt, PromptQueueState, Queues, Result, ok, err, state_of, ensure_state, set_running,
  new_item, enqueue_prompt, return_cron_turn,
}
use echo_client.PromptQueue.System.{
  Turn, System, Arrival, enqueues, returns, turn_of, end_turn, user_item_for, has_begun, step,
}
use echo_client.PromptQueue.System.Turns.{ended, same_turns, holders-end_turn, begun_turn}
use echo_client.PromptQueue.System.Invariant.{
  Inv, lift, ended_none, enqueue-KeyInv, release-KeyInv, return-KeyInv,
}
use echo_client.PromptQueue.Lifecycle.{Becomes, set_state-Becomes}
use echo_client.PromptQueue.Begin.{Enqueues, Enqueues-ensure, enqueue-Enqueues}

pub enqueue_prompt-Enqueues :
    (qs : Queues) (k local agent : String) (msg : Message) (now : ℕ)
    → Enqueues qs k
        (new_item qs k local agent "user" "" msg now)
        (enqueue_prompt qs k local agent msg now).0
        (enqueue_prompt qs k local agent msg now).1
unfolding enqueue_prompt new_item
enqueue_prompt-Enqueues qs k local agent msg now =
    Enqueues-ensure qs k (new_item qs k local agent "user" "" msg now) _ _
      (enqueue-Enqueues (ensure_state qs k) k local agent "user" "" msg now)

-- A turn is given back: the gate opens, and the prompt goes to the end of the line, or is refused.
abbrev pub Returned : Queues → String → QueuedPrompt → Queues → Option (Result ℕ) → Type 0
Returned qs k item qs' none = Becomes qs qs' k (record (state_of qs k) { running = false })
Returned qs k item qs' (some (err e)) =
    Becomes qs qs' k (record (state_of qs k) { running = false })
Returned qs k item qs' (some (ok n)) =
    Becomes qs qs' k (record { running = false; items = (state_of qs k).items ++ item ∷ [] })
    × (length (state_of qs k).items + 1 ≤ 20)

returned :
    (qs : Queues) (k : String) (item : QueuedPrompt) (qs' : Queues) (r : Result ℕ)
    → Enqueues (set_running qs k false) k item qs' r
    → Returned qs k item qs' (some r)
returned qs k item qs' (err e) q =
    let b = set_state-Becomes qs k (record (state_of qs k) { running = false }) in
    record { here = q.same k ∙ b.here; elsewhere = λ j d. q.same j ∙ b.elsewhere j d }
returned qs k item qs' (ok n) q =
    let b = set_state-Becomes qs k (record (state_of qs k) { running = false }) in
    (
      record {
        here =
            q.becomes.here
            ∙ ap {A = PromptQueueState} (λ s. record s { items = s.items ++ item ∷ [] }) b.here;
        elsewhere = λ j d. q.becomes.elsewhere j d ∙ b.elsewhere j d;
      },
      omega (arith, q.position, q.room, ap (λ s. length s.items) b.here),
    )

pub return_cron_turn-Returned :
    (qs : Queues) (k job_id : String) (msg : Message) (now : ℕ)
    → Returned qs k
        (new_item qs k "" "" "cron" job_id msg now)
        (return_cron_turn qs k job_id msg now).0
        (return_cron_turn qs k job_id msg now).1
unfolding return_cron_turn new_item
return_cron_turn-Returned qs k job_id msg now = elim (Option-cases (get k qs.prompt_queues)) [
  | inl e ↦ rw (e, return_cron_turn) (record { here = rw e; elsewhere = λ j d. refl })
  | inr (s, e) ↦
      rw (e, return_cron_turn)
        (returned qs k (new_item qs k "" "" "cron" job_id msg now) _ _
          (enqueue-Enqueues (set_running qs k false) k "" "" "cron" job_id msg now))
]

module _ (s : System) (v : Inv s) where
  pub refused-Inv :
      (qs : Queues)
      → ((j : String) → state_of qs j ≡ state_of s.queues j)
      → Inv (record s { queues = qs })
  refused-Inv qs same j = rw (same j) (v j)

  pub queued-Inv :
      (k : String) (item : QueuedPrompt)
      → item.queue_key ≡ k
      → (qs : Queues) (r : Result ℕ) → Enqueues s.queues k item qs r
      → Inv (record s { queues = qs })
  queued-Inv k item key qs (err e) q = refused-Inv qs q.same
  queued-Inv k item key qs (ok n) q =
      lift s (record s { queues = qs }) k _ v q.becomes (same_turns k s.turns)
        (enqueue-KeyInv k (state_of s.queues k) _ _ (v k) item key
          (omega (arith, q.position, q.room)))

  pub enqueues-Inv : (a : Arrival) → Inv (step s (enqueues a))
  unfolding step new_item
  enqueues-Inv a =
      queued-Inv a.key (user_item_for a s.queues) refl _ _ (
        enqueue_prompt-Enqueues s.queues a.key a.local_session_id a.agent_session_id a.message
          a.now)

  given_back :
      (k : String) (item : QueuedPrompt) (t : Turn)
      → item.queue_key ≡ k
      → turn_of k s.turns ≡ some t
      → (qs : Queues) (r : Option (Result ℕ)) → Returned s.queues k item qs r
      → Inv (record { queues = qs; turns = end_turn k s.turns })
  given_back k item t key e qs none b =
      lift s (record { queues = qs; turns = end_turn k s.turns }) k _ v b (ended k s.turns)
        (rw (ended_none k (state_of s.queues k) s.turns t (v k) e)
          (release-KeyInv k _ _ _ (v k) _ (holders-end_turn k s.turns t e)))
  given_back k item t key e qs (some (err x)) b =
      lift s (record { queues = qs; turns = end_turn k s.turns }) k _ v b (ended k s.turns)
        (rw (ended_none k (state_of s.queues k) s.turns t (v k) e)
          (release-KeyInv k _ _ _ (v k) _ (holders-end_turn k s.turns t e)))
  given_back k item t key e qs (some (ok n)) (b, room) =
      lift s (record { queues = qs; turns = end_turn k s.turns }) k _ v b (ended k s.turns)
        (rw (ended_none k (state_of s.queues k) s.turns t (v k) e)
          (return-KeyInv k _ _ _ (v k) _ item (holders-end_turn k s.turns t e) key room))

  pub returns-Inv :
      (k job_id : String) (msg : Message) (now : ℕ) → Inv (step s (returns k job_id msg now))
  unfolding step new_item
  returns-Inv k job_id msg now = elim (Bool-cases (has_begun (turn_of k s.turns))) [
    | inl e ↦
        let (t, found) = begun_turn _ e in
        rw e (
          given_back k (new_item s.queues k "" "" "cron" job_id msg now) t refl found _ _
            (return_cron_turn-Returned s.queues k job_id msg now))
    | inr e ↦ rw e v
  ]
