-- ===== src/PromptQueue/System/Balance.antt =====
-- Each step keeps the books of a chat that it does not edit.
use mathlib.Core.List.{append_assoc, append-nil}
use echo_client.Prelude.{
  ℕ, String, Bool, true, false, ◌≡◌, refl, sym, ◌≢◌, ◌⊎◌, inl, inr, Option, none, some, [], ◌∷◌,
  ◌++◌, ◌==◌, if◌then◌else◌, Bool-cases, Option-cases,
}
use echo_client.PromptQueue.{
  PromptQueueState, QueuedPrompt, Queues, Result, ok, err, prompt_queue_key, state_of, is_busy,
  new_item,
}
use echo_client.PromptQueue.Turns.{complete_prompt_turn, requeue_prompt_front, release_failed}
use echo_client.PromptQueue.Lifecycle.{
  Becomes, Pops, complete_prompt_turn-Becomes, release_failed-Becomes-at, requeue-Becomes-at,
  pop-Pops,
}
use echo_client.PromptQueue.Begin.{Enqueues, begin-idle, begin-busy}
use echo_client.PromptQueue.Commands.{Delta}
use echo_client.PromptQueue.Commands.Edit.{Deletes, Moves}
use echo_client.PromptQueue.System.Ways.{
  Returned, enqueue_prompt-Enqueues, return_cron_turn-Returned,
}
use echo_client.Message.{Message}
use echo_client.PromptQueue.System.{
  Turn, System, Arrival, arrives, drains, starts, requeues, fails, completes, enqueues, returns,
  user_item_for, turn_of, end_turn, item_for, began, turn_for, popped, has_begun, step,
}
use echo_client.PromptQueue.System.Turns.{begun_turn, new_turn, ended, same_turns, turn_of_new}
use echo_client.PromptQueue.System.Invariant.{Inv, ended_none}
use echo_client.PromptQueue.System.Gate.{keyed_of, popped_turn}
use echo_client.PromptQueue.System.Books.{
  optional, pending, newly, given_back, Balanced, pending_elsewhere, not_popped, balance_taken,
  balance_accepted, balance, idle_parts, begun_pops,
}

module _ (s : System) (v : Inv s) where
  pub starts-Balanced : (j k : String) → Balanced s (starts j) k
  unfolding step
  starts-Balanced j k = elim (Option-cases (popped (turn_of j s.turns))) [
    | inl e ↦ rw (e, step) (balance_taken s s j k (λ d. refl) [] refl)
    | inr (item, e) ↦
        let ts = end_turn j s.turns in
        let s' : System = record s { turns = turn_for j none ∷ ts } in
        rw (e, step)
          (balance_taken s s' j k
            (λ d. rw ((new_turn j none ts).found k d, (ended j s.turns).found k d)) (item ∷ [])
            (rw (e, turn_of_new j none ts)))
  ]

  pub fails-Balanced : (j k : String) → Balanced s (fails j) k
  unfolding step
  fails-Balanced j k = elim (Option-cases (popped (turn_of j s.turns))) [
    | inl e ↦ rw (e, step) (balance_taken s s j k (λ d. refl) [] refl)
    | inr (item, e) ↦
        let (t, found) = popped_turn _ item e in
        let key = keyed_of j _ item (v j).popped_keyed e in
        let s' : System = record {
          queues = release_failed s.queues item;
          turns = end_turn j s.turns;
        } in
        let b = release_failed-Becomes-at s.queues item j key in
        rw (e, step)
          (balance_taken s s' j k (pending_elsewhere s s' j k _ b (ended j s.turns)) (item ∷ [])
            (rw (e, ended_none j _ s.turns t (v j) found, b.here)))
  ]

  pub requeues-Balanced : (j k : String) → Balanced s (requeues j) k
  unfolding step
  requeues-Balanced j k = elim (Option-cases (popped (turn_of j s.turns))) [
    | inl e ↦ rw (e, step) (balance s s j k (λ d. refl) refl)
    | inr (item, e) ↦
        let (t, found) = popped_turn _ item e in
        let key = keyed_of j _ item (v j).popped_keyed e in
        let s' : System = record {
          queues = requeue_prompt_front s.queues item;
          turns = end_turn j s.turns;
        } in
        let b = requeue-Becomes-at s.queues item j key in
        rw (e, step)
          (balance s s' j k (pending_elsewhere s s' j k _ b (ended j s.turns))
            (rw (e, ended_none j _ s.turns t (v j) found, b.here)))
  ]

  pub completes-Balanced :
      (session_key agent k : String) → Balanced s (completes session_key agent) k
  unfolding step
  completes-Balanced session_key agent k =
      let j = (prompt_queue_key session_key agent).0 in
      elim (Bool-cases (has_begun (turn_of j s.turns))) [
        | inl e ↦
            let (t, found) = begun_turn _ e in
            let b = (complete_prompt_turn-Becomes s.queues session_key agent).0 in
            let s' : System = record {
              queues = (complete_prompt_turn s.queues j session_key agent).0;
              turns = end_turn j s.turns;
            } in
            rw e (
              balance s s' j k (pending_elsewhere s s' j k _ b (ended j s.turns))
                (rw (begun_pops _ e, ended_none j _ s.turns t (v j) found, b.here)))
        | inr e ↦ rw e (balance s s j k (λ d. refl) refl)
      ]

  pub drained :
      (j k : String) (qs : Queues) (next : Option QueuedPrompt)
      → Pops s.queues j qs next
      → pending s k ++ []
        ≡ []
          ++ pending
              (record {
                queues = qs;
                turns = elim next [ none ↦ s.turns | some item ↦ turn_for j (some item) ∷ s.turns ];
              })
              k
  drained j k qs none p = rw p.0 (balance s s j k (λ d. refl) refl)
  drained j k qs (some item) (idle, (rest, e, b)) =
      let s' : System = record { queues = qs; turns = turn_for j (some item) ∷ s.turns } in
      balance s s' j k (pending_elsewhere s s' j k _ b (new_turn j (some item) s.turns))
        (rw (not_popped s j v idle, e, turn_of_new j (some item) s.turns, b.here))

  pub drains-Balanced : (j k : String) → Balanced s (drains j) k
  unfolding step
  drains-Balanced j k = drained j k _ _ (pop-Pops s.queues j)

  -- An enqueue puts an accepted item behind what waits, and a refused one changes nothing.
  pub queued :
      (j k : String) (item : QueuedPrompt) (qs : Queues) (r : Result ℕ)
      → Enqueues s.queues j item qs r
      → pending s k ++ (if j == k then newly item false r else [])
        ≡ [] ++ pending (record s { queues = qs }) k
  queued j k item qs (ok n) q =
      let s' : System = record s { queues = qs } in
      balance_accepted s s' j k (pending_elsewhere s s' j k _ q.becomes (same_turns j s.turns))
        (item ∷ [])
        (rw q.becomes.here (
          append_assoc (optional (popped (turn_of j s.turns))) (state_of s.queues j).items
            (item ∷ [])))
  queued j k item qs (err x) q =
      let s' : System = record s { queues = qs } in
      balance_accepted s s' j k (λ d. rw (q.same k)) [] (rw (q.same j, append-nil))

  pub enqueues-Balanced : (a : Arrival) (k : String) → Balanced s (enqueues a) k
  unfolding step
  enqueues-Balanced a k =
      queued a.key k (user_item_for a s.queues) _ _ (
        enqueue_prompt-Enqueues s.queues a.key a.local_session_id a.agent_session_id a.message
          a.now)

  pub back_in_line :
      (j k : String) (t : Turn) (item : QueuedPrompt) (qs : Queues) (o : Option (Result ℕ))
      → turn_of j s.turns ≡ some t
      → popped (turn_of j s.turns) ≡ none
      → Returned s.queues j item qs o
      → pending s k ++ (if j == k then given_back item true o else [])
        ≡ [] ++ pending (record { queues = qs; turns = end_turn j s.turns }) k
  back_in_line j k t item qs none found e b =
      let s' : System = record { queues = qs; turns = end_turn j s.turns } in
      balance_accepted s s' j k (pending_elsewhere s s' j k _ b (ended j s.turns)) []
        (rw (e, ended_none j _ s.turns t (v j) found, b.here, append-nil))
  back_in_line j k t item qs (some (err x)) found e b =
      let s' : System = record { queues = qs; turns = end_turn j s.turns } in
      balance_accepted s s' j k (pending_elsewhere s s' j k _ b (ended j s.turns)) []
        (rw (e, ended_none j _ s.turns t (v j) found, b.here, append-nil))
  back_in_line j k t item qs (some (ok n)) found e (b, room) =
      let s' : System = record { queues = qs; turns = end_turn j s.turns } in
      balance_accepted s s' j k (pending_elsewhere s s' j k _ b (ended j s.turns)) (item ∷ [])
        (rw (e, ended_none j _ s.turns t (v j) found, b.here))

  pub returns-Balanced :
      (j job_id : String) (msg : Message) (now : ℕ) (k : String)
      → Balanced s (returns j job_id msg now) k
  unfolding step
  returns-Balanced j job_id msg now k = elim (Bool-cases (has_begun (turn_of j s.turns))) [
    | inl e ↦
        let (t, found) = begun_turn _ e in
        rw e (
          back_in_line j k t (new_item s.queues j "" "" "cron" job_id msg now) _ _ found
            (begun_pops _ e) (return_cron_turn-Returned s.queues j job_id msg now))
    | inr e ↦ rw e (balance_accepted s s j k (λ d. refl) [] (append-nil (pending s j)))
  ]

  pub arrived :
      (a : Arrival) (k : String) (qs : Queues) (claimed : Bool) (r : Result ℕ)
      → ((is_busy (state_of s.queues a.key) ≡ false)
          × (claimed ≡ true)
          × Becomes s.queues qs a.key (record { running = true; items = [] }))
        ⊎ ((claimed ≡ false) × Enqueues s.queues a.key (item_for a s.queues) qs r)
      → pending s k ++ (if a.key == k then newly (item_for a s.queues) claimed r else [])
        ≡ []
          ++ pending
              (record {
                queues = qs;
                turns = if claimed then turn_for a.key none ∷ s.turns else s.turns;
              })
              k
  arrived a k qs claimed r (inl (idle, c, b)) =
      let s' : System = record { queues = qs; turns = turn_for a.key none ∷ s.turns } in
      let (open_gate, no_items) = idle_parts (state_of s.queues a.key) idle in
      rw c (
        balance_accepted s s' a.key k
          (pending_elsewhere s s' a.key k _ b (new_turn a.key none s.turns)) []
          (rw (not_popped s a.key v open_gate, no_items, turn_of_new a.key none s.turns, b.here)))
  arrived a k qs claimed r (inr (c, q)) = rw c (queued a.key k (item_for a s.queues) qs r q)

  pub arrives-Balanced : (a : Arrival) (k : String) → Balanced s (arrives a) k
  unfolding step
  arrives-Balanced a k = arrived a k _ _ _ (how (Bool-cases (is_busy (state_of s.queues a.key))))
    where
      how :
          (is_busy (state_of s.queues a.key) ≡ true) ⊎ (is_busy (state_of s.queues a.key) ≡ false)
          → ((is_busy (state_of s.queues a.key) ≡ false)
              × ((began a s.queues).1 ≡ true)
              × Becomes s.queues (began a s.queues).0 a.key (record { running = true; items = [] }))
            ⊎ (((began a s.queues).1 ≡ false)
                × Enqueues s.queues a.key
                    (item_for a s.queues)
                    (began a s.queues).0
                    (began a s.queues).2)
      how (inl busy) = inr (begin-busy s.queues a.key _ _ _ _ _ _ busy)
      how (inr idle) =
          let (goes, _, b) = begin-idle s.queues a.key _ _ _ _ _ _ idle in inl (idle, goes, b)

  -- An edit of one chat's queue is not seen in the others.
  pub edited :
      (j k : String) (qs : Queues) (state : PromptQueueState)
      → j ≢ k
      → Becomes s.queues qs j state
      → pending s k ++ [] ≡ [] ++ pending (record s { queues = qs }) k
  edited j k qs state d b =
      let s' : System = record s { queues = qs } in
      rw append-nil (sym (pending_elsewhere s s' j k state b (same_turns j s.turns) d))

  pub deleted :
      (j k name : String) (r : Queues × Bool)
      → j ≢ k
      → Deletes s.queues j name r
      → pending s k ++ [] ≡ [] ++ pending (record s { queues = r.0 }) k
  deleted j k name r d (inl (_, e, _)) = rw (e, append-nil)
  deleted j k name r d (inr (_, (i, _, (c, b)))) = edited j k r.0 _ d b

  pub moved :
      (j k name : String) (delta : Delta) (r : Queues × Bool)
      → j ≢ k
      → Moves s.queues j name delta r
      → pending s k ++ [] ≡ [] ++ pending (record s { queues = r.0 }) k
  moved j k name delta r d (inl (_, e, _)) = rw (e, append-nil)
  moved j k name delta r d (inr (_, (i, _, (m, _, t)))) = edited j k r.0 _ d t.becomes
