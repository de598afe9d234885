-- ===== src/PromptQueue/System/Gate.antt =====
-- In every reachable state a chat has at most one turn, and has one exactly when its gate is closed.
use echo_client.Prelude.{
  ◌+◌, ◌≤◌, String, Bool, true, false, ◌≡◌, refl, sym, ◌∙◌, inl, inr, Option, none, some, List, [],
  ◌∷◌, arith, if◌then◌else◌, length, Bool-cases, Option-cases,
}
use echo_client.Prelude.Dict.{get}
use echo_client.PromptQueue.{
  QueuedPrompt, PromptQueueState, Queues, prompt_queue_key, state_of, is_busy,
  max_prompt_queue_items, new_item,
}
use echo_client.PromptQueue.Lifecycle.{
  Becomes, Pops, complete_prompt_turn-Becomes, release_failed-Becomes-at, requeue-Becomes-at,
  pop-Pops,
}
use echo_client.PromptQueue.Begin.{begin-idle, begin-busy}
use echo_client.PromptQueue.System.{
  Turn, System, Arrival, Event, arrives, enqueues, returns, drains, starts, requeues, fails,
  completes, deletes, moves, clears, cancels, turn_of, end_turn, item_for, began, turn_for, popped,
  has_begun, step, run, empty,
}
use echo_client.PromptQueue.System.Turns.{
  begun_turn, holders, new_turn, ended, holders_new, turn_of_new, holders-end_turn,
}
use echo_client.PromptQueue.System.Keys.{OneEach, step-OneEach}
use echo_client.PromptQueue.System.Ways.{refused-Inv, queued-Inv, enqueues-Inv, returns-Inv}
use echo_client.PromptQueue.System.Edits.{deletes-Inv, moves-Inv, clears-Inv, cancels-Inv}
use echo_client.PromptQueue.System.Invariant.{
  ended_none, PoppedKeyed, KeyInv, Inv, lift, claim-KeyInv, pop-KeyInv, start-KeyInv,
  release-KeyInv, requeue-KeyInv,
}

module _ (s : System) (v : Inv s) where
  arrives-claimed :
      (a : Arrival) (qs : Queues)
      → is_busy (state_of s.queues a.key) ≡ false
      → Becomes s.queues qs a.key (record { running = true; items = [] })
      → Inv (record { queues = qs; turns = turn_for a.key none ∷ s.turns })
  arrives-claimed a qs idle b =
      lift s (record { queues = qs; turns = turn_for a.key none ∷ s.turns }) a.key _ v b
        (new_turn a.key none s.turns)
        (rw (holders_new a.key none s.turns, turn_of_new a.key none s.turns)
          (claim-KeyInv a.key _ _ _ (v a.key) idle))

  arrives-Inv : (a : Arrival) → Inv (step s (arrives a))
  unfolding step new_item
  arrives-Inv a = elim (Bool-cases (is_busy (state_of s.queues a.key))) [
    | inl busy ↦
        let (waits, q) =
          begin-busy s.queues a.key a.local_session_id a.agent_session_id a.source a.job_id
            a.message a.now busy in
        at false waits (queued-Inv s v a.key (item_for a s.queues) refl _ _ q)
    | inr idle ↦
        let (goes, _, b) =
          begin-idle s.queues a.key a.local_session_id a.agent_session_id a.source a.job_id
            a.message a.now idle in
        at true goes (arrives-claimed a _ idle b)
  ]
    where
      at :
          (c : Bool)
          → (began a s.queues).1 ≡ c
          → Inv (record {
            queues = (began a s.queues).0;
            turns = if c then turn_for a.key none ∷ s.turns else s.turns;
          })
          → Inv (record {
            queues = (began a s.queues).0;
            turns = if (began a s.queues).1 then turn_for a.key none ∷ s.turns else s.turns;
          })
      at c e h = rw e h

  drained :
      (k : String) (qs : Queues) (next : Option QueuedPrompt)
      → Pops s.queues k qs next
      → Inv (record {
        queues = qs;
        turns = elim next [ none ↦ s.turns | some item ↦ turn_for k (some item) ∷ s.turns ];
      })
  drained k qs none p = refused-Inv s v qs (λ j. rw p.0)
  drained k qs (some item) (idle, (rest, e, b)) =
      lift s (record { queues = qs; turns = turn_for k (some item) ∷ s.turns }) k _ v b
        (new_turn k (some item) s.turns)
        (rw (holders_new k (some item) s.turns, turn_of_new k (some item) s.turns)
          (pop-KeyInv k _ _ _ (v k) item rest idle e))

  drains-Inv : (k : String) → Inv (step s (drains k))
  unfolding step
  drains-Inv k = drained k _ _ (pop-Pops s.queues k)

  ends-Inv :
      (qs : Queues) (k : String) (t : Turn) (state : PromptQueueState)
      → turn_of k s.turns ≡ some t
      → Becomes s.queues qs k state
      → KeyInv k state (holders k (end_turn k s.turns)) none
      → Inv (record { queues = qs; turns = end_turn k s.turns })
  ends-Inv qs k t state e b h =
      lift s (record { queues = qs; turns = end_turn k s.turns }) k state v b (ended k s.turns)
        (rw (ended_none k (state_of s.queues k) s.turns t (v k) e) h)

-- The turn whose item was popped.
pub popped_turn :
    (o : Option Turn) (item : QueuedPrompt) → popped o ≡ some item → (t : Turn) × (o ≡ some t)
popped_turn none item e = cc
popped_turn (some t) item e = (t, refl)

pub keyed_of :
    (k : String) (i : Option QueuedPrompt) (item : QueuedPrompt)
    → PoppedKeyed k i
    → i ≡ some item
    → item.queue_key ≡ k
keyed_of k none item p e = cc
keyed_of k (some x) item p e = ground arith

module _ (s : System) (v : Inv s) where
  module _ (k : String) where
    at : KeyInv k (state_of s.queues k) (holders k s.turns) (turn_of k s.turns)
    at = v k

    starts-at :
        (item : QueuedPrompt) (t : Turn)
        → turn_of k s.turns ≡ some t
        → Inv (record s { turns = turn_for k none ∷ end_turn k s.turns })
    starts-at item t e =
        let ts = end_turn k s.turns in
        let count : holders k (turn_for k none ∷ ts) ≡ holders k s.turns =
          holders_new k none ts ∙ sym (holders-end_turn k s.turns t e) in
        lift s (record s { turns = turn_for k none ∷ ts }) k (state_of s.queues k) v
          (record { here = refl; elsewhere = λ j d. refl })
          (record {
            count = λ j d. (new_turn k none ts).count j d ∙ (ended k s.turns).count j d;
            found = λ j d. (new_turn k none ts).found j d ∙ (ended k s.turns).found j d;
          })
          (rw (count, turn_of_new k none ts) (start-KeyInv k _ _ _ at))

  starts-Inv : (k : String) → Inv (step s (starts k))
  unfolding step
  starts-Inv k = elim (Option-cases (popped (turn_of k s.turns))) [
    | inl e ↦ rw (e, step) v
    | inr (item, e) ↦
        let (t, found) = popped_turn _ item e in rw (e, step) (starts-at k item t found)
  ]

  requeues-Inv : (k : String) → Inv (step s (requeues k))
  unfolding step
  requeues-Inv k = elim (Option-cases (popped (turn_of k s.turns))) [
    | inl e ↦ rw (e, step) v
    | inr (item, e) ↦
        let (t, found) = popped_turn _ item e in
        let key = keyed_of k _ item (v k).popped_keyed e in
        let b = requeue-Becomes-at s.queues item k key in
        rw (e, step)
          (ends-Inv s v _ k t _ found b
            (requeue-KeyInv k _ _ _ (v k) _ item (holders-end_turn k s.turns t found) e))
  ]

  fails-Inv : (k : String) → Inv (step s (fails k))
  unfolding step
  fails-Inv k = elim (Option-cases (popped (turn_of k s.turns))) [
    | inl e ↦ rw (e, step) v
    | inr (item, e) ↦
        let (t, found) = popped_turn _ item e in
        let key = keyed_of k _ item (v k).popped_keyed e in
        let b = release_failed-Becomes-at s.queues item k key in
        rw (e, step)
          (ends-Inv s v _ k t _ found b
            (release-KeyInv k _ _ _ (v k) _ (holders-end_turn k s.turns t found)))
  ]

  completes-Inv :
      (session_key agent_session_id : String)
      → Inv (step s (completes session_key agent_session_id))
  unfolding step
  completes-Inv session_key agent_session_id =
      let k = (prompt_queue_key session_key agent_session_id).0 in
      elim (Bool-cases (has_begun (turn_of k s.turns))) [
        | inl e ↦
            let (t, found) = begun_turn _ e in
            rw e (
              ends-Inv s v _ k t _ found
                (complete_prompt_turn-Becomes s.queues session_key agent_session_id).0
                (release-KeyInv k _ _ _ (v k) _ (holders-end_turn k s.turns t found)))
        | inr e ↦ rw e v
      ]

pub step-Inv : (s : System) (e : Event) → Inv s → OneEach s.queues → Inv (step s e)
step-Inv s (arrives a) v d = arrives-Inv s v a
step-Inv s (enqueues a) v d = enqueues-Inv s v a
step-Inv s (returns k job msg now) v d = returns-Inv s v k job msg now
step-Inv s (drains k) v d = drains-Inv s v k
step-Inv s (starts k) v d = starts-Inv s v k
step-Inv s (requeues k) v d = requeues-Inv s v k
step-Inv s (fails k) v d = fails-Inv s v k
step-Inv s (completes sk agent) v d = completes-Inv s v sk agent
step-Inv s (deletes k name) v d = deletes-Inv s v k name
step-Inv s (moves k name delta) v d = moves-Inv s v k name delta
step-Inv s (clears k) v d = clears-Inv s v k
step-Inv s (cancels sk local agent) v d = cancels-Inv s v sk local agent d

pub run-Inv : (s : System) (es : List Event) → Inv s → OneEach s.queues → Inv (run s es)
unfolding run
run-Inv s [] v d = v
run-Inv s (e ∷ es) v d = run-Inv (step s e) es (step-Inv s e v d) (step-OneEach s e d)

pub empty-Inv : Inv empty
unfolding holders turn_of get
empty-Inv k = record { gate = refl; keyed = tt; popped_keyed = tt; bounded = omega arith }

-- After any sequence of arrivals, enqueues, drains, starts, requeues, failures, completions, returns of
-- cron turns, /queue deletions, moves and clears and cancellations on a session switch, from an empty
-- engine: a chat has exactly one turn while its queue is marked running, and none otherwise.
pub one_turn_per_chat :
    (es : List Event) (k : String)
    → holders k (run empty es).turns ≡ (if (state_of (run empty es).queues k).running then 1 else 0)
one_turn_per_chat es k = (run-Inv empty es empty-Inv tt k).gate

-- After any sequence of such steps from an empty engine, no queue holds more than 21 items, one
-- above the limit of 20, which a popped item that is put back may exceed.
pub queue_bounded :
    (es : List Event) (k : String)
    → length (state_of (run empty es).queues k).items ≤ max_prompt_queue_items + 1
queue_bounded es k = omega (arith, (run-Inv empty es empty-Inv tt k).bounded)
