-- ===== src/PromptQueue/Begin.antt =====
-- beginPromptTurnOrEnqueue, and its twin for cron turns: claim the idle queue, or wait in line.
use echo_client.Prelude.{
  ℕ, ◌+◌, ◌≤◌, ◌%◌, ◌^◌, String, Bool, true, false, ◌≡◌, refl, ◌⊎◌, inl, inr, [], ◌∷◌, ◌++◌, arith,
  leb, if◌then◌else◌, length, Bool-cases, ◌∙◌, ap, ◌==◌, eq_iff, ==_true,
}
use echo_client.Prelude.Text.{decimal, trim_space}
use echo_client.Message.{Message}
use echo_client.PromptQueue.{
  QueuedPrompt, PromptQueueState, Queues, queue_full, attachments_too_large, Result, ok, err,
  state_of, ensure_state, new_item, prompt_id, is_busy, set_running, enqueue_prompt_locked,
  begin_or_enqueue,
}
use echo_client.PromptQueue.Enqueue.{Fits, accepted, enqueue-Fits, enqueue-refused, Fits-cases}
use echo_client.PromptQueue.Limits.{
  payloads, queue_payloads, size, WithinLimits, Fits-WithinLimits, WithinLimits-Fits,
}
use echo_client.PromptQueue.Lifecycle.{Becomes, set_state-Becomes}

-- How an enqueue can go: accepted at the end of the line, within the limits, or refused.
pub record Queued (qs : Queues) (k : String) (item : QueuedPrompt) (qs' : Queues) (n : ℕ)
    : Type 0 where
  pub becomes :
      Becomes qs qs' k (record (state_of qs k) { items = (state_of qs k).items ++ item ∷ [] })
  pub position : n ≡ length (state_of qs k).items + 1
  pub room : n ≤ 20
  pub bytes : size (payloads item.message) + size (queue_payloads (state_of qs k).items) ≤ 52428800
  pub named : item.id ≡ String.◌∷◌ "q" (decimal ((qs.prompt_queue_seq + 1) % 2 ^ 64))
  pub numbered : qs'.prompt_queue_seq ≡ (qs.prompt_queue_seq + 1) % 2 ^ 64

pub record Refused (qs : Queues) (k : String) (qs' : Queues) : Type 0 where
  pub same : (j : String) → state_of qs' j ≡ state_of qs j
  pub unnumbered : qs'.prompt_queue_seq ≡ qs.prompt_queue_seq

abbrev pub Enqueues : Queues → String → QueuedPrompt → Queues → Result ℕ → Type 0
Enqueues qs k item qs' (ok n) = Queued qs k item qs' n
Enqueues qs k item qs' (err e) = Refused qs k qs'

idle_items : (s : PromptQueueState) → is_busy s ≡ false → s.items ≡ []
unfolding is_busy
idle_items s h = ground arith

-- To create the missing entry shows in no read.
ensure-Becomes : (qs : Queues) (k : String) → Becomes qs (ensure_state qs k) k (state_of qs k)
ensure-Becomes qs k = set_state-Becomes qs k (state_of qs k)

ensure-same : (qs : Queues) (k j : String) → state_of (ensure_state qs k) j ≡ state_of qs j
ensure-same qs k j = elim (Bool-cases (k == j)) [
  | inl e ↦ rw (← (eq_iff k j).0 e) (ensure-Becomes qs k).here
  | inr d ↦ (ensure-Becomes qs k).elsewhere j (λ e. cc (==_true k j e))
]

pub Enqueues-ensure :
    (qs : Queues) (k : String) (item : QueuedPrompt) (qs' : Queues) (r : Result ℕ)
    → Enqueues (ensure_state qs k) k item qs' r
    → Enqueues qs k item qs' r
Enqueues-ensure qs k item qs' (ok n) q =
    let e = ensure-Becomes qs k in
    record {
      becomes = record {
        here =
            q.becomes.here
            ∙ ap {A = PromptQueueState} (λ s. record s { items = s.items ++ item ∷ [] }) e.here;
        elsewhere = λ j d. q.becomes.elsewhere j d ∙ e.elsewhere j d;
      };
      position = q.position ∙ ap (λ s. length s.items + 1) e.here;
      room = q.room;
      bytes = rw e.here at q.bytes;
      named = q.named;
      numbered = q.numbered;
    }
Enqueues-ensure qs k item qs' (err x) q = record {
  same = λ j. q.same j ∙ ensure-same qs k j;
  unnumbered = q.unnumbered;
}

claim-Becomes :
    (qs : Queues) (k : String)
    → is_busy (state_of qs k) ≡ false
    → Becomes qs (set_running (ensure_state qs k) k true) k (record { running = true; items = [] })
claim-Becomes qs k h =
    let qs' = ensure_state qs k in
    let e : (state_of qs' k).items ≡ [] =
      ap (λ s. s.items) (ensure-Becomes qs k).here ∙ idle_items (state_of qs k) h in
    let written =
      set_state-Becomes qs' k (record { running = true; items = (state_of qs' k).items }) in
    record {
      here = written.here ∙ ap (λ xs. record { running = true; items = xs }) e;
      elsewhere = λ j d. written.elsewhere j d ∙ (ensure-Becomes qs k).elsewhere j d;
    }

module _ (qs : Queues) (k local_session_id agent_session_id source job_id : String) (msg : Message)
    (now : ℕ) where
  abbrev pub item : QueuedPrompt
  item = new_item qs k local_session_id agent_session_id source job_id msg now

  abbrev outcome : Queues × Result ℕ
  outcome = enqueue_prompt_locked qs k local_session_id agent_session_id source job_id msg now

  accepted-Queued :
      Fits qs k msg
      → Queued qs k item
          (accepted qs k local_session_id agent_session_id source job_id msg now)
          (length (state_of qs k).items + 1)
  unfolding new_item prompt_id
  accepted-Queued fits =
      let s : PromptQueueState = record (state_of qs k) {
        items = (state_of qs k).items ++ item ∷ [];
      } in
      let written = set_state-Becomes qs k s in
      record {
        becomes = record { here = written.here; elsewhere = written.elsewhere };
        position = refl;
        room = omega (arith, fits.room);
        bytes = (Fits-WithinLimits qs k msg fits).queue_bytes;
        named = refl;
        numbered = refl;
      }

  pub enqueue-Enqueues : Enqueues qs k item outcome.0 outcome.1
  enqueue-Enqueues =
      elim (Fits-cases qs k local_session_id agent_session_id source job_id msg now) [
        | inl fits ↦
            rw (enqueue-Fits qs k local_session_id agent_session_id source job_id msg now fits)
              (accepted-Queued fits)
        | inr other ↦
            rw (enqueue-refused qs k local_session_id agent_session_id source job_id msg now other)
              (record { same = λ j. refl; unnumbered = refl })
      ]

  -- The prompt that the queue holds once it is accepted, by what was handed over.
  abbrev pub queued_prompt : QueuedPrompt
  queued_prompt = record {
    id = String.◌∷◌ "q" (decimal ((qs.prompt_queue_seq + 1) % 2 ^ 64));
    queue_key = k;
    origin_session_key = msg.session_key;
    origin_local_session_id = trim_space local_session_id;
    origin_platform = msg.platform;
    agent_session_id_snapshot = trim_space agent_session_id;
    source = if source == "" then "user" else source;
    job_id = job_id;
    message = msg;
    created_at = now;
  }

  -- A prompt is accepted exactly if its queue has fewer than 20 prompts, all payloads of the queue's
  -- prompts and its own have 50 MB at most, and those of all prompts in the engine and its own 200 MB.
  -- Then it waits at the end of its chat's queue, with the id "q" and the next number, and it is told
  -- its position; no other queue changes. Otherwise nothing changes, and the error is that of a full
  -- queue exactly if the queue has 20 prompts or more.
  pub enqueue_lem :
      (WithinLimits qs k msg
        × (outcome.1 ≡ ok (length (state_of qs k).items + 1))
        × Queued qs k queued_prompt outcome.0 (length (state_of qs k).items + 1))
      ⊎ ((¬ WithinLimits qs k msg)
          × (outcome ≡ (
            qs,
            err (
                if leb 20 (length (state_of qs k).items)
                then queue_full
                else attachments_too_large),
          )))
  unfolding new_item prompt_id
  enqueue_lem = elim (Fits-cases qs k local_session_id agent_session_id source job_id msg now) [
    | inl fits ↦
        rw (enqueue-Fits qs k local_session_id agent_session_id source job_id msg now fits)
          (inl (Fits-WithinLimits qs k msg fits, refl, accepted-Queued fits))
    | inr other ↦
        rw (enqueue-refused qs k local_session_id agent_session_id source job_id msg now other)
          (inr ((λ w. other (WithinLimits-Fits qs k msg w)), refl))
  ]

module _ (qs : Queues) (k local_session_id agent_session_id source job_id : String) (msg : Message)
    (now : ℕ) where
  abbrev begun : Queues × Bool × Result ℕ
  begun = begin_or_enqueue qs k local_session_id agent_session_id source job_id msg now

  pub begin-idle :
      is_busy (state_of qs k) ≡ false
      → (begun.1 ≡ true)
        × (begun.2 ≡ ok 0)
        × Becomes qs begun.0 k (record { running = true; items = [] })
  unfolding begin_or_enqueue
  begin-idle h = rw h (refl, refl, claim-Becomes qs k h)

  pub begin-busy :
      is_busy (state_of qs k) ≡ true
      → (begun.1 ≡ false)
        × Enqueues qs k
            (new_item qs k local_session_id agent_session_id source job_id msg now)
            begun.0
            begun.2
  unfolding begin_or_enqueue new_item
  begin-busy h =
      let at = ensure_state qs k in
      rw h (
        refl,
        Enqueues-ensure qs k (new_item qs k local_session_id agent_session_id source job_id msg now)
            _ _ (enqueue-Enqueues at k local_session_id agent_session_id source job_id msg now),
      )
