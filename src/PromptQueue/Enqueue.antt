-- ===== src/PromptQueue/Enqueue.antt =====
-- enqueuePromptLocked and the two ways in: the limits, the position, the order of arrival.
use echo_client.Prelude.{
  ℕ, ◌+◌, ◌≤◌, ◌<◌, String, true, false, ◌≡◌, ◌⊎◌, inl, inr, [], ◌∷◌, ◌++◌, arith, ltb, leb,
  if◌then◌else◌, length, length-append, Bool-cases, leb-false, ltb-false, leb→le, ltb→lt,
}
use echo_client.Message.{Message}
use echo_client.PromptQueue.{
  QueuedPrompt, Queues, queue_full, attachments_too_large, Result, ok, err, max_prompt_queue_items,
  max_prompt_queue_attachment_bytes, max_prompt_queue_engine_bytes, prompt_queue_attachment_bytes,
  prompt_queue_items_attachment_bytes, prompt_queues_attachment_bytes_locked, state_of, set_state,
  next_seq, new_item, enqueue_prompt_locked,
}

-- The three limits, as the source means them.
pub record Fits (qs : Queues) (queue_key : String) (msg : Message) : Type 0 where
  pub room : length (state_of qs queue_key).items < max_prompt_queue_items
  pub queue_bytes :
      prompt_queue_attachment_bytes msg
        + prompt_queue_items_attachment_bytes (state_of qs queue_key).items
      ≤ max_prompt_queue_attachment_bytes
  pub engine_bytes :
      prompt_queues_attachment_bytes_locked qs + prompt_queue_attachment_bytes msg
      ≤ max_prompt_queue_engine_bytes

module _ (qs : Queues) (queue_key local_session_id agent_session_id source job_id : String)
    (msg : Message) (now : ℕ) where
  abbrev outcome : Queues × Result ℕ
  outcome =
      enqueue_prompt_locked qs queue_key local_session_id agent_session_id source job_id msg now

  abbrev pub item : QueuedPrompt
  item = new_item qs queue_key local_session_id agent_session_id source job_id msg now

  -- What an accepted prompt does: the item goes to the end of its queue, and the number moves on.
  abbrev pub accepted : Queues
  accepted =
      let state = state_of qs queue_key in
      record (set_state qs queue_key (record state { items = state.items ++ item ∷ [] })) {
        prompt_queue_seq = next_seq qs;
      }

  all_limits :
      leb max_prompt_queue_items (length (state_of qs queue_key).items) ≡ false
      → ltb max_prompt_queue_attachment_bytes (
          prompt_queue_attachment_bytes msg
          + prompt_queue_items_attachment_bytes (state_of qs queue_key).items)
        ≡ false
      → ltb max_prompt_queue_engine_bytes
          (prompt_queues_attachment_bytes_locked qs + prompt_queue_attachment_bytes msg)
        ≡ false
      → Fits qs queue_key msg
  all_limits a b c = record {
    room = leb-false max_prompt_queue_items _ a;
    queue_bytes = ltb-false max_prompt_queue_attachment_bytes _ b;
    engine_bytes = ltb-false max_prompt_queue_engine_bytes _ c;
  }

  -- A prompt that fits is put at the end of its queue, and told its position.
  pub enqueue-Fits :
      Fits qs queue_key msg → outcome ≡ (accepted, ok (length (state_of qs queue_key).items + 1))
  unfolding enqueue_prompt_locked
  enqueue-Fits fits = ground (arith, length-append (state_of qs queue_key).items (item ∷ []))

  -- One that does not fit changes nothing; a full queue is reported first.
  pub enqueue-refused :
      ¬ Fits qs queue_key msg
      → outcome ≡ (
        qs,
        err (
            if leb max_prompt_queue_items (length (state_of qs queue_key).items)
            then queue_full
            else attachments_too_large),
      )
  unfolding enqueue_prompt_locked
  enqueue-refused h = ground (arith, all_limits)

  not_Fits :
      (leb max_prompt_queue_items (length (state_of qs queue_key).items) ≡ true)
        ⊎ (ltb max_prompt_queue_attachment_bytes (
              prompt_queue_attachment_bytes msg
              + prompt_queue_items_attachment_bytes (state_of qs queue_key).items)
            ≡ true)
        ⊎ (ltb max_prompt_queue_engine_bytes
              (prompt_queues_attachment_bytes_locked qs + prompt_queue_attachment_bytes msg)
            ≡ true)
      → ¬ Fits qs queue_key msg
  not_Fits (inl a) fits = omega (arith, leb→le max_prompt_queue_items _ a, fits.room)
  not_Fits (inr (inl b)) fits =
      omega (arith, ltb→lt max_prompt_queue_attachment_bytes _ b, fits.queue_bytes)
  not_Fits (inr (inr c)) fits =
      omega (arith, ltb→lt max_prompt_queue_engine_bytes _ c, fits.engine_bytes)

  -- Whether a prompt fits is decided by the code's three tests.
  pub Fits-cases : Fits qs queue_key msg ⊎ (¬ Fits qs queue_key msg)
  Fits-cases =
      elim (Bool-cases (leb max_prompt_queue_items (length (state_of qs queue_key).items))) [
        | inl a ↦ inr (not_Fits (inl a))
        | inr a ↦
            elim (Bool-cases (
              ltb max_prompt_queue_attachment_bytes (
                prompt_queue_attachment_bytes msg
                + prompt_queue_items_attachment_bytes (state_of qs queue_key).items))) [
                  | inl b ↦ inr (not_Fits (inr (inl b)))
                  | inr b ↦
                      elim (Bool-cases (
                        ltb max_prompt_queue_engine_bytes (
                          prompt_queues_attachment_bytes_locked qs
                          + prompt_queue_attachment_bytes msg))) [
                            | inl c ↦ inr (not_Fits (inr (inr c)))
                            | inr c ↦ inl (all_limits a b c)
                          ]
                ]
      ]
