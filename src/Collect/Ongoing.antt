-- ===== src/Collect/Ongoing.antt =====
-- core/collect.go: a batch that is being flushed, through any operations that do not end the flush.
use mathlib.Core.List.{append_assoc, append-nil}
use echo_client.Prelude.{
  ℕ, String, Bool, true, false, not, ◌&&◌, ◌||◌, ◌≡◌, refl, sym, ap, ◌∙◌, ◌≢◌, inl, inr, none, some,
  List, [], ◌∷◌, ◌++◌, ◌==◌, arith, ltb, leb, eqb, Bool-cases, Option-cases, length, eq_iff,
  ==_true, All, if◌then◌else◌,
}
use echo_client.Prelude.Dict.{get, get-put_self, get-put_ne, get-delete_ne}
use echo_client.Message.{Message, ImageAttachment, FileAttachment}
use echo_client.Collect.{
  Collections, CollectedItem, PendingCollectedBatch, PendingAttachments, at, set_batch, drop_batch,
  max_collected_items, clear_pending_attachments, store_pending_attachments, is_nil,
}
use echo_client.Collect.Batch.{
  new_batch, start_pending_collection, clear_pending_collection,
  expire_pending_collection_if_needed, set_pending_collection_awaiting_instruction, absorb_into,
  absorb_pending_attachments_into_collection, buffered, buffer_pending_collection, begin_flush,
  begin_pending_collection_flush, fail_flush, fail_pending_collection_flush, attachments_item,
  collected_item,
}
use echo_client.Collect.Bound.{
  Op, start_batch, clear_batch, fail_op, expire, absorb, awaiting, store_op, flush, buffer, step,
  run,
}

-- The batch of a key is being flushed, and holds the items of an earlier batch and maybe more.
pub record Held (b : PendingCollectedBatch) (key : String) (c : Collections) : Type 0 where
  pub batch : PendingCollectedBatch
  pub there : at c key ≡ some batch
  pub flushing : batch.flushing ≡ true
  pub more : List CollectedItem
  pub items : batch.items ≡ b.items ++ more

-- An operation does not end the flush of a key: it is no clear of its batch and no failure of its flush.
abbrev pub IsOngoing : String → Op → Type 0
IsOngoing key (clear_batch k now) = k ≢ key
IsOngoing key (fail_op k now) = k ≢ key
IsOngoing key op = Unit

module _ (b : PendingCollectedBatch) (key : String) (c : Collections) (h : Held b key c) where
  write_elsewhere :
      (k : String) (x : PendingCollectedBatch) → k ≢ key → Held b key (set_batch c k x)
  write_elsewhere k x d = record {
    batch = h.batch;
    there = get-put_ne k key x c.pending_collect d ∙ h.there;
    flushing = h.flushing;
    more = h.more;
    items = h.items;
  }

  drop_elsewhere : (k : String) → k ≢ key → Held b key (drop_batch c k)
  drop_elsewhere k d = record {
    batch = h.batch;
    there = get-delete_ne k key c.pending_collect d ∙ h.there;
    flushing = h.flushing;
    more = h.more;
    items = h.items;
  }

  ne : (k : String) → (k == key) ≡ false → k ≢ key
  ne k e same = cc (==_true k key same)

  -- The batch that is found under the key is the one that is held.
  found_is :
      (k : String) (x : PendingCollectedBatch) → k ≡ key → at c k ≡ some x → some x ≡ some h.batch
  found_is k x e f = sym f ∙ ap (at c) e ∙ h.there

  -- A write of a batch that goes on with the flush and only adds items.
  write_own :
      (k : String) (x x' : PendingCollectedBatch) (added : List CollectedItem)
      → at c k ≡ some x
      → (x'.flushing ≡ x.flushing)
      → x'.items ≡ x.items ++ added
      → Held b key (set_batch c k x')
  write_own k x x' added f same more = elim (Bool-cases (k == key)) [
    | inr d ↦ write_elsewhere k x' (ne k d)
    | inl e ↦
        let at_key : k ≡ key = (eq_iff k key).0 e in
        let it : x ≡ h.batch = let eq = found_is k x at_key f in ground (arith, eq) in
        record {
          batch = x';
          there =
              ap (λ j. get j (set_batch c k x').pending_collect) (sym at_key)
              ∙ get-put_self k x' c.pending_collect;
          flushing = same ∙ ap (λ (y : PendingCollectedBatch). y.flushing) it ∙ h.flushing;
          more = h.more ++ added;
          items =
              more
              ∙ ap (λ (y : PendingCollectedBatch). y.items ++ added) it
              ∙ ap (λ xs. xs ++ added) h.items
              ∙ append_assoc b.items h.more added;
        }
  ]

  start-Held : (k : String) (now : ℕ) → Held b key (start_pending_collection c k now).0
  unfolding start_pending_collection
  start-Held k now = elim (Option-cases (at c k)) [
    | inr (x, e) ↦ rw (e, start_pending_collection) h
    | inl e ↦ elim (Bool-cases (k == key)) [
      | inr d ↦ rw (e, start_pending_collection) (write_elsewhere k (new_batch now) (ne k d))
      | inl s ↦
          let gone : none ≡ some h.batch = sym e ∙ ap (at c) ((eq_iff k key).0 s) ∙ h.there in
          absurd (ground (arith, gone))
    ]
  ]

  clear-Held : (k : String) → k ≢ key → Held b key (clear_pending_collection c k).0
  unfolding clear_pending_collection
  clear-Held k d = elim (Option-cases (at c k)) [
    | inl e ↦ rw (e, clear_pending_collection) h
    | inr (x, e) ↦ rw (e, clear_pending_collection) (drop_elsewhere k d)
  ]

  fail-Held : (k : String) (now : ℕ) → k ≢ key → Held b key (fail_pending_collection_flush c k now)
  unfolding fail_pending_collection_flush fail_flush
  fail-Held k now d = elim (Option-cases (at c k)) [
    | inl e ↦ rw (e, fail_pending_collection_flush) h
    | inr (x, e) ↦ rw (e, fail_pending_collection_flush) (write_elsewhere k (fail_flush x now) d)
  ]

  expire-Held : (k : String) (now : ℕ) → Held b key (expire_pending_collection_if_needed c k now).0
  unfolding expire_pending_collection_if_needed
  expire-Held k now = elim (Option-cases (at c k)) [
    | inl e ↦ rw (e, expire_pending_collection_if_needed) h
    | inr (x, e) ↦
        elim (Bool-cases (x.flushing || (not (eqb x.expires_at 0) && ltb now x.expires_at))) [
          | inl keep ↦ rw (e, keep, expire_pending_collection_if_needed) h
          | inr gone ↦
              rw (e, gone, expire_pending_collection_if_needed)
                (drop_elsewhere k
                  (λ s. let eq = found_is k x s e in ground (arith, eq, gone, h.flushing)))
        ]
  ]

  awaiting-Held :
      (k : String) (w : Bool) (now : ℕ)
      → Held b key (set_pending_collection_awaiting_instruction c k w now).0
  unfolding set_pending_collection_awaiting_instruction
  awaiting-Held k w now = elim (Option-cases (at c k)) [
    | inl e ↦ rw (e, set_pending_collection_awaiting_instruction) h
    | inr (x, e) ↦
        rw (e, set_pending_collection_awaiting_instruction)
          (write_own k x _ [] e refl (sym (append-nil x.items)))
  ]

  flush-Held :
      (k instruction : String) (now : ℕ)
      → Held b key (begin_pending_collection_flush c k instruction now).0
  unfolding begin_pending_collection_flush begin_flush
  flush-Held k instruction now = elim (Option-cases (at c k)) [
    | inl e ↦ rw (e, begin_pending_collection_flush) h
    | inr (x, e) ↦ elim (Bool-cases x.flushing) [
      | inl busy ↦ rw (e, busy, begin_pending_collection_flush) h
      | inr idle ↦
          rw (e, idle, begin_pending_collection_flush)
            (write_elsewhere k (begin_flush x instruction now)
              (λ s. let eq = found_is k x s e in ground (arith, eq, idle, h.flushing)))
    ]
  ]

  buffer-Held : (msg : Message) (now : ℕ) → Held b key (buffer_pending_collection c msg now).0
  unfolding buffer_pending_collection buffered
  buffer-Held msg now = elim (Option-cases (at c msg.session_key)) [
    | inl e ↦ rw (e, buffer_pending_collection) h
    | inr (x, e) ↦ elim (Bool-cases (leb max_collected_items (length x.items))) [
      | inl full ↦ rw (e, full, buffer_pending_collection) h
      | inr few ↦
          rw (e, few, buffer_pending_collection)
            (write_own msg.session_key x (buffered x msg now) (collected_item msg now ∷ []) e refl
              refl)
    ]
  ]

  same_batches : (c' : Collections) → c'.pending_collect ≡ c.pending_collect → Held b key c'
  same_batches c' e = record {
    batch = h.batch;
    there = ap (get key) e ∙ h.there;
    flushing = h.flushing;
    more = h.more;
    items = h.items;
  }

  store-Held :
      (k : String) (images : List ImageAttachment) (files : List FileAttachment)
      → Held b key (store_pending_attachments c k images files)
  unfolding store_pending_attachments
  store-Held k images files = elim (Bool-cases (is_nil images && is_nil files)) [
    | inl nothing ↦ rw (nothing, store_pending_attachments) h
    | inr some_files ↦ elim (Option-cases (get k c.pending_attach)) [
      | inl e ↦ rw (some_files, e, store_pending_attachments) (same_batches _ refl)
      | inr (p, e) ↦ rw (some_files, e, store_pending_attachments) (same_batches _ refl)
    ]
  ]

added_items : (b : PendingCollectedBatch) (p : PendingAttachments) (now : ℕ) → List CollectedItem
added_items b p now =
    if ltb (length b.items) max_collected_items then attachments_item p now ∷ [] else []

absorb_into-items :
    (b : PendingCollectedBatch) (p : PendingAttachments) (now : ℕ)
    → (absorb_into b p now).items ≡ b.items ++ added_items b p now
unfolding absorb_into added_items
absorb_into-items b p now = elim (Bool-cases (ltb (length b.items) max_collected_items)) [
  | inl e ↦ rw e refl
  | inr e ↦ rw (e, append-nil) refl
]

absorb_into-flushing :
    (b : PendingCollectedBatch) (p : PendingAttachments) (now : ℕ)
    → (absorb_into b p now).flushing ≡ b.flushing
unfolding absorb_into
absorb_into-flushing b p now = refl

absorb-Held :
    (b : PendingCollectedBatch) (key : String) (c : Collections)
    → Held b key c
    → (k : String) (now : ℕ) → Held b key (absorb_pending_attachments_into_collection c k now)
unfolding absorb_pending_attachments_into_collection clear_pending_attachments
absorb-Held b key c h k now = elim (Option-cases (get k c.pending_attach)) [
  | inl e ↦ rw (e, absorb_pending_attachments_into_collection) h
  | inr (p, e) ↦ elim (Bool-cases (is_nil p.images && is_nil p.files)) [
    | inl nothing ↦ rw (e, nothing, absorb_pending_attachments_into_collection) h
    | inr some_files ↦
        let h' = same_batches b key c h (clear_pending_attachments c k) refl in
        elim (Option-cases (at c k)) [
          | inl gone ↦ rw (e, some_files, gone, absorb_pending_attachments_into_collection) h'
          | inr (x, found) ↦
              rw (e, some_files, found, absorb_pending_attachments_into_collection)
                (write_own b key (clear_pending_attachments c k) h' k x (absorb_into x p now)
                  (added_items x p now) found (absorb_into-flushing x p now)
                  (absorb_into-items x p now))
        ]
  ]
]

pub step-Held :
    (b : PendingCollectedBatch) (key : String) (c : Collections) (op : Op)
    → IsOngoing key op
    → Held b key c
    → Held b key (step c op)
step-Held b key c (start_batch k now) o h = start-Held b key c h k now
step-Held b key c (clear_batch k now) o h = clear-Held b key c h k o
step-Held b key c (fail_op k now) o h = fail-Held b key c h k now o
step-Held b key c (expire k now) o h = expire-Held b key c h k now
step-Held b key c (absorb k now) o h = absorb-Held b key c h k now
step-Held b key c (awaiting k w now) o h = awaiting-Held b key c h k w now
step-Held b key c (store_op k images files) o h = store-Held b key c h k images files
step-Held b key c (flush k instruction now) o h = flush-Held b key c h k instruction now
step-Held b key c (buffer msg now) o h = buffer-Held b key c h msg now

pub run-Held :
    (b : PendingCollectedBatch) (key : String) (c : Collections) (ops : List Op)
    → All (IsOngoing key) ops
    → Held b key c
    → Held b key (run c ops)
run-Held b key c [] o h = h
run-Held b key c (op ∷ ops) o h = run-Held b key (step c op) ops o.1 (step-Held b key c op o.0 h)
