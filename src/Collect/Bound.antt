-- ===== src/Collect/Bound.antt =====
-- core/collect.go: the number of items that a batch holds.
use echo_client.Prelude.{
  ℕ, ◌≤◌, String, Bool, false, not, ◌&&◌, ◌||◌, ◌≡◌, inl, inr, some, List, [], ◌∷◌, ◌==◌, arith,
  ltb, leb, eqb, Bool-cases, Option-cases, length, length-append,
}
use echo_client.Prelude.Dict.{Dict, get, get-put, get-delete}
use echo_client.Message.{Message, ImageAttachment, FileAttachment}
use echo_client.Collect.{
  Collections, PendingCollectedBatch, PendingAttachments, at, set_batch, drop_batch,
  max_collected_items, clear_pending_attachments, store_pending_attachments, is_nil,
}
use echo_client.Collect.Batch.{
  new_batch, start_pending_collection, clear_pending_collection,
  expire_pending_collection_if_needed, set_pending_collection_awaiting_instruction, absorb_into,
  absorb_pending_attachments_into_collection, buffered, buffer_pending_collection, begin_flush,
  begin_pending_collection_flush, fail_flush, fail_pending_collection_flush, attachments_item,
  collected_item,
}

pub data Op : Type 0 where
  start_batch clear_batch fail_op expire absorb : String → ℕ → Op
  awaiting : String → Bool → ℕ → Op
  store_op : String → List ImageAttachment → List FileAttachment → Op
  flush : String → String → ℕ → Op
  buffer : Message → ℕ → Op

abbrev pub step : Collections → Op → Collections
step c (start_batch key now) = (start_pending_collection c key now).0
step c (clear_batch key now) = (clear_pending_collection c key).0
step c (fail_op key now) = fail_pending_collection_flush c key now
step c (expire key now) = (expire_pending_collection_if_needed c key now).0
step c (absorb key now) = absorb_pending_attachments_into_collection c key now
step c (awaiting key b now) = (set_pending_collection_awaiting_instruction c key b now).0
step c (store_op key images files) = store_pending_attachments c key images files
step c (flush key instruction now) = (begin_pending_collection_flush c key instruction now).0
step c (buffer msg now) = (buffer_pending_collection c msg now).0

abbrev pub run : Collections → List Op → Collections
run c [] = c
run c (op ∷ ops) = run (step c op) ops

abbrev pub Bounded : Collections → Type 0
Bounded c =
    (key : String) (b : PendingCollectedBatch)
    → at c key ≡ some b
    → length b.items ≤ max_collected_items

set-Bounded :
    (c : Collections) (key : String) (b : PendingCollectedBatch)
    → Bounded c
    → length b.items ≤ max_collected_items
    → Bounded (set_batch c key b)
set-Bounded c key b v le k x e = elim (Bool-cases (key == k)) [
  | inl same ↦ let eq : b ≡ x = ground (arith, get-put key k b c.pending_collect) in rw eq at le
  | inr other ↦ v k x (ground (arith, get-put key k b c.pending_collect))
]

drop-Bounded : (c : Collections) (key : String) → Bounded c → Bounded (drop_batch c key)
drop-Bounded c key v k x e = v k x (ground (arith, get-delete key k c.pending_collect))

absorb_into-le :
    (b : PendingCollectedBatch) (p : PendingAttachments) (now : ℕ)
    → length b.items ≤ max_collected_items
    → length (absorb_into b p now).items ≤ max_collected_items
unfolding absorb_into
absorb_into-le b p now le = ground (arith, le, length-append b.items (attachments_item p now ∷ []))

buffered-le :
    (b : PendingCollectedBatch) (msg : Message) (now : ℕ)
    → leb max_collected_items (length b.items) ≡ false
    → length (buffered b msg now).items ≤ max_collected_items
unfolding buffered
buffered-le b msg now few = ground (arith, length-append b.items (collected_item msg now ∷ []), few)

module _ (c : Collections) (v : Bounded c) where
  start-Bounded : (key : String) (now : ℕ) → Bounded (start_pending_collection c key now).0
  unfolding start_pending_collection
  start-Bounded key now = elim (Option-cases (at c key)) [
    | inl e ↦ rw (e, start_pending_collection) (set-Bounded c key (new_batch now) v (omega arith))
    | inr (b, e) ↦ rw (e, start_pending_collection) v
  ]

  clear-Bounded : (key : String) (now : ℕ) → Bounded (clear_pending_collection c key).0
  unfolding clear_pending_collection
  clear-Bounded key now = elim (Option-cases (at c key)) [
    | inl e ↦ rw (e, clear_pending_collection) v
    | inr (b, e) ↦ rw (e, clear_pending_collection) (drop-Bounded c key v)
  ]

  fail-Bounded : (key : String) (now : ℕ) → Bounded (fail_pending_collection_flush c key now)
  unfolding fail_pending_collection_flush fail_flush
  fail-Bounded key now = elim (Option-cases (at c key)) [
    | inl e ↦ rw (e, fail_pending_collection_flush) v
    | inr (b, e) ↦
        rw (e, fail_pending_collection_flush) (set-Bounded c key (fail_flush b now) v (v key b e))
  ]

  expire-Bounded :
      (key : String) (now : ℕ) → Bounded (expire_pending_collection_if_needed c key now).0
  unfolding expire_pending_collection_if_needed
  expire-Bounded key now = elim (Option-cases (at c key)) [
    | inl e ↦ rw (e, expire_pending_collection_if_needed) v
    | inr (b, e) ↦
        elim (Bool-cases (b.flushing || (not (eqb b.expires_at 0) && ltb now b.expires_at))) [
          | inl keep ↦ rw (e, keep, expire_pending_collection_if_needed) v
          | inr gone ↦ rw (e, gone, expire_pending_collection_if_needed) (drop-Bounded c key v)
        ]
  ]

  absorb-Bounded :
      (key : String) (now : ℕ) → Bounded (absorb_pending_attachments_into_collection c key now)
  unfolding absorb_pending_attachments_into_collection clear_pending_attachments
  absorb-Bounded key now = elim (Option-cases (get key c.pending_attach)) [
    | inl e ↦ rw (e, absorb_pending_attachments_into_collection) v
    | inr (p, e) ↦ elim (Bool-cases (is_nil p.images && is_nil p.files)) [
      | inl nothing ↦ rw (e, nothing, absorb_pending_attachments_into_collection) v
      | inr some_files ↦ elim (Option-cases (at c key)) [
        | inl gone ↦ rw (e, some_files, gone, absorb_pending_attachments_into_collection) v
        | inr (b, found) ↦
            rw (e, some_files, found, absorb_pending_attachments_into_collection)
              (set-Bounded c key (absorb_into b p now) v (absorb_into-le b p now (v key b found)))
      ]
    ]
  ]

  awaiting-Bounded :
      (key : String) (w : Bool) (now : ℕ)
      → Bounded (set_pending_collection_awaiting_instruction c key w now).0
  unfolding set_pending_collection_awaiting_instruction
  awaiting-Bounded key w now = elim (Option-cases (at c key)) [
    | inl e ↦ rw (e, set_pending_collection_awaiting_instruction) v
    | inr (b, e) ↦
        rw (e, set_pending_collection_awaiting_instruction) (set-Bounded c key _ v (v key b e))
  ]

  store-Bounded :
      (key : String) (images : List ImageAttachment) (files : List FileAttachment)
      → Bounded (store_pending_attachments c key images files)
  unfolding store_pending_attachments
  store-Bounded key images files = elim (Bool-cases (is_nil images && is_nil files)) [
    | inl nothing ↦ rw (nothing, store_pending_attachments) v
    | inr some_files ↦ elim (Option-cases (get key c.pending_attach)) [
      | inl e ↦ rw (some_files, e, store_pending_attachments) v
      | inr (p, e) ↦ rw (some_files, e, store_pending_attachments) v
    ]
  ]

  flush-Bounded :
      (key instruction : String) (now : ℕ)
      → Bounded (begin_pending_collection_flush c key instruction now).0
  unfolding begin_pending_collection_flush begin_flush
  flush-Bounded key instruction now = elim (Option-cases (at c key)) [
    | inl e ↦ rw (e, begin_pending_collection_flush) v
    | inr (b, e) ↦ elim (Bool-cases b.flushing) [
      | inl busy ↦ rw (e, busy, begin_pending_collection_flush) v
      | inr idle ↦
          rw (e, idle, begin_pending_collection_flush)
            (set-Bounded c key (begin_flush b instruction now) v (v key b e))
    ]
  ]

  buffer-Bounded : (msg : Message) (now : ℕ) → Bounded (buffer_pending_collection c msg now).0
  unfolding buffer_pending_collection
  buffer-Bounded msg now = elim (Option-cases (at c msg.session_key)) [
    | inl e ↦ rw (e, buffer_pending_collection) v
    | inr (b, e) ↦ elim (Bool-cases (leb max_collected_items (length b.items))) [
      | inl full ↦ rw (e, full, buffer_pending_collection) v
      | inr few ↦
          rw (e, few, buffer_pending_collection)
            (set-Bounded c msg.session_key (buffered b msg now) v (buffered-le b msg now few))
    ]
  ]

step-Bounded : (c : Collections) (op : Op) → Bounded c → Bounded (step c op)
step-Bounded c (start_batch key now) v = start-Bounded c v key now
step-Bounded c (clear_batch key now) v = clear-Bounded c v key now
step-Bounded c (fail_op key now) v = fail-Bounded c v key now
step-Bounded c (expire key now) v = expire-Bounded c v key now
step-Bounded c (absorb key now) v = absorb-Bounded c v key now
step-Bounded c (awaiting key b now) v = awaiting-Bounded c v key b now
step-Bounded c (store_op key images files) v = store-Bounded c v key images files
step-Bounded c (flush key instruction now) v = flush-Bounded c v key instruction now
step-Bounded c (buffer msg now) v = buffer-Bounded c v msg now

run-Bounded : (c : Collections) (ops : List Op) → Bounded c → Bounded (run c ops)
run-Bounded c [] v = v
run-Bounded c (op ∷ ops) v = run-Bounded (step c op) ops (step-Bounded c op v)

-- Whatever operations the engine applies to its collections, in whatever order and for whatever chats,
-- no batch ever holds more than 50 items. The engine starts with no batch.
pub collected_items-Bounded :
    (attach : Dict PendingAttachments) (ops : List Op)
    → Bounded (run (record { pending_collect = []; pending_attach = attach }) ops)
unfolding get
collected_items-Bounded attach ops =
    run-Bounded (record { pending_collect = []; pending_attach = attach }) ops (λ key b e. cc)
