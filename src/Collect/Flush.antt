-- ===== src/Collect/Flush.antt =====
-- core/collect.go: a flush of the batch: one at a time, and what a failed one leaves.
use mathlib.Core.List.{append-nil}
use echo_client.Prelude.{ℕ, String, true, false, ◌≡◌, refl, sym, none, some, List, [], ◌++◌, All}
use echo_client.Prelude.Dict.{get-put_self}
use echo_client.Collect.{Collections, CollectedItem, PendingCollectedBatch, at, set_batch}
use echo_client.Collect.Batch.{
  begin_flush, begin_pending_collection_flush, fail_flush, fail_pending_collection_flush,
  expire_pending_collection_if_needed,
}
use echo_client.Collect.Bound.{Op, run}
use echo_client.Collect.Ongoing.{Held, IsOngoing, run-Held}

module _ (c : Collections) (key instruction : String) (now : ℕ) (b : PendingCollectedBatch)
    (found : at c key ≡ some b) where
  begins :
      b.flushing ≡ false
      → begin_pending_collection_flush c key instruction now
        ≡ (set_batch c key (begin_flush b instruction now), some (begin_flush b instruction now))
  unfolding begin_pending_collection_flush
  begins idle = rw (found, idle, begin_pending_collection_flush) refl

  busy : b.flushing ≡ true → (begin_pending_collection_flush c key instruction now) ≡ (c, none)
  unfolding begin_pending_collection_flush
  busy e = rw (found, e, begin_pending_collection_flush) refl

  fails : fail_pending_collection_flush c key now ≡ set_batch c key (fail_flush b now)
  unfolding fail_pending_collection_flush
  fails = rw (found, fail_pending_collection_flush) refl

  stays : b.flushing ≡ true → expire_pending_collection_if_needed c key now ≡ (c, false)
  unfolding expire_pending_collection_if_needed
  stays e = rw (found, e, expire_pending_collection_if_needed) refl

  fresh_Held :
      b.flushing ≡ false → Held b key (begin_pending_collection_flush c key instruction now).0
  unfolding begin_flush
  fresh_Held idle = rw (begins idle) (record {
    batch = begin_flush b instruction now;
    there = get-put_self key (begin_flush b instruction now) c.pending_collect;
    flushing = refl;
    more = [];
    items = sym (append-nil b.items);
  })

not_flushing : (b : PendingCollectedBatch) (now : ℕ) → (fail_flush b now).flushing ≡ false
unfolding fail_flush
not_flushing b now = refl

same_items : (b : PendingCollectedBatch) (now : ℕ) → (fail_flush b now).items ≡ b.items
unfolding fail_flush
same_items b now = refl

-- A batch that is held by a flush: no second flush gets it, it does not expire, and after a failure it
-- is back, not being flushed, with the items it had and those that came in between.
abbrev pub Guarded : PendingCollectedBatch → String → Collections → Type 0
Guarded b key c =
    (instruction : String) (later : ℕ)
    → (begin_pending_collection_flush c key instruction later ≡ (c, none))
      × (expire_pending_collection_if_needed c key later ≡ (c, false))
      × ((back : PendingCollectedBatch) × (at (fail_pending_collection_flush c key later) key
            ≡ some back)
          × (back.flushing ≡ false)
          × ((more : List CollectedItem) × (back.items ≡ b.items ++ more))
          × ((begin_pending_collection_flush (fail_pending_collection_flush c key later) key
                instruction later).1
              ≡ some (begin_flush back instruction later)))

guarded :
    (b : PendingCollectedBatch) (key : String) (c : Collections) → Held b key c → Guarded b key c
guarded b key c h instruction later =
    let back = fail_flush h.batch later in
    let c' = set_batch c key back in
    let again : at c' key ≡ some back = get-put_self key back c.pending_collect in
    (
      busy c key instruction later h.batch h.there h.flushing,
      stays c key instruction later h.batch h.there h.flushing,
      (
        back,
        rw (fails c key instruction later h.batch h.there) again,
        not_flushing h.batch later,
        (h.more, rw (same_items h.batch later) h.items),
        rw
            (
              fails c key instruction later h.batch h.there,
              begins c' key instruction later back again (not_flushing h.batch later),
            )
            refl,
      ),
    )

-- A flush of a batch that is not being flushed hands out the batch. After any operations on the
-- collections, other than a clear of this batch and a failure of this flush, at whatever times: a
-- second flush gets nothing and changes nothing, and the batch does not expire. If the flush then fails,
-- the batch is back, not being flushed, with the items it had at first, in order, and those that came
-- in between behind them, and a further flush hands it out.
pub begin_pending_collection_flush_lem :
    (c : Collections) (key instruction : String) (now : ℕ) (b : PendingCollectedBatch)
    (ops : List Op)
    → at c key ≡ some b
    → b.flushing ≡ false
    → All (IsOngoing key) ops
    → let r = begin_pending_collection_flush c key instruction now in
      (r.1 ≡ some (begin_flush b instruction now)) × Guarded b key (run r.0 ops)
begin_pending_collection_flush_lem c key instruction now b ops found idle ongoing = (
  rw (begins c key instruction now b found idle) refl,
  guarded b key _ (run-Held b key _ ops ongoing (fresh_Held c key instruction now b found idle)),
)
