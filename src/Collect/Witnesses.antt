-- ===== src/Collect/Witnesses.antt =====
-- core/collect.go: the theorems on batches, applied to a batch that awaits its instruction.
use echo_client.Prelude.{true, false, ◌≡◌, refl, Option, some, List, [], ◌∷◌}
use echo_client.Prelude.Dict.{get}
use echo_client.Collect.{Collections, PendingCollectedBatch}
use echo_client.Collect.Batch.{new_batch, begin_flush, begin_pending_collection_flush}
use echo_client.Collect.Flush.{Guarded, begin_pending_collection_flush_lem}
use echo_client.Collect.Bound.{
  Op, start_batch, awaiting, expire, flush, fail_op, run, Bounded, collected_items-Bounded,
}

abbrev batch : PendingCollectedBatch
batch = record (new_batch 5) { awaiting_instruction = true }

abbrev collecting : Collections
collecting = record { pending_collect = ("ann", batch) ∷ []; pending_attach = [] }

abbrev begun : Collections × Option PendingCollectedBatch
begun = begin_pending_collection_flush collecting "ann" "sum up" 6

abbrev meanwhile : List Op
meanwhile =
    awaiting "ann" false 7 ∷ expire "ann" 9999999 ∷ start_batch "ann" 8 ∷ flush "ann" "again" 9 ∷ []

begin_pending_collection_flush_example :
    (begun.1 ≡ some (begin_flush batch "sum up" 6)) × Guarded batch "ann" (run begun.0 meanwhile)
unfolding get
begin_pending_collection_flush_example =
    begin_pending_collection_flush_lem collecting "ann" "sum up" 6 batch meanwhile refl refl
      (tt, (tt, (tt, (tt, tt))))

abbrev session : List Op
session =
    start_batch "ann" 5 ∷ awaiting "ann" true 6 ∷ flush "ann" "sum up" 7 ∷ fail_op "ann" 8 ∷ []

collected_items-Bounded_example :
    Bounded (run (record { pending_collect = []; pending_attach = [] }) session)
collected_items-Bounded_example = collected_items-Bounded [] session
