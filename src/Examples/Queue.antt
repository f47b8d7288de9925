-- ===== src/Examples/Queue.antt =====
-- The theorems on the queue, applied (crates/store/src/lib.rs).
use coven_github.Store.Runs.Concurrency.{run_within_cap}
use coven_github.Store.Deliveries.Once.{redelivery_ignored}
use coven_github.Store.Deliveries.Supersession.{auto_review_supersedes}
use coven_github.Store.Runs.Attempts.{attempts_bounded}
use coven_github.Store.Queue.Caps.{running_of}
use coven_github.Store.Runs.{run, claim, recover, step}
use coven_github.Store.Deliveries.{
  record_delivery, queued_for, record_delivery_sync, supersede_key, supersede_key_of, task_row,
  tombstone_older,
}
use coven_github.Store.Queue.{
  claim_next, bump, cap_of, capped, capped_among, claim_row, claimable, claimed, next_row, older,
  running_counts, split_repo, task_of,
}
use coven_github.Store.Queue.RoundTrip.{record-claim}
use coven_github.Store.Runs.Invariant.{run-IsValid, empty-IsValid}
use coven_github.Store.Queue.Order.{Took, claim_next_fifo, claim_next_idle}
use coven_github.Store.Validity.{IsValid}
use coven_github.Store.Schema.{is_queued, TaskRow, Routing, duplicate, empty, ok}
use coven_github.Base.{
  All, List, [], arith, count_where, false, leb, refl, some, true, ◌&&◌, ◌∷◌, ◌≡◌, ◌≤◌, decimal,
  earlier, first_by, lacks, select_where, split_once, update_where,
}
use coven_github.Examples.{
  tables, sample_json, caps, ops, owned, tables-IsValid, review, second_review, garden, delivery,
}

run-IsValid_example : IsValid (run sample_json caps ops tables)
run-IsValid_example = run-IsValid sample_json caps ops tables owned tables-IsValid

run_within_cap_example : running_of 7 (run sample_json caps ops tables).tasks ≤ 1
unfolding run step record_delivery record_delivery_sync claim_next claim_row claimed next_row
    select_where first_by earlier capped running_counts bump capped_among cap_of claimable
    update_where tombstone_older supersede_key supersede_key_of task_row count_where running_of
    split_once split_repo task_of lacks older decimal
run_within_cap_example =
    run_within_cap sample_json caps 7 1 refl (omega arith) ops tables owned tables-IsValid
      (omega arith)

attempts_bounded_example :
    All
      (λ (t : TaskRow). (t.attempts ≤ 3) × ((is_queued t.state && leb 3 t.attempts) ≡ false))
      (run sample_json caps ((13, recover 3) ∷ ops) empty).tasks
attempts_bounded_example =
    attempts_bounded sample_json caps 3 ((13, recover 3) ∷ ops) (omega arith)
      ((tt, refl), ((refl, tt), ((tt, tt), ((refl, tt), tt))))

redelivery_ignored_example :
    record_delivery sample_json 30
      (record_delivery sample_json 20 tables (delivery "d3" 7) (Routing.task second_review)).1
      (delivery "d3" 7)
      (Routing.ignored "again")
    ≡ (
      ok duplicate,
      (record_delivery sample_json 20 tables (delivery "d3" 7) (Routing.task second_review)).1,
    )
unfolding run step record_delivery record_delivery_sync claim_next claim_row claimed next_row
    select_where first_by earlier capped running_counts bump capped_among cap_of claimable
    update_where tombstone_older supersede_key supersede_key_of task_row count_where running_of
    split_once split_repo task_of lacks older decimal
redelivery_ignored_example =
    redelivery_ignored sample_json 20 30 tables (delivery "d3" 7) (delivery "d3" 7)
      (Routing.task second_review) (Routing.ignored "again") refl refl

auto_review_supersedes_example :
    let after =
      (record_delivery sample_json 20 tables (delivery "d3" 7) (Routing.task second_review)).1 in
    (rest : List TaskRow) × (after.tasks
      ≡ task_row sample_json 20 (delivery "d3" 7) second_review ∷ rest)
    × (queued_for "acme/api#5" (task_row sample_json 20 (delivery "d3" 7) second_review) ≡ true)
    × All (λ (r : TaskRow). queued_for "acme/api#5" r ≡ false) rest
unfolding run step record_delivery record_delivery_sync claim_next claim_row claimed next_row
    select_where first_by earlier capped running_counts bump capped_among cap_of claimable
    update_where tombstone_older supersede_key supersede_key_of task_row count_where running_of
    split_once split_repo task_of lacks older decimal
auto_review_supersedes_example =
    auto_review_supersedes sample_json 20 tables (delivery "d3" 7) second_review "acme/api#5" refl
      refl refl

claim_next_fifo_example : Took caps 20 tables (claim_next sample_json 20 caps tables).1 garden
unfolding run step record_delivery record_delivery_sync claim_next claim_row claimed next_row
    select_where first_by earlier capped running_counts bump capped_among cap_of claimable
    update_where tombstone_older supersede_key supersede_key_of task_row count_where running_of
    split_once split_repo task_of lacks older decimal
claim_next_fifo_example = claim_next_fifo sample_json 20 caps tables tables-IsValid garden refl

claim_next_idle_example :
    let full = (claim_next sample_json 20 caps tables).1 in
    All (λ (u : TaskRow). claimable (capped caps full.tasks) u ≡ false) full.tasks
    × ((claim_next sample_json 21 caps full).1 ≡ full)
unfolding run step record_delivery record_delivery_sync claim_next claim_row claimed next_row
    select_where first_by earlier capped running_counts bump capped_among cap_of claimable
    update_where tombstone_older supersede_key supersede_key_of task_row count_where running_of
    split_once split_repo task_of lacks older decimal
claim_next_idle_example =
    claim_next_idle sample_json 21 caps (claim_next sample_json 20 caps tables).1
      (run-IsValid sample_json caps ((20, claim) ∷ []) tables (tt, tt) tables-IsValid) refl

record-claim_example :
    (claim_next sample_json 21 []
      (record_delivery sample_json 20 empty (delivery "d3" 7) (Routing.task review)).1).0
    ≡ ok (some review)
unfolding run step record_delivery record_delivery_sync claim_next claim_row claimed next_row
    select_where first_by earlier capped running_counts bump capped_among cap_of claimable
    update_where tombstone_older supersede_key supersede_key_of task_row count_where running_of
    split_once split_repo task_of lacks older decimal
record-claim_example =
    record-claim sample_json 20 21 [] empty (delivery "d3" 7) review empty-IsValid refl refl refl
      refl refl tt
