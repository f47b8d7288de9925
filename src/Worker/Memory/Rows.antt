-- ===== src/Worker/Memory/Rows.antt =====
-- The audit rows of a session's memory report: `memory_activity_rows` of crates/worker/src/lib.rs.
-- The code leaves a row's time empty for the store to fill in, here `none` beside the row.
use coven_github.Worker.Memory.{
  MemoryOp, MemoryUsed, MemoryRejection, MemoryEntryRef, ProposedMemory,
}
use coven_github.Store.Schema.{MemoryActivity}
use coven_github.Base.{
  ℕ, List, String, Option, map, Bool, false, find, nat_Eq, none, some, text_Eq, true, ◌&&◌, ◌++◌,
  ◌<>◌, ◌==◌,
}

unfoldable pub op_eq : MemoryOp → MemoryOp → Bool
op_eq MemoryOp.read MemoryOp.read = true
op_eq MemoryOp.write MemoryOp.write = true
op_eq _ _ = false

unfoldable pub verdict : List MemoryRejection → MemoryOp → String → String
verdict rejections op target =
    elim (find (λ (r : MemoryRejection). op_eq r.op op && (r.target == target)) rejections) [
      | none ↦ "accepted"
      | some r ↦ "rejected:" <> r.reason
    ]

unfoldable pub memory_activity_rows :
    ℕ → String → String → MemoryUsed → List MemoryRejection → List (Option ℕ × MemoryActivity)
unfolding verdict
memory_activity_rows installation_id repo task_id used rejections =
    let row : String → String → String → String → Option ℕ × MemoryActivity =
      λ op target scope outcome. (
        none,
        record {
          at = 0;
          installation_id = installation_id;
          repo = repo;
          task_id = task_id;
          op = op;
          target = target;
          scope = scope;
          outcome = outcome;
        },
      ) in
    map (λ (e : MemoryEntryRef). row "read" e.id e.scope (verdict rejections MemoryOp.read e.id))
      used.read
    ++ map
        (λ (p : ProposedMemory).
          row "write" p.key p.scope (verdict rejections MemoryOp.write p.key))
        used.proposed
