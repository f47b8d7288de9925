-- ===== src/Store/Runs/Invariant.antt =====
-- What holds after any sequence of operations (crates/store/src/lib.rs).
use coven_github.Store.Validity.Removing.{expire_terminal-IsValid, delete_tasks-IsValid}
use coven_github.Store.Validity.Finishing.{
  set_check_run_url-IsValid, finish-IsValid, recover_interrupted-IsValid, supersede_queued-IsValid,
}
use coven_github.Store.Validity.Claiming.{claim_next-IsValid}
use coven_github.Store.Validity.Recording.{record_delivery-IsValid, OwnsRouting}
use coven_github.Store.Queue.{
  supersede_queued_except, supersede_queued_except, supersede_queued_except,
  supersede_queued_except, supersede_queued_except, cancel_queued, supersede_queued_except, Caps,
}
use coven_github.Base.{ℕ, All, List, [], none, some, ◌∷◌}
use coven_github.Store.Schema.{Db, KindJson, empty}
use coven_github.Store.Runs.{
  Op, cancel, claim, complete, deliver, expire, recover, run, set_url, step, supersede_except,
  uninstall,
}
use coven_github.Store.Validity.{IsValid}

-- A delivery that carries a task is of the task's installation.
abbrev pub IsOwned : Op → Type 0
IsOwned (deliver d routing) = OwnsRouting d routing
IsOwned _ = Unit

pub empty-IsValid : IsValid empty
empty-IsValid = record {
  distinct_deliveries = tt;
  distinct_tasks = tt;
  attempts_fit = tt;
  owners = tt;
  task_of_attempt = tt;
  delivery_of_task = tt;
}

module _ (json : KindJson) (caps : Caps) where
  pub step-IsValid :
      (now : ℕ) (op : Op) (db : Db) → IsOwned op → IsValid db → IsValid (step json caps now op db)
  unfolding step cancel_queued supersede_queued_except
  step-IsValid now (deliver d routing) db o v = record_delivery-IsValid json now db d routing v o
  step-IsValid now claim db o v = claim_next-IsValid json now caps db v
  step-IsValid now (complete id t) db o v = finish-IsValid now db id t v
  step-IsValid now (set_url id url) db o v = set_check_run_url-IsValid now db id url v
  step-IsValid now (recover max) db o v = recover_interrupted-IsValid now db max v
  step-IsValid now (cancel key) db o v = supersede_queued-IsValid now db key none v
  step-IsValid now (supersede_except key id) db o v =
      supersede_queued-IsValid now db key (some id) v
  step-IsValid now (uninstall i) db o v = delete_tasks-IsValid db i v
  step-IsValid now (expire cutoff) db o v = expire_terminal-IsValid db cutoff v

  -- From well-formed tables, any sequence of the queue's operations (`Op`) leaves well-formed
  -- tables, if every task that is recorded is of its delivery's installation.
  pub run-IsValid :
      (ops : List (ℕ × Op)) (db : Db)
      → All (λ (o : ℕ × Op). IsOwned o.1) ops
      → IsValid db
      → IsValid (run json caps ops db)
  unfolding run
  run-IsValid [] db o v = v
  run-IsValid ((now, op) ∷ ops) db o v =
      run-IsValid ops (step json caps now op db) o.1 (step-IsValid now op db o.0 v)
