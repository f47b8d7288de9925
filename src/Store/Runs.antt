-- ===== src/Store/Runs.antt =====
-- The store over any sequence of the operations that change the queue (crates/store/src/lib.rs).
-- Every operation is one transaction behind the store's mutex, so that a history of concurrent
-- callers is a list of operations, each with the time that it read.
pub mod Invariant
pub mod Concurrency
pub mod Attempts
use coven_github.Store.Retention.{expire_terminal_tasks_before, delete_tasks_for_installation}
use coven_github.Store.Queue.{
  cancel_queued, recover_interrupted, set_check_run_url, finish, claim_next, Caps,
  supersede_queued_except,
}
use coven_github.Base.{ℕ, List, String, [], ◌∷◌}
use coven_github.Store.Schema.{Db, KindJson, Delivery, Routing, Terminal}
use coven_github.Store.Deliveries.{record_delivery}

pub data Op : Type 0 where
  deliver : Delivery → Routing → Op
  claim : Op
  complete : String → Terminal → Op
  set_url : String → String → Op
  recover : ℕ → Op
  cancel : String → Op
  supersede_except : String → String → Op
  uninstall : ℕ → Op
  expire : ℕ → Op

module _ (json : KindJson) (caps : Caps) where
  -- An operation that fails leaves what its transaction left.
  unfoldable pub step : ℕ → Op → Db → Db
  step now (deliver d routing) db = (record_delivery json now db d routing).1
  step now claim db = (claim_next json now caps db).1
  step now (complete id t) db = finish now db id t
  step now (set_url id url) db = set_check_run_url now db id url
  step now (recover max) db = (recover_interrupted now db max).1
  step now (cancel key) db = (cancel_queued now db key).1
  step now (supersede_except key id) db = (supersede_queued_except now db key id).1
  step now (uninstall i) db = (delete_tasks_for_installation db i).1
  step now (expire cutoff) db = (expire_terminal_tasks_before db cutoff).1

  unfoldable pub run : List (ℕ × Op) → Db → Db
  run [] db = db
  run ((now, op) ∷ ops) db = run ops (step now op db)
