-- ===== src/Collection/Exporting.antt =====
-- src/Collection.{h,cpp}: exportAllToJsonAsync, its thread, and waitForExportOperation, for one collection
-- object. The thread runs as one step, over the engine that its collection has then: right after it was
-- started, or when it is waited for.
use anu_db.Base.{ℕ, Bool, true, false, Bytes, if◌then◌else◌}
use anu_db.Status
use anu_db.Status.{Status}
use anu_db.Exec.{Try, Exec, Result, returns, raises, crashes, stops, ◌>>=◌, ◌>>◌, pure, crash, gets}
use anu_db.Json.{Json}
use anu_db.RocksDb.{RocksDb}
use anu_db.Engine.{Engine}
use anu_db.Engine.Export.{Files, Disk, export_all_to_json}

-- `export_thread_`: none, one that has to export to a path, or one whose export has ended.
pub data Thread : Type 0 where
  idle : Thread
  working : Bytes → Thread
  ended : Thread

pub record Exporting : Type 0 where
  pub thread : Thread
  pub files : Files

abbrev pub joinable : Thread → Bool
joinable idle = false
joinable (working path) = true
joinable ended = true

abbrev set_thread : Thread → Exec Exporting (Unit {0})
set_thread t x = (returns tt, record x { thread = t })

module _ ⦃R : RocksDb⦄ ⦃J : Json⦄ (dump_indented : J.Value → Try Bytes) (fuel : ℕ) (e : Engine R)
    (name : Bytes) (disk : Disk) where
  -- ExportTask prints its status; an exception that leaves it ends the program.
  abbrev task_end : Result Status × Files → Exec Exporting (Unit {0})
  task_end (returns status, f) x = (returns tt, record { thread = ended; files = f })
  task_end (raises m, f) x = (crashes, record x { files = f })
  task_end (crashes, f) x = (crashes, record x { files = f })
  task_end (stops, f) x = (stops, record x { files = f })

  -- The thread runs, if it has not.
  run_task : Thread → Exec Exporting (Unit {0})
  run_task idle x = (returns tt, x)
  run_task (working path) x =
      task_end (export_all_to_json dump_indented fuel e name path disk x.files) x
  run_task ended x = (returns tt, x)

  -- The assignment to a thread that is joinable ends the program. The new thread runs at once where
  -- `early` says so, and else when it is waited for.
  unfoldable pub export_all_to_json_async : Bool → Bytes → Exec Exporting Status
  unfolding run_task
  export_all_to_json_async early path = do
    thread ← gets (λ x. x.thread)
    let begun = do
      set_thread (working path)
      if early then run_task (working path) else pure tt
      pure Status.ok
    if joinable thread then crash else begun

  unfoldable pub wait_for_export_operation : Exec Exporting (Unit {0})
  unfolding run_task
  wait_for_export_operation = do
    thread ← gets (λ x. x.thread)
    if joinable thread then (run_task thread >> set_thread idle) else pure tt
