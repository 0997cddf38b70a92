-- ===== src/Log/Backend.antt =====
-- src/log/asyncLogging.cpp with src/log/logFile.h: the thread of the logger and the files that it writes
-- to, from the start of the thread to its end behind the destructor of the logger. The thread gives its
-- file to all LOG statements of the program too (src/log/Logging.cpp), whose lines go to it between any
-- two appends of the thread; `logFile` has a lock of its own around each.
pub mod Pieces
pub mod Delivery
pub mod Rounds
pub mod Runs
pub mod Loss
mod Examples
use adl_server.Base.{
  ℕ, Bool, true, false, List, [], ◌∷◌, ◌++◌, Bytes, Memory, if◌then◌else◌, some, Result, ok, check,
  assert_failed, out_of_bounds, not, ◌>>=◌, ◌>>◌,
}
use adl_server.Log.FixedBuffer.{Buffer, text}
use adl_server.Log.FileApp.{flush}
use adl_server.Log.LogFile.{System, Config, LogFile, deref_file, append_unlocked, new_log_file}
use adl_server.Log.AsyncLogging.{Logger, start, overload, log, exchange, write_out}

-- `left` are the buffers of a round that are still to be appended. `running` is `running_`; `is_over`
-- tells that the thread is at its end, where its file is destroyed.
pub record Backend : Type 0 where
  pub logger : Logger
  pub files : LogFile
  pub left : List Buffer
  pub running : Bool
  pub is_over : Bool

-- `logFile::flush`.
unfoldable pub flush_files : LogFile → Result LogFile
flush_files l = do f ← deref_file l.file; ok (record l { file = some (flush f) })

-- What happens: a line is given to `append`, or to a LOG statement; the thread goes on; `running_`
-- turns false.
pub data Event : Type 0 where
  says states : Bytes → Event
  writes stops : Event

module _ (sys : System) (cfg : Config) (size : ℕ) (block : Memory) where
  -- `start`, and the beginning of the thread, which makes the first file and gives it to the LOG
  -- statements.
  unfoldable pub begin_thread : Result Backend
  begin_thread = do
    l ← new_log_file sys cfg
    ok (record { logger = start block; files = l; left = []; running = true; is_over = false })

  -- `append`.
  unfoldable pub say : Bytes → Backend → Result Backend
  say msg b = do
    check b.running assert_failed
    l ← log size block msg b.logger
    ok (record b { logger = l })

  -- The end of a LOG statement, by another thread: its text is appended to the file that the thread
  -- has given to all, which dangles once the thread is over.
  unfoldable pub state_line : Bytes → Backend → Result Backend
  state_line msg b = do
    check (not b.is_over) out_of_bounds
    f ← append_unlocked sys cfg msg b.files
    ok (record b { files = f })

  -- A round from the exchange on: the text of the next buffer is appended to the file, or the round
  -- ends with its flush.
  unfoldable pub write_next : List Buffer → Backend → Result Backend
  write_next (x ∷ rest) b = do
    f ← append_unlocked sys cfg (text x) b.files
    ok (record b { files = f; left = rest })
  write_next [] b = do
    l ← write_out size block b.logger
    g ← flush_files b.files
    ok (record b { logger = l; files = g })

  -- The `while` of the thread: the exchange, or the end with its flush.
  unfoldable pub next_round : Bool → Backend → Result Backend
  next_round true b = do
    l ← exchange size block b.logger
    ok (record b { logger = l; left = overload l.need })
  next_round false b = do g ← flush_files b.files; ok (record b { files = g; is_over = true })

  unfoldable pub thread_goes_on : Backend → Result Backend
  thread_goes_on b =
      if b.is_over
      then ok b
      else (if b.logger.busy then write_next b.left b else next_round b.running b)

  unfoldable pub occur : Event → Backend → Result Backend
  occur (says msg) b = say msg b
  occur (states msg) b = state_line msg b
  occur writes b = thread_goes_on b
  occur stops b = ok (record b { running = false })

  unfoldable pub occur_all : List Event → Backend → Result Backend
  occur_all [] b = ok b
  occur_all (e ∷ es) b = do c ← occur e b; occur_all es c
