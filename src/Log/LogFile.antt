-- ===== src/Log/LogFile.antt =====
-- src/log/logFile.h: the files that the writer of the log appends to, one after the other. `time`,
-- the calendar of `getYearToSecondFormatTime` and the calls on files are the fields of `System`.
pub mod Roll
pub mod Lines
use adl_server.Base.{
  ℕ, suc, ◌+◌, ◌-◌, ◌*◌, ◌/◌, Bool, true, false, not, List, [], ◌∷◌, ◌++◌, Bytes, codes, ltb, leb,
  ◌==◌, if◌then◌else◌, Option, none, some, Result, ok, fault, out_of_bounds, ◌>>=◌,
}
use adl_server.Log.FileApp.{FileApp, new_file_app, flush, file_append}

-- `clock k` is the k-th result of `time(NULL)`, and `held k` tells what the file of a name holds at that
-- time, by which it may be opened.
pub record System : Type 0 where
  pub clock : ℕ → ℕ
  pub format : ℕ → Bytes
  pub can_open : Bytes → Bool
  pub held : ℕ → Bytes → Bytes
  pub fwrite : Bytes → ℕ → Bytes → ℕ

pub record Config : Type 0 where
  pub base_name : Bytes
  pub roll_size : ℕ
  pub flush_interval : ℕ
  pub check_every : ℕ

-- `file` is null before the first roll; `closed` are the files before it, the last one first;
-- `reads` counts the calls of `time`.
pub record LogFile : Type 0 where
  pub count : ℕ
  pub start_of_period : ℕ
  pub last_roll : ℕ
  pub last_flush : ℕ
  pub file : Option FileApp
  pub closed : List FileApp
  pub reads : ℕ

-- `kRollPerSeconds_`.
abbrev pub roll_per_seconds : ℕ
roll_per_seconds = 86400

unfoldable pub period : ℕ → ℕ
period now = now / roll_per_seconds * roll_per_seconds

unfoldable pub deref_file : Option FileApp → Result FileApp
deref_file none = fault out_of_bounds
deref_file (some f) = ok f

-- `file_.reset` closes the file that was there.
unfoldable pub close_file : Option FileApp → List FileApp → List FileApp
close_file none closed = closed
close_file (some f) closed = f ∷ closed

-- A file that was opened is the one to write to.
unfoldable pub start_file : ℕ → FileApp → LogFile → LogFile
start_file now f l = record l {
  start_of_period = period now;
  last_roll = now;
  last_flush = now;
  file = some f;
  closed = close_file l.file l.closed;
}

-- The fields before the body of the constructor runs.
abbrev pub unopened : LogFile
unopened = record {
  count = 0;
  start_of_period = 0;
  last_roll = 0;
  last_flush = 0;
  file = none;
  closed = [];
  reads = 0;
}

module _ (sys : System) (cfg : Config) where
  unfoldable pub file_name : ℕ → Bytes
  file_name now = cfg.base_name ++ (sys.format now ++ codes ".log")

  unfoldable pub open_file : ℕ → LogFile → Result LogFile
  open_file now l = do
    f ← new_file_app sys.can_open (sys.held l.reads) (file_name now)
    ok (start_file now f l)

  unfoldable pub roll_file : LogFile → Result LogFile
  roll_file l =
      let now = sys.clock l.reads in
      let read : LogFile = record l { reads = suc l.reads } in
      if leb now l.last_roll then ok read else open_file now read

  unfoldable pub flush_file : ℕ → LogFile → Result LogFile
  flush_file now l = do
    f ← deref_file l.file
    ok (record l { last_flush = now; file = some (flush f) })

  -- The branch that looks at the time. The interval is not negative, so that a clock that was set
  -- back leaves the file as it is.
  unfoldable pub check_time : LogFile → Result LogFile
  check_time l =
      let now = sys.clock l.reads in
      let read : LogFile = record l { reads = suc l.reads } in
      if not (period now == l.start_of_period)
      then roll_file read
      else (if ltb cfg.flush_interval (now - l.last_flush) then flush_file now read else ok read)

  unfoldable pub count_line : LogFile → Result LogFile
  count_line l =
      if leb cfg.check_every (suc l.count)
      then check_time (record l { count = 0 })
      else ok (record l { count = suc l.count })

  unfoldable pub append_unlocked : Bytes → LogFile → Result LogFile
  append_unlocked line l = do
    f ← deref_file l.file
    (_, g) ← file_append sys.fwrite line f
    let m : LogFile = record l { file = some g }
    if ltb cfg.roll_size g.written_bytes then roll_file m else count_line m

  -- The constructor, which makes the first file.
  unfoldable pub new_log_file : Result LogFile
  new_log_file = roll_file unopened

  unfoldable pub append_lines : List Bytes → LogFile → Result LogFile
  append_lines [] l = ok l
  append_lines (line ∷ lines) l = do m ← append_unlocked line l; append_lines lines m
