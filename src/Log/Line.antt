-- ===== src/Log/Line.antt =====
-- src/log/Logging.cpp and Logging.h: a line of the log, from the constructor of `Logger` to its
-- destructor. `std::to_string`, `strerror_r` and the calendar of `toFormattedString` are arguments.
pub mod Seconds
use adl_server.Base.{
  ℕ, zero, suc, ◌/◌, ◌*◌, Bool, true, false, List, [], ◌∷◌, ◌++◌, Bytes, codes, leb, ◌==◌,
  if◌then◌else◌, some, Result, ok, fault, assert_failed, ◌>>=◌, Memory,
}
use adl_server.Log.FixedBuffer.{Buffer, text}
use adl_server.Log.Stream.{Operand, integer, c_string, string, stream_all}

pub data Level : Type 0 where
  trace debug info warn error fatal : Level

unfoldable pub rank : Level → ℕ
rank trace = 0
rank debug = 1
rank info = 2
rank warn = 3
rank error = 4
rank fatal = 5

-- `LogLevelStr`.
unfoldable pub level_name : Level → Bytes
level_name trace = codes "TRACE"
level_name debug = codes "DEBUG"
level_name info = codes "INFO"
level_name warn = codes "WARN"
level_name error = codes "ERROR"
level_name fatal = codes "FATAL"

-- The test of the macro `LOG`, and the errno that it passes on.
unfoldable pub is_enabled : Level → Level → Bool
is_enabled level global = leb (rank global) (rank level)

unfoldable pub errno_of : Level → ℕ → ℕ
errno_of error errno = errno
errno_of fatal errno = errno
errno_of _ errno = 0

unfoldable pub is_fatal : Level → Bool
is_fatal fatal = true
is_fatal _ = false

-- The thread's `t_lastSecond` and `t_time`.
pub record Clock : Type 0 where
  pub last_second : ℕ
  pub time : Bytes

-- What a line is made of: the microseconds of its time stamp, the thread, the level, the errno and
-- the operands behind the macro.
pub record Entry : Type 0 where
  pub micros : ℕ
  pub tid : ℕ
  pub level : Level
  pub errno : ℕ
  pub body : List Operand

-- `kSmallBuffer`.
abbrev pub small_buffer : ℕ
small_buffer = 4000

unfoldable pub seconds : ℕ → ℕ
seconds micros = micros / 1000000

module _ (to_string strerror format : ℕ → Bytes) where
  unfoldable pub format_time : ℕ → Clock → Clock
  format_time micros c =
      if seconds micros == c.last_second
      then c
      else record { last_second = seconds micros; time = format micros }

  unfoldable pub errno_operands : ℕ → List Operand
  errno_operands zero = []
  errno_operands (suc n) =
      c_string (some (strerror (suc n)))
      ∷ c_string (some (codes " (errno="))
      ∷ integer (to_string (suc n))
      ∷ c_string (some (codes ") "))
      ∷ []

  -- The constructor's `<<`s, then those of the caller.
  unfoldable pub operands : Bytes → Entry → List Operand
  operands time e =
      string time
      ∷ c_string (some (codes " "))
      ∷ integer (to_string e.tid)
      ∷ c_string (some (codes " "))
      ∷ c_string (some (level_name e.level))
      ∷ c_string (some (codes " "))
      ∷ (errno_operands (errno_of e.level e.errno) ++ e.body)

  -- The text that the destructor gives to `gOut`.
  unfoldable pub log_entry : Memory → Entry → Clock → Result (Clock × Bytes)
  log_entry block e c = do
    let d = format_time e.micros c
    b ← stream_all small_buffer (operands d.time e) (record { cells = block; len = 0 })
    ok (d, text b)

  -- The lines of a thread. Behind a FATAL line the destructor aborts.
  unfoldable pub log_entries : Memory → List Entry → Clock → Result (Clock × List Bytes)
  log_entries block [] c = ok (c, [])
  log_entries block (e ∷ es) c = do
    (d, t) ← log_entry block e c
    (end, ts) ← elim (is_fatal e.level) [
      | true ↦ fault assert_failed
      | false ↦ log_entries block es d
    ]
    ok (end, t ∷ ts)
