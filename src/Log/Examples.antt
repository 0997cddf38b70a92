-- ===== src/Log/Examples.antt =====
-- Runs of the log buffers on short lines.
use adl_server.Base.{
  ◌+◌, List, [], ◌∷◌, codes, Bytes, length, min, ◌⊎◌, true, ◌>>=◌, ℕ, ◌%◌, some, Memory, ◌≡◌, refl,
  inl, ok, arith,
}
use adl_server.Log.FixedBuffer.{Buffer}
use adl_server.Log.Stream.{Operand, c_string, integer, formatted, string, end_line, stream_all}
use adl_server.Log.Stream.Render.{render, Puts, stream_all-render}
use adl_server.Log.LogFile.{System, Config, LogFile, new_log_file, append_lines}
use adl_server.Log.LogFile.Roll.{IsRolling, log_text}
use adl_server.Log.LogFile.Lines.{AreStarts, joined, RefusesOne, lines_kept}
use adl_server.Log.AsyncLogging.{Logger, start, log}
use adl_server.Log.AsyncLogging.Dropped.{log_longest}
use adl_server.Log.AsyncLogging.Flow.{IsOrderly, total}

abbrev pub stale : Memory
stale i = 120

abbrev half : Buffer
half = record { cells = stale; len = 5 }

start-IsOrderly : IsOrderly 8 (start stale)
start-IsOrderly = record {
  cur = (_, refl, omega arith);
  front = inl (refl, (_, refl, refl));
  back = inl (refl, refl, (_, refl, refl), (_, refl, refl));
}

log_longest_example :
    (d : Logger) × (log 8 stale (codes "7 bytes") (start stale) ≡ ok d)
    × (total d ≡ total (start stale))
log_longest_example = log_longest stale (codes "7 bytes") (start stale) start-IsOrderly

-- The pointer does not fit, what comes behind it does.
abbrev greeting : List Operand
greeting =
    c_string (some (codes "n="))
    ∷ integer (codes "42")
    ∷ formatted (codes "0x10")
    ∷ string (codes "!")
    ∷ end_line
    ∷ []

stream_all-render_example : Puts 16 half (stream_all 16 greeting half) (render 16 5 greeting)
stream_all-render_example =
    stream_all-render 16 greeting half (tt, (tt, (omega arith, (tt, (tt, tt))))) (omega arith)

abbrev pub digit : ℕ → Bytes
digit n = (48 + n % 10) ∷ []

-- Each call of fwrite takes three bytes at most; each call of time is a second later.
abbrev pub disk : System
disk = record {
  clock = λ k. 100 + k;
  format = digit;
  can_open = λ name. true;
  held = λ k name. [];
  fwrite = λ name k bytes. min 3 (length bytes);
}

abbrev pub settings : Config
settings = record { base_name = codes "log"; roll_size = 6; flush_interval = 3; check_every = 2 }

abbrev three_lines : List Bytes
three_lines = codes "first" ∷ codes "second" ∷ codes "third" ∷ []

lines_kept_example :
    (m : LogFile) × ((new_log_file disk settings >>= append_lines disk settings three_lines) ≡ ok m)
    × IsRolling disk settings m
    × (ts : List Bytes) × AreStarts ts three_lines
    × (log_text m ≡ joined ts)
    × (RefusesOne disk settings ⊎ (log_text m ≡ joined three_lines))
lines_kept_example =
    lines_kept disk settings three_lines (λ name. refl) (λ name k bytes. omega arith) (omega arith)
