-- ===== src/Log/Backend/Examples.antt =====
-- A logger that is given a line and writes it behind a LOG statement, and one that is stopped first.
use adl_server.Base.{
  ◌<◌, true, false, List, [], ◌∷◌, Bytes, codes, length, slice, Result, ok, fault, out_of_bounds,
  some, ◌>>=◌, ◌≡◌, refl, subst, arith,
}
use adl_server.Log.FixedBuffer.{avail, append, add_len, set_len, text}
use adl_server.Log.FileApp.{new_file_app, opened_file, file_append, append_loop, write}
use adl_server.Log.LogFile.{
  new_log_file, roll_file, open_file, start_file, file_name, period, close_file, append_unlocked,
  deref_file, count_line, check_time, flush_file,
}
use adl_server.Log.LogFile.Roll.{IsRolling}
use adl_server.Log.AsyncLogging.{start, deref, log_into, log, exchange, exchange_by, overload}
use adl_server.Log.Backend.{
  Backend, Event, says, states, writes, stops, begin_thread, say, state_line, write_next,
  next_round, thread_goes_on, occur, occur_all,
}
use adl_server.Log.Backend.Delivery.{IsQuiet, AreQuiet}
use adl_server.Log.Backend.Loss.{Holds, lines_reach_files, stop_loses}
use adl_server.Log.Examples.{stale, disk, settings}

-- The result of a step that does not fail.
abbrev or_else : Backend → Result Backend → Backend
or_else b (ok c) = c
or_else b (fault why) = b

abbrev nothing_yet : Backend
nothing_yet = record {
  logger = start stale;
  files = record {
    count = 0;
    start_of_period = 0;
    last_roll = 100;
    last_flush = 100;
    file = some (opened_file [] (file_name disk settings 100));
    closed = [];
    reads = 1;
  };
  left = [];
  running = true;
  is_over = false;
}

begins : begin_thread disk settings 8 stale ≡ ok nothing_yet
unfolding begin_thread new_log_file roll_file open_file start_file new_file_app period close_file
begins = refl

quiet_from :
    (e : Event) (es : List Event) (b c : Backend)
    → IsQuiet 8 e b
    → occur disk settings 8 stale e b ≡ ok c
    → length c.logger.need < 25
    → AreQuiet disk settings 8 stale es c
    → AreQuiet disk settings 8 stale (e ∷ es) b
quiet_from e es b c q runs few rest = (
  q,
  λ d h.
      let same : c ≡ d = cc in
      subst (λ x. (length x.logger.need < 25) × AreQuiet disk settings 8 stale es x) same
        (few, rest),
)

abbrev after : Event → Backend → Backend
after e b = or_else b (occur disk settings 8 stale e b)

abbrev with_line : Backend
with_line = after (says (codes "hi")) nothing_yet

abbrev exchanged : Backend
exchanged = after writes with_line

abbrev with_statement : Backend
with_statement = after (states (codes "LOG")) exchanged

abbrev with_text : Backend
with_text = after writes with_statement

with_line-reached : occur disk settings 8 stale (says (codes "hi")) nothing_yet ≡ ok with_line
unfolding occur say log log_into deref avail append add_len set_len
with_line-reached = refl

-- A line, the exchange, a LOG statement while the buffer is still to be with_text, and its write.
abbrev four_events : List Event
four_events = says (codes "hi") ∷ writes ∷ states (codes "LOG") ∷ writes ∷ []

begun-AreQuiet :
    (b : Backend)
    → begin_thread disk settings 8 stale ≡ ok b
    → AreQuiet disk settings 8 stale four_events b
unfolding occur say log log_into deref avail append add_len set_len thread_goes_on next_round
    exchange exchange_by overload state_line write_next append_unlocked deref_file file_append
    append_loop write count_line check_time roll_file open_file new_file_app start_file period
    file_name close_file flush_file text slice
begun-AreQuiet b e =
    let first = begins in
    let same : nothing_yet ≡ b = cc in
    subst (λ x. AreQuiet disk settings 8 stale four_events x) same
      (quiet_from (says (codes "hi")) (writes ∷ states (codes "LOG") ∷ writes ∷ []) nothing_yet
        with_line (refl, omega arith) refl (omega arith)
        (quiet_from writes (states (codes "LOG") ∷ writes ∷ []) with_line exchanged tt refl
          (omega arith)
          (quiet_from (states (codes "LOG")) (writes ∷ []) exchanged with_statement refl refl
            (omega arith)
            (quiet_from writes [] with_statement with_text tt refl (omega arith) tt))))

lines_reach_files_example :
    (d : Backend) × ((begin_thread disk settings 8 stale
        >>= occur_all disk settings 8 stale four_events)
      ≡ ok d)
    × IsRolling disk settings d.files
    × Holds four_events d.files d
lines_reach_files_example =
    lines_reach_files disk settings 8 stale (omega arith) (λ name. refl)
      (λ name k bytes. omega arith) (λ name k b bs. omega arith) (omega arith) four_events
      begun-AreQuiet

only_line : occur_all disk settings 8 stale (says (codes "hi") ∷ []) nothing_yet ≡ ok with_line
unfolding occur_all
only_line = let e = with_line-reached in rw e refl

one_line-AreQuiet : AreQuiet disk settings 8 stale (says (codes "hi") ∷ []) nothing_yet
one_line-AreQuiet =
    quiet_from (says (codes "hi")) [] nothing_yet with_line (refl, omega arith) with_line-reached
      few tt
  where
    few : length with_line.logger.need < 25
    few = unfold occur say log log_into deref avail append add_len set_len in omega arith

-- The line that was logged is in no file.
stop_loses_example :
    (d : Backend) × (occur_all disk settings 8 stale (stops ∷ writes ∷ []) with_line ≡ ok d)
    × (d.is_over ≡ true)
    × (thread_goes_on disk settings 8 stale d ≡ ok d)
    × Holds (says (codes "hi") ∷ []) d.files with_line
    × ((msg : Bytes) → occur disk settings 8 stale (states msg) d ≡ fault out_of_bounds)
unfolding occur say log log_into deref avail append add_len set_len
stop_loses_example =
    stop_loses disk settings 8 stale (omega arith) (λ name. refl) (λ name k bytes. omega arith)
      (λ name k b bs. omega arith) (omega arith) (says (codes "hi") ∷ []) nothing_yet with_line
      begins one_line-AreQuiet only_line refl refl
