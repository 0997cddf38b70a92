-- ===== src/Log/Line/Seconds.antt =====
-- The lines of a thread within one second, and the time that they show.
use adl_server.Base.{
  ℕ, zero, suc, true, false, List, [], ◌∷◌, ◌++◌, Bytes, map, Memory, slice, ◌==◌, ok, ◌≡◌, refl,
  ap, arith,
}
use adl_server.Log.FixedBuffer.{text}
use adl_server.Log.Stream.{Operand}
use adl_server.Log.Stream.Render.{AreShort, render, stream_all-render}
use adl_server.Log.Line.{
  Entry, Clock, is_fatal, small_buffer, seconds, format_time, errno_of, errno_operands, operands,
  log_entry, log_entries,
}

AreShort-append : (xs ys : List Operand) → AreShort xs → AreShort ys → AreShort (xs ++ ys)
AreShort-append [] ys p q = q
AreShort-append (x ∷ xs) ys (p, ps) q = (p, AreShort-append xs ys ps q)

-- The line of an entry that shows a given time.
module _ (to_string strerror format : ℕ → Bytes) where
  unfoldable pub line_with : Bytes → Entry → Bytes
  line_with time e = render small_buffer 0 (operands to_string strerror format time e)

  operands-AreShort :
      (time : Bytes) (e : Entry)
      → AreShort e.body
      → AreShort (operands to_string strerror format time e)
  unfolding operands
  operands-AreShort time e s = (
    tt,
    (
      tt,
      (tt, (tt, (tt, (tt, AreShort-append _ e.body (errno_part (errno_of e.level e.errno)) s)))),
    ),
  )
    where
      errno_part : (n : ℕ) → AreShort (errno_operands to_string strerror format n)
      errno_part zero = unfold errno_operands in tt
      errno_part (suc n) = unfold errno_operands in (tt, (tt, (tt, (tt, tt))))

  log_entry_lem :
      (block : Memory) (e : Entry) (c d : Clock)
      → format_time to_string strerror format e.micros c ≡ d
      → AreShort e.body
      → log_entry to_string strerror format block e c ≡ ok (d, line_with d.time e)
  unfolding log_entry line_with text slice
  log_entry_lem block e c d same s =
      let (b, h, v, t) =
        stream_all-render small_buffer (operands to_string strerror format d.time e)
          (record { cells = block; len = 0 }) (operands-AreShort d.time e s) (omega arith) in
      rw same (rw h (ap (λ (z : Bytes). ok (d, z)) t))

  -- All entries are of one second, are below FATAL, and have short operands.
  abbrev pub AreOf : ℕ → List Entry → Type 0
  AreOf s [] = Unit {0}
  AreOf s (e ∷ es) =
      (seconds e.micros ≡ s) × (is_fatal e.level ≡ false) × AreShort e.body × AreOf s es

  same_second :
      (e : Entry) (c : Clock)
      → seconds e.micros ≡ c.last_second
      → format_time to_string strerror format e.micros c ≡ c
  unfolding format_time
  same_second e c h = let y : (seconds e.micros == c.last_second) ≡ true = ground (arith, h) in rw y

  later_entries :
      (block : Memory) (es : List Entry) (c : Clock)
      → AreOf c.last_second es
      → log_entries to_string strerror format block es c ≡ ok (c, map (line_with c.time) es)
  unfolding log_entries
  later_entries block [] c h = refl
  later_entries block (e ∷ es) c (h, low, short, rest) =
      rw (log_entry_lem block e c c (same_second e c h) short, low)
        (rw (later_entries block es c rest) refl)

  -- The lines that a thread logs within one second, the first of them in a new second: each is the
  -- concatenation of its parts that fit in the buffer, and each shows the time of the first one, with
  -- the microseconds of that one and not its own.
  pub entries_within_second :
      (block : Memory) (e : Entry) (es : List Entry) (c : Clock)
      → (seconds e.micros == c.last_second) ≡ false
      → AreOf (seconds e.micros) (e ∷ es)
      → log_entries to_string strerror format block (e ∷ es) c
        ≡ ok (
          record { last_second = seconds e.micros; time = format e.micros },
          map (line_with (format e.micros)) (e ∷ es),
        )
  unfolding log_entries
  entries_within_second block e es c fresh (_, low, short, rest) =
      let next : Clock = record { last_second = seconds e.micros; time = format e.micros } in
      let opened : format_time to_string strerror format e.micros c ≡ next =
        unfold format_time in rw fresh in
      rw (log_entry_lem block e c next opened short, low)
        (rw (later_entries block es next rest) refl)
