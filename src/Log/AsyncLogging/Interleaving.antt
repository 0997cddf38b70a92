-- ===== src/Log/AsyncLogging/Interleaving.antt =====
-- Every interleaving of the lines that are logged with the steps of the logger's writer.
use adl_server.Base.{
  ℕ, ◌+◌, ◌<◌, List, [], ◌∷◌, ◌++◌, Bytes, length, Memory, Result, ok, ◌>>=◌, ◌≡◌, refl, sym, ap,
  ◌∙◌, append-nil, append_assoc,
}
use adl_server.Log.AsyncLogging.{Logger, log, back_end}
use adl_server.Log.AsyncLogging.Flow.{IsOrderly, total, log-total}
use adl_server.Log.AsyncLogging.Writer.{back_end-total}

-- What the threads do, one after the other: a line is logged, or the writer makes a step.
pub data Event : Type 0 where
  line : Bytes → Event
  writer : Event

unfoldable pub happen : ℕ → Memory → Event → Logger → Result Logger
happen size block (line msg) s = log size block msg s
happen size block writer s = back_end size block s

unfoldable pub happen_all : ℕ → Memory → List Event → Logger → Result Logger
happen_all size block [] s = ok s
happen_all size block (e ∷ es) s = do d ← happen size block e s; happen_all size block es d

unfoldable pub lines : List Event → Bytes
lines [] = []
lines (line msg ∷ es) = msg ++ lines es
lines (writer ∷ es) = lines es

-- Each line fits in a new buffer, and the writer never finds 25 buffers or more.
abbrev pub IsCalm : ℕ → Event → Logger → Type 0
IsCalm size (line msg) s = length msg + 1 < size
IsCalm size writer s = length s.need < 25

abbrev pub AreCalm : ℕ → Memory → List Event → Logger → Type 0
AreCalm size block [] s = Unit
AreCalm size block (e ∷ es) s =
    IsCalm size e s × ((d : Logger) → happen size block e s ≡ ok d → AreCalm size block es d)

-- From an orderly logger, such as a new one, however the lines and the steps of the writer are
-- interleaved: where each line fits in a buffer with its NUL and a byte to spare, and the writer
-- never finds 25 buffers or more, no assertion fails and no null pointer is used. What the file was
-- given, followed by what waits, is what it was before followed by the lines, in order.
pub happen_all-total :
    (size : ℕ) (block : Memory) (es : List Event) (s : Logger)
    → 0 < size
    → IsOrderly size s
    → AreCalm size block es s
    → (d : Logger) × (happen_all size block es s ≡ ok d)
      × IsOrderly size d
      × (total d ≡ total s ++ lines es)
unfolding happen_all happen lines
happen_all-total size block [] s p o calm = (s, refl, o, sym (append-nil (total s)))
happen_all-total size block (line msg ∷ es) s p o calm =
    let (d, e, q, t, _, _, _) = log-total size block msg calm.0 s o in
    let (end, f, r, u) = happen_all-total size block es d p q (calm.1 d e) in
    (
      end,
      rw e f,
      r,
      u ∙ ap (λ (z : Bytes). z ++ lines es) t ∙ append_assoc (total s) msg (lines es),
    )
happen_all-total size block (writer ∷ es) s p o calm =
    let (d, e, q, t) = back_end-total size p block s o calm.0 in
    let (end, f, r, u) = happen_all-total size block es d p q (calm.1 d e) in
    (end, rw e f, r, u ∙ ap (λ (z : Bytes). z ++ lines es) t)
