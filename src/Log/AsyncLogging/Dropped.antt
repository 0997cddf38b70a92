-- ===== src/Log/AsyncLogging/Dropped.antt =====
-- The one length of a line that `append` neither refuses nor stores.
use adl_server.Base.{
  ◌+◌, ◌-◌, [], ◌∷◌, ◌++◌, Bytes, length, Memory, lt→ltb, lt→leb_false, none, some, ok, ◌≡◌, ap,
  ◌∙◌, append-nil, slice, arith,
}
use adl_server.Log.FixedBuffer.{Buffer, text, avail, IsValid}
use adl_server.Log.AsyncLogging.{Logger, deref, next_buffer, texts, put_line, log_into, log}
use adl_server.Log.AsyncLogging.Flow.{
  IsOrderly, Front, cur_text, total, texts-append, next_buffer-empty,
}

module _ (block : Memory) (msg : Bytes) where
  put_line_none :
      (b : Buffer) → b.len ≡ 0 → (put_line (length msg + 1) block msg b ≡ ok b) × (text b ≡ [])
  unfolding put_line avail text slice
  put_line_none b z =
      let e = lt→ltb b.len (length msg + 1) (omega (arith, z)) in
      let f = lt→leb_false (length msg + 1) (length msg + 1 - 1 - b.len) (omega arith) in
      (rw (e, f), rw z)

  log_into_none :
      (s : Logger) (c : Buffer)
      → s.cur ≡ some c
      → IsValid (length msg + 1) c
      → Front s
      → (d : Logger) × (log_into (length msg + 1) block msg c s ≡ ok d) × (total d ≡ total s)
  unfolding log_into avail total cur_text texts
  log_into_none s c here v front =
      let b = lt→ltb c.len (length msg + 1) v in
      let n = lt→leb_false (length msg + 1) (length msg + 1 - 1 - c.len) (omega arith) in
      let (e, t) = put_line_none (next_buffer block s.prv) (next_buffer-empty block s front) in
      let moved : texts (s.trans ++ (c ∷ [])) ++ text (next_buffer block s.prv)
          ≡ texts s.trans ++ text c =
        ap (λ (z : Bytes). texts (s.trans ++ (c ∷ [])) ++ z) t
        ∙ append-nil _
        ∙ texts-append s.trans (c ∷ [])
        ∙ ap (λ (z : Bytes). texts s.trans ++ z) (append-nil (text c)) in
      (
        record s { trans = s.trans ++ (c ∷ []); cur = some (next_buffer block s.prv); prv = none },
        rw (b, n, e),
        rw (moved, here),
      )

  -- A line one byte shorter than the size of a buffer, the longest that `append` lets pass, is
  -- dropped without a word: the call returns and nothing is added to what was logged.
  pub log_longest :
      (s : Logger)
      → IsOrderly (length msg + 1) s
      → (d : Logger) × (log (length msg + 1) block msg s ≡ ok d) × (total d ≡ total s)
  unfolding log deref
  log_longest s o =
      let (c, here, v) = o.cur in
      let (d, e, t) = log_into_none s c here v o.front in (d, begins c here ∙ e, t)
    where
      begins :
          (c : Buffer)
          → s.cur ≡ some c
          → log (length msg + 1) block msg s ≡ log_into (length msg + 1) block msg c s
      begins c here = let a = lt→ltb (length msg) (length msg + 1) (omega arith) in rw (a, here)
