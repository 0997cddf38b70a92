-- ===== src/Log/Backend/Loss.antt =====
-- What the files hold at any time, and what they lack when the thread has come to its end.
use adl_server.Base.{
  ℕ, ◌<◌, true, false, List, [], ◌∷◌, ◌++◌, Bytes, Memory, inl, inr, Result, ok, fault,
  out_of_bounds, ◌>>=◌, >>=-eq-ok, ◌≡◌, refl, sym, ap, ◌∙◌, subst, append-nil, append_assoc, slice,
  arith,
}
use adl_server.Log.FixedBuffer.{text}
use adl_server.Log.FileApp.{IsBounded, IsWorking}
use adl_server.Log.LogFile.{System, Config, LogFile, append_lines, new_log_file}
use adl_server.Log.LogFile.Roll.{log_text, IsRolling}
use adl_server.Log.LogFile.Lines.{lines_kept}
use adl_server.Log.AsyncLogging.{start, texts}
use adl_server.Log.AsyncLogging.Flow.{IsOrderly, cur_text, total}
use adl_server.Log.Backend.{
  Backend, Event, states, writes, stops, flush_files, begin_thread, state_line, next_round,
  thread_goes_on, occur, occur_all,
}
use adl_server.Log.Backend.Pieces.{Piece, all_text, thread_text, statements, said, stated}
use adl_server.Log.Backend.Delivery.{waiting, IsInStep, AreQuiet, flush_files-Adds, thread_choice}
use adl_server.Log.Backend.Runs.{occur_all-Follows}

start-IsOrderly : (size : ℕ) (block : Memory) → 0 < size → IsOrderly size (start block)
start-IsOrderly size block p = record {
  cur = (_, refl, p);
  front = inl (refl, (_, refl, refl));
  back = inl (refl, refl, (_, refl, refl), (_, refl, refl));
}

start-total : (block : Memory) → total (start block) ≡ []
unfolding total texts cur_text text slice
start-total block = refl

-- What the thread has passed on and what waits are what was logged.
passed-waiting :
    (sys : System) (cfg : Config) (size : ℕ) (ps : List Piece) (b : Backend)
    → IsInStep sys cfg size ps b
    → thread_text ps ++ waiting b ≡ total b.logger
unfolding total waiting
passed-waiting sys cfg size ps b s =
    let rest = texts b.logger.trans ++ cur_text b.logger.cur in
    sym (append_assoc (thread_text ps) (texts b.left) rest)
    ∙ ap (λ (z : Bytes). z ++ rest) s.passed
    ∙ append_assoc b.logger.file (texts b.logger.need) rest

-- The texts of the files are pieces of two kinds: those of the thread, in order and with what waits
-- behind them, are what was given to `append`, and the others are the lines of the LOG statements.
abbrev pub Holds : List Event → LogFile → Backend → Type 0
Holds es files b =
    (ps : List Piece) × (log_text files ≡ all_text ps)
    × (thread_text ps ++ waiting b ≡ said es)
    × (statements ps ≡ stated es)

module _ (sys : System) (cfg : Config) (size : ℕ) (block : Memory) (positive : 0 < size)
    (opens : (name : Bytes) → sys.can_open name ≡ true) (bounded : IsBounded sys.fwrite)
    (working : IsWorking sys.fwrite) (up : 0 < sys.clock 0) where
  first_file :
      (l : LogFile) × (new_log_file sys cfg ≡ ok l) × IsRolling sys cfg l × (log_text l ≡ [])
  unfolding append_lines
  first_file =
      let (m, e, rolling, _, _, _, whole) = lines_kept sys cfg [] opens bounded up in
      let (l, f, same) = >>=-eq-ok (new_log_file sys cfg) (append_lines sys cfg []) e in
      (
        m,
        f ∙ same,
        rolling,
        elim whole [
          | inl (name, (k, b, bs, z)) ↦ let p = working name k b bs in absurd (omega (arith, p, z))
          | inr none_yet ↦ none_yet
        ],
      )

  begun :
      (b : Backend) × (begin_thread sys cfg size block ≡ ok b)
      × IsInStep sys cfg size [] b
      × (total b.logger ≡ [])
  unfolding begin_thread texts all_text thread_text
  begun =
      let (l, e, rolling, no_text) = first_file in
      (
        record { logger = start block; files = l; left = []; running = true; is_over = false },
        rw e refl,
        record {
          orderly = start-IsOrderly size block positive;
          rolling = rolling;
          held = no_text;
          passed = refl;
          rested = λ off. refl;
          few = omega arith;
        },
        start-total block,
      )

  -- A run from a logger that has begun.
  run-Holds :
      (es : List Event) (b : Backend)
      → IsInStep sys cfg size [] b
      → total b.logger ≡ []
      → AreQuiet sys cfg size block es b
      → (d : Backend) × (occur_all sys cfg size block es b ≡ ok d)
        × IsRolling sys cfg d.files
        × Holds es d.files d
  unfolding statements
  run-Holds es b s nothing quiet =
      let (d, ps, f, t, more, lines) =
        occur_all-Follows sys cfg size block positive opens bounded working es [] b quiet s in
      (
        d,
        f,
        t.rolling,
        (
          ps,
          t.held,
          passed-waiting sys cfg size ps d t ∙ more ∙ ap (λ (z : Bytes). z ++ said es) nothing,
          lines,
        ),
      )

  -- The directory of the log can be written to, the clock stands above 0 and `fwrite` takes
  -- something of every text. However the lines that are given to `append`, the LOG statements, the
  -- steps of the thread of the logger and the end of `running_` are interleaved, where each line
  -- comes while the logger runs and fits in a buffer with a byte to spare, each LOG statement comes
  -- before the end of the thread, and the thread never has 25 buffers or more to write: nothing
  -- fails; and what the log was handed, file by file in the order in which they were opened, is
  -- made of the lines of the LOG statements, each whole and in order, and of the texts of the
  -- thread, which with what still waits in the buffers behind them are just the lines that were
  -- given to `append`, in order.
  pub lines_reach_files :
      (es : List Event)
      → ((b : Backend) → begin_thread sys cfg size block ≡ ok b → AreQuiet sys cfg size block es b)
      → (d : Backend) × ((begin_thread sys cfg size block >>= occur_all sys cfg size block es)
          ≡ ok d)
        × IsRolling sys cfg d.files
        × Holds es d.files d
  lines_reach_files es quiet =
      let (b, e, s, nothing) = begun in
      let (d, f, rolling, holds) = run-Holds es b s nothing (quiet b e) in
      (d, ap (λ (r : Result Backend). r >>= occur_all sys cfg size block es) e ∙ f, rolling, holds)

  reached :
      (es : List Event) (b c : Backend)
      → begin_thread sys cfg size block ≡ ok b
      → AreQuiet sys cfg size block es b
      → occur_all sys cfg size block es b ≡ ok c
      → IsRolling sys cfg c.files × Holds es c.files c
  reached es b c e quiet runs =
      let (z, f, s, nothing) = begun in
      let same : z ≡ b = cc in
      let (x, g, rolling, holds) =
        run-Holds es b (subst (λ (y : Backend). IsInStep sys cfg size [] y) same s)
          (subst (λ (y : Backend). total y.logger ≡ []) same nothing) quiet in
      let there : x ≡ c = cc in
      subst (λ (y : Backend). IsRolling sys cfg y.files × Holds es y.files y) there (rolling, holds)

  end_step :
      (c : Backend)
      → c.logger.busy ≡ false
      → c.is_over ≡ false
      → (g : LogFile) → flush_files c.files ≡ ok g
      → occur_all sys cfg size block (stops ∷ writes ∷ []) c
        ≡ ok (record c { files = g; running = false; is_over = true })
  unfolding occur_all occur next_round
  end_step c idle on g h =
      ap (λ (r : Result Backend). r >>= λ x. ok x)
        (thread_choice sys cfg size block (record c { running = false }) false false false on idle
            refl
          ∙ ap
              (λ (r : Result LogFile).
                r >>= λ f. ok (record c { files = f; running = false; is_over = true }))
              h)

  -- In the conditions of `lines_reach_files`, where `running_` turns false between two rounds: the
  -- next step of the thread is its last; what the log was handed lacks just what waited in the
  -- buffers, and no later step of the thread writes it; and a LOG statement after it uses the file
  -- that is destroyed.
  pub stop_loses :
      (es : List Event) (b c : Backend)
      → begin_thread sys cfg size block ≡ ok b
      → AreQuiet sys cfg size block es b
      → occur_all sys cfg size block es b ≡ ok c
      → c.logger.busy ≡ false
      → c.is_over ≡ false
      → (d : Backend) × (occur_all sys cfg size block (stops ∷ writes ∷ []) c ≡ ok d)
        × (d.is_over ≡ true)
        × (thread_goes_on sys cfg size block d ≡ ok d)
        × Holds es d.files c
        × ((msg : Bytes) → occur sys cfg size block (states msg) d ≡ fault out_of_bounds)
  unfolding thread_goes_on occur state_line
  stop_loses es b c e quiet runs idle on =
      let (rolling, (ps, held, passed, lines)) = reached es b c e quiet runs in
      let (g, h, _, same) = flush_files-Adds sys cfg size block c.files rolling in
      let kept : log_text g ≡ log_text c.files = same ∙ append-nil (log_text c.files) in
      (
        record c { files = g; running = false; is_over = true },
        end_step c idle on g h,
        refl,
        refl,
        (ps, kept ∙ held, passed, lines),
        λ msg. refl,
      )
