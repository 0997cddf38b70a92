-- ===== src/Log/Backend/Delivery.antt =====
-- From the lines that are logged to the texts of the files.
use adl_server.Base.{
  ℕ, ◌+◌, ◌<◌, Bool, true, false, List, [], ◌∷◌, ◌++◌, Bytes, length, Memory, lt→leb_false, inl,
  inr, if◌then◌else◌, some, Result, ok, ◌≡◌, refl, sym, ap, ◌∙◌, subst, append-nil, arith,
}
use adl_server.Log.FixedBuffer.{Buffer}
use adl_server.Log.FileApp.{flush, IsBounded, IsWorking}
use adl_server.Log.LogFile.{System, Config, LogFile, close_file, deref_file, append_unlocked}
use adl_server.Log.LogFile.Roll.{log_text, IsRolling, Adds}
use adl_server.Log.LogFile.Lines.{append_unlocked-Adds}
use adl_server.Log.AsyncLogging.{texts, overload}
use adl_server.Log.AsyncLogging.Flow.{IsOrderly, cur_text, total, log-total}
use adl_server.Log.Backend.{
  Backend, Event, says, states, writes, stops, flush_files, say, state_line, write_next, next_round,
  thread_goes_on, occur,
}
use adl_server.Log.Backend.Pieces.{
  Piece, by_statement, all_text, thread_text, statements, all_text-statement, thread_text-statement,
  statements-statement,
}

-- What was given to `append` and is not in a file yet.
unfoldable pub waiting : Backend → Bytes
waiting b = texts b.left ++ (texts b.logger.trans ++ cur_text b.logger.cur)

-- The files hold the pieces, and those of the thread with what is left of the round are what the logger
-- has written or has to write.
pub record IsInStep (sys : System) (cfg : Config) (size : ℕ) (ps : List Piece) (b : Backend)
    : Type 0 where
  pub orderly : IsOrderly size b.logger
  pub rolling : IsRolling sys cfg b.files
  pub held : log_text b.files ≡ all_text ps
  pub passed : thread_text ps ++ texts b.left ≡ b.logger.file ++ texts b.logger.need
  pub rested : b.logger.busy ≡ false → b.left ≡ []
  pub few : length b.logger.need < 25

-- A line comes while the logger runs and fits in a new buffer; a statement comes before the end of the
-- thread.
abbrev pub IsQuiet : ℕ → Event → Backend → Type 0
IsQuiet size (says msg) b = (b.running ≡ true) × (length msg + 1 < size)
IsQuiet size (states msg) b = b.is_over ≡ false
IsQuiet size writes b = Unit {0}
IsQuiet size stops b = Unit {0}

pub few-overload : (l : List Buffer) → length l < 25 → overload l ≡ l
unfolding overload
few-overload l few = rw (lt→leb_false 25 (length l) few) refl

module _ (sys : System) (cfg : Config) (size : ℕ) (block : Memory) where
  -- The thread never has 25 buffers or more to write.
  abbrev pub AreQuiet : List Event → Backend → Type 0
  AreQuiet [] b = Unit {0}
  AreQuiet (e ∷ es) b =
      IsQuiet size e b
      × ((c : Backend)
          → occur sys cfg size block e b ≡ ok c
          → (length c.logger.need < 25) × AreQuiet es c)

  -- A step that stays in step and adds a text to what was logged, and lines to those of statements.
  abbrev pub Follows : List Piece → Bytes → List Bytes → Backend → Result Backend → Type 0
  Follows ps msg lines b r =
      (c : Backend) × (qs : List Piece) × (r ≡ ok c)
      × IsInStep sys cfg size qs c
      × (total c.logger ≡ total b.logger ++ msg)
      × (statements qs ≡ statements ps ++ lines)

  pub flush_files-Adds : (l : LogFile) → IsRolling sys cfg l → Adds sys cfg [] l (flush_files l)
  unfolding flush_files flush close_file deref_file
  flush_files-Adds l (f, h, name, before) = (
    record l { file = some (flush f) },
    rw h refl,
    (_, refl, name, before),
    rw h (sym (append-nil (log_text (record l { file = some f })))),
  )

  -- The branch that the thread takes.
  pub thread_choice :
      (b : Backend) (over busy on : Bool)
      → b.is_over ≡ over
      → b.logger.busy ≡ busy
      → b.running ≡ on
      → thread_goes_on sys cfg size block b ≡ (
          if over
          then ok b
          else (if busy
              then write_next sys cfg size block b.left b
              else next_round sys cfg size block on b))
  unfolding thread_goes_on
  thread_choice b over busy on h k r =
      let round = next_round sys cfg size block in
      let write = write_next sys cfg size block b.left b in
      ap (λ x. if x then ok b else (if b.logger.busy then write else round b.running b)) h
      ∙ ap (λ x. if over then ok b else (if x then write else round b.running b)) k
      ∙ ap (λ x. if over then ok b else (if busy then write else round x b)) r

  module _ (positive : 0 < size) (opens : (name : Bytes) → sys.can_open name ≡ true)
      (bounded : IsBounded sys.fwrite) (working : IsWorking sys.fwrite) where
    -- A text goes to the file whole.
    pub whole-Adds :
        (line : Bytes) (f : LogFile)
        → IsRolling sys cfg f
        → Adds sys cfg line f (append_unlocked sys cfg line f)
    whole-Adds line f r =
        let (front, back, split, adds, whole) =
          append_unlocked-Adds sys cfg opens bounded line f r in
        let same : front ≡ line = elim whole [
          | inl (name, (k, b, bs, z)) ↦ let p = working name k b bs in absurd (omega (arith, p, z))
          | inr e ↦ sym (split ∙ ap (λ (x : Bytes). front ++ x) e ∙ append-nil front)
        ] in
        subst (λ (x : Bytes). Adds sys cfg x f (append_unlocked sys cfg line f)) same adds

    pub say-Follows :
        (ps : List Piece) (msg : Bytes) (b : Backend)
        → b.running ≡ true
        → length msg + 1 < size
        → IsInStep sys cfg size ps b
        → Follows ps msg [] b (say sys cfg size block msg b)
    unfolding say
    say-Follows ps msg b runs fits s =
        let (l, e, o, t, file, need, busy) = log-total size block msg fits b.logger s.orderly in
        (
          record b { logger = l },
          ps,
          rw (runs, e) refl,
          record {
            orderly = o;
            rolling = s.rolling;
            held = s.held;
            passed =
                s.passed
                ∙ ap (λ (z : Bytes). z ++ texts b.logger.need) (sym file)
                ∙ ap (λ (z : List Buffer). l.file ++ texts z) (sym need);
            rested = λ off. s.rested (sym busy ∙ off);
            few = subst (λ (z : List Buffer). length z < 25) (sym need) s.few;
          },
          t,
          sym (append-nil (statements ps)),
        )

    pub state-Follows :
        (ps : List Piece) (msg : Bytes) (b : Backend)
        → b.is_over ≡ false
        → IsInStep sys cfg size ps b
        → Follows ps [] (msg ∷ []) b (state_line sys cfg size block msg b)
    unfolding state_line
    state-Follows ps msg b on s =
        let (f, e, rolling, more) = whole-Adds msg b.files s.rolling in
        (
          record b { files = f },
          ps ++ (by_statement msg ∷ []),
          rw (on, e) refl,
          record {
            orderly = s.orderly;
            rolling = rolling;
            held = more ∙ ap (λ (z : Bytes). z ++ msg) s.held ∙ sym (all_text-statement ps msg);
            passed =
                ap (λ (z : Bytes). z ++ texts b.left) (thread_text-statement ps msg) ∙ s.passed;
            rested = s.rested;
            few = s.few;
          },
          sym (append-nil (total b.logger)),
          statements-statement ps msg,
        )
