-- ===== src/Log/LogFile/Roll.antt =====
-- The files of a log are opened at times that strictly grow, and a roll changes no text.
use adl_server.Base.{
  ℕ, suc, ◌<◌, ◌-◌, ◌++◌, append-nil, true, List, [], ◌∷◌, Bytes, ltb, leb, not, ◌==◌, Bool-cases,
  inl, inr, some, Result, ok, ◌≡◌, refl, sym, arith,
}
use adl_server.Log.FileApp.{FileApp, opened_file, new_file_app, flush}
use adl_server.Log.LogFile.{
  System, Config, LogFile, close_file, deref_file, file_name, open_file, roll_file, flush_file,
  start_file, check_time, count_line, period,
}

-- The text of files, the last one first.
abbrev pub text_of : List FileApp → Bytes
text_of [] = []
text_of (f ∷ fs) = text_of fs ++ f.content

abbrev pub log_text : LogFile → Bytes
log_text l = text_of (close_file l.file l.closed)

module _ (sys : System) (cfg : Config) where
  abbrev pub AreRolledBefore : ℕ → List FileApp → Type 0
  AreRolledBefore t [] = Unit {0}
  AreRolledBefore t (f ∷ fs) =
      (s : ℕ) × (s < t) × (f.name ≡ file_name sys cfg s) × AreRolledBefore s fs

  -- There is a current file, each file has the name of the second when it was opened, and no two
  -- were opened in the same second.
  abbrev pub IsRolling : LogFile → Type 0
  IsRolling l =
      (f : FileApp) × (l.file ≡ some f)
      × (f.name ≡ file_name sys cfg l.last_roll)
      × AreRolledBefore l.last_roll l.closed

  -- A step that keeps this and adds a text.
  abbrev pub Adds : Bytes → LogFile → Result LogFile → Type 0
  Adds t l r = (m : LogFile) × (r ≡ ok m) × IsRolling m × (log_text m ≡ log_text l ++ t)

  module _ (opens : (name : Bytes) → sys.can_open name ≡ true) where
    open_file-Adds :
        (now : ℕ) (l : LogFile)
        → IsRolling l
        → l.last_roll < now
        → Adds [] l (open_file sys cfg now l)
    unfolding open_file start_file new_file_app close_file
    open_file-Adds now l (f, h, name, before) later = (
      start_file now
          (opened_file (sys.held l.reads (file_name sys cfg now)) (file_name sys cfg now)) l,
      rw (opens (file_name sys cfg now)) refl,
      (_, refl, refl, rw h (l.last_roll, later, name, before)),
      refl,
    )

    pub roll_file-Adds : (l : LogFile) → IsRolling l → Adds [] l (roll_file sys cfg l)
    unfolding roll_file
    roll_file-Adds l r = elim (Bool-cases (leb (sys.clock l.reads) l.last_roll)) [
      | inl y ↦ rw y (record l { reads = suc l.reads }, refl, r, sym (append-nil (log_text l)))
      | inr m ↦ rw m (
          open_file-Adds (sys.clock l.reads) (record l { reads = suc l.reads }) r
            (ground (arith, m)))
    ]

    flush_file-Adds : (now : ℕ) (l : LogFile) → IsRolling l → Adds [] l (flush_file sys cfg now l)
    unfolding flush_file flush close_file deref_file
    flush_file-Adds now l (f, h, name, before) = (
      record l { last_flush = now; file = some (flush f) },
      rw h refl,
      (_, refl, name, before),
      rw h (sym (append-nil (text_of l.closed ++ f.content))),
    )

    check_time-Adds : (l : LogFile) → IsRolling l → Adds [] l (check_time sys cfg l)
    unfolding check_time
    check_time-Adds l r =
        let now = sys.clock l.reads in
        let read : LogFile = record l { reads = suc l.reads } in
        elim (Bool-cases (not (period now == l.start_of_period))) [
          | inl y ↦ rw y (roll_file-Adds read r)
          | inr m ↦ elim (Bool-cases (ltb cfg.flush_interval (now - l.last_flush))) [
            | inl late ↦ rw (m, late) (flush_file-Adds now read r)
            | inr soon ↦ rw (m, soon) (read, refl, r, sym (append-nil (log_text l)))
          ]
        ]

    pub count_line-Adds : (l : LogFile) → IsRolling l → Adds [] l (count_line sys cfg l)
    unfolding count_line
    count_line-Adds l r = elim (Bool-cases (leb cfg.check_every (suc l.count))) [
      | inl y ↦ rw y (check_time-Adds (record l { count = 0 }) r)
      | inr m ↦ rw m (record l { count = suc l.count }, refl, r, sym (append-nil (log_text l)))
    ]
