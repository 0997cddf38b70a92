-- ===== src/Log/LogFile/Lines.antt =====
-- What the files of a log hold of the lines that were appended.
use adl_server.Base.{
  ℕ, ◌<◌, ◌++◌, append-nil, append_assoc, true, List, [], ◌∷◌, Bytes, ltb, lt→leb_false, Bool-cases,
  if◌then◌else◌, ◌⊎◌, inl, inr, Option, some, ok, ◌>>=◌, ◌≡◌, refl, sym, ap, ◌∙◌,
}
use adl_server.Log.FileApp.{
  FileApp, opened_file, new_file_app, file_append, IsBounded, Refuses, file_append-Appends,
}
use adl_server.Log.LogFile.{
  System, Config, LogFile, close_file, deref_file, start_file, unopened, open_file, file_name,
  roll_file, count_line, append_unlocked, new_log_file, append_lines,
}
use adl_server.Log.LogFile.Roll.{
  log_text, text_of, IsRolling, Adds, roll_file-Adds, count_line-Adds,
}

-- A start of each line, and what they make together.
abbrev pub AreStarts : List Bytes → List Bytes → Type 0
AreStarts [] [] = Unit {0}
AreStarts (t ∷ ts) (line ∷ lines) = ((back : Bytes) × (line ≡ t ++ back)) × AreStarts ts lines
AreStarts _ _ = ⊥

abbrev pub joined : List Bytes → Bytes
joined [] = []
joined (t ∷ ts) = t ++ joined ts

module _ (sys : System) (cfg : Config) where
  -- A call of `fwrite` on a file that the log opened takes nothing.
  abbrev pub RefusesOne : Type 0
  RefusesOne = (name : Bytes) × Refuses sys.fwrite name

  module _ (opens : (name : Bytes) → sys.can_open name ≡ true) where
    after_write :
        (l : LogFile) (g : FileApp)
        → IsRolling sys cfg (record l { file = some g })
        → Adds sys cfg []
            (record l { file = some g })
            (if ltb cfg.roll_size g.written_bytes
              then roll_file sys cfg (record l { file = some g })
              else count_line sys cfg (record l { file = some g }))
    after_write l g r = elim (Bool-cases (ltb cfg.roll_size g.written_bytes)) [
      | inl y ↦ rw y (roll_file-Adds sys cfg opens (record l { file = some g }) r)
      | inr m ↦ rw m (count_line-Adds sys cfg opens (record l { file = some g }) r)
    ]

    unlocked :
        (line : Bytes) (l : LogFile) (f : FileApp)
        → l.file ≡ some f
        → (r : Option ℕ × FileApp) → file_append sys.fwrite line f ≡ ok r
        → append_unlocked sys cfg line l ≡ (
            if ltb cfg.roll_size r.1.written_bytes
            then roll_file sys cfg (record l { file = some r.1 })
            else count_line sys cfg (record l { file = some r.1 }))
    unfolding append_unlocked deref_file
    unlocked line l f h r e = rw (h, e) refl

    pub append_unlocked-Adds :
        (bounded : IsBounded sys.fwrite) (line : Bytes) (l : LogFile)
        → IsRolling sys cfg l
        → (front : Bytes) × (back : Bytes) × (line ≡ front ++ back)
          × Adds sys cfg front l (append_unlocked sys cfg line l)
          × (RefusesOne ⊎ (back ≡ []))
    unfolding close_file
    append_unlocked-Adds bounded line l (f, h, name, before) =
        let ((r, g), e, (front, back, split, content, w, same, _, end)) =
          file_append-Appends sys.fwrite bounded line f in
        let (m, k, rolling, text) = after_write l g (g, refl, same ∙ name, before) in
        (
          front,
          back,
          split,
          (
            m,
            unlocked line l f h (r, g) e ∙ k,
            rolling,
            text
                ∙ append-nil _
                ∙ ap (λ (z : Bytes). text_of l.closed ++ z) content
                ∙ rw h (sym (append_assoc (text_of l.closed) f.content front)),
          ),
          elim end [ inl (x, y) ↦ inl (f.name, y) | inr (x, y) ↦ inr x ],
        )

    pub append_lines-Adds :
        (bounded : IsBounded sys.fwrite) (lines : List Bytes) (l : LogFile)
        → IsRolling sys cfg l
        → (ts : List Bytes) × AreStarts ts lines
          × Adds sys cfg (joined ts) l (append_lines sys cfg lines l)
          × (RefusesOne ⊎ (joined ts ≡ joined lines))
    unfolding append_lines
    append_lines-Adds bounded [] l r =
        ([], tt, (l, refl, r, sym (append-nil (log_text l))), inr refl)
    append_lines-Adds bounded (line ∷ lines) l r =
        let (front, back, split, (m, e, rolling, text), whole) =
          append_unlocked-Adds bounded line l r in
        let (ts, starts, (n, f, last, more), all) = append_lines-Adds bounded lines m rolling in
        (
          front ∷ ts,
          ((back, split), starts),
          (
            n,
            rw e f,
            last,
            more
                ∙ ap (λ (z : Bytes). z ++ joined ts) text
                ∙ append_assoc (log_text l) front (joined ts),
          ),
          both front back line ts lines split whole all,
        )
      where
        both :
            (front back line : Bytes) (ts lines : List Bytes)
            → line ≡ front ++ back
            → RefusesOne ⊎ (back ≡ [])
            → RefusesOne ⊎ (joined ts ≡ joined lines)
            → RefusesOne ⊎ (front ++ joined ts ≡ line ++ joined lines)
        both front back line ts lines split (inl x) _ = inl x
        both front back line ts lines split _ (inl x) = inl x
        both front back line ts lines split (inr e) (inr all) =
            let same : front ≡ line =
              sym (split ∙ ap (λ (z : Bytes). front ++ z) e ∙ append-nil front) in
            inr (ap (λ (z : Bytes). z ++ joined ts) same ∙ ap (λ (z : Bytes). line ++ z) all)

  -- Where the clock stands above 0, each file can be opened and `fwrite` takes at most what it is
  -- given: whatever lines a new log is given, no null file is used and nothing aborts; no two files
  -- were opened in the same second, and each has the name of its second; the texts of the files, in
  -- the order in which they were opened, are made of a start of each line, and are all of the lines
  -- unless a call of `fwrite` took nothing.
  pub lines_kept :
      (lines : List Bytes)
      → ((name : Bytes) → sys.can_open name ≡ true)
      → IsBounded sys.fwrite
      → 0 < sys.clock 0
      → (m : LogFile) × ((new_log_file sys cfg >>= append_lines sys cfg lines) ≡ ok m)
        × IsRolling sys cfg m
        × (ts : List Bytes) × AreStarts ts lines
        × (log_text m ≡ joined ts)
        × (RefusesOne ⊎ (log_text m ≡ joined lines))
  unfolding new_log_file roll_file open_file start_file new_file_app close_file
  lines_kept lines opens bounded up =
      let now = sys.clock 0 in
      let first : LogFile =
        start_file now (opened_file (sys.held 1 (file_name sys cfg now)) (file_name sys cfg now))
          (record unopened { reads = 1 }) in
      let (ts, starts, (m, e, rolling, text), whole) =
        append_lines-Adds opens bounded lines first (_, refl, refl, tt) in
      (
        m,
        rw (lt→leb_false now 0 up, opens (file_name sys cfg now)) e,
        rolling,
        ts,
        starts,
        text,
        elim whole [ inl x ↦ inl x | inr all ↦ inr (text ∙ all) ],
      )
