-- ===== src/Log/Backend/Runs.antt =====
-- Any run of the logger, with the statements between the steps of its thread.
use adl_server.Base.{
  ℕ, ◌<◌, true, false, List, [], ◌∷◌, ◌++◌, Bytes, Memory, ◌≡◌, refl, sym, ap, ◌∙◌, append-nil,
  append_assoc,
}
use adl_server.Log.FileApp.{IsBounded, IsWorking}
use adl_server.Log.LogFile.{System, Config}
use adl_server.Log.AsyncLogging.Flow.{total}
use adl_server.Log.Backend.{Backend, Event, says, states, writes, stops, occur, occur_all}
use adl_server.Log.Backend.Pieces.{Piece, statements, said, stated}
use adl_server.Log.Backend.Delivery.{IsInStep, AreQuiet, Follows, say-Follows, state-Follows}
use adl_server.Log.Backend.Rounds.{thread-Follows}

module _ (sys : System) (cfg : Config) (size : ℕ) (block : Memory) (positive : 0 < size)
    (opens : (name : Bytes) → sys.can_open name ≡ true) (bounded : IsBounded sys.fwrite)
    (working : IsWorking sys.fwrite) where
  pub occur_all-Follows :
      (es : List Event) (ps : List Piece) (b : Backend)
      → AreQuiet sys cfg size block es b
      → IsInStep sys cfg size ps b
      → Follows sys cfg size block ps (said es) (stated es) b (occur_all sys cfg size block es b)
  unfolding occur_all occur said stated
  occur_all-Follows [] ps b q s =
      (b, ps, refl, s, sym (append-nil (total b.logger)), sym (append-nil (statements ps)))
  occur_all-Follows (says msg ∷ es) ps b q s =
      let (c, qs, e, t, more, same) =
        say-Follows sys cfg size block positive opens bounded working ps msg b q.0.0 q.0.1 s in
      let (d, rs, f, u, rest, lines) = occur_all-Follows es qs c (q.1 c e).1 t in
      (
        d,
        rs,
        rw e f,
        u,
        rest ∙ ap (λ (z : Bytes). z ++ said es) more ∙ append_assoc (total b.logger) msg (said es),
        lines ∙ ap (λ (z : List Bytes). z ++ stated es) (same ∙ append-nil (statements ps)),
      )
  occur_all-Follows (states msg ∷ es) ps b q s =
      let (c, qs, e, t, more, same) =
        state-Follows sys cfg size block positive opens bounded working ps msg b q.0 s in
      let (d, rs, f, u, rest, lines) = occur_all-Follows es qs c (q.1 c e).1 t in
      (
        d,
        rs,
        rw e f,
        u,
        rest ∙ ap (λ (z : Bytes). z ++ said es) (more ∙ append-nil (total b.logger)),
        lines
            ∙ ap (λ (z : List Bytes). z ++ stated es) same
            ∙ append_assoc (statements ps) (msg ∷ []) (stated es),
      )
  occur_all-Follows (writes ∷ es) ps b q s =
      let (c, qs, e, t, more, same) =
        thread-Follows sys cfg size block positive opens bounded working ps b (λ c e. (q.1 c e).0)
          s in
      let (d, rs, f, u, rest, lines) = occur_all-Follows es qs c (q.1 c e).1 t in
      (
        d,
        rs,
        rw e f,
        u,
        rest ∙ ap (λ (z : Bytes). z ++ said es) (more ∙ append-nil (total b.logger)),
        lines ∙ ap (λ (z : List Bytes). z ++ stated es) (same ∙ append-nil (statements ps)),
      )
  occur_all-Follows (stops ∷ es) ps b q s =
      let t : IsInStep sys cfg size ps (record b { running = false }) = record {
        orderly = s.orderly;
        rolling = s.rolling;
        held = s.held;
        passed = s.passed;
        rested = s.rested;
        few = s.few;
      } in
      occur_all-Follows es ps (record b { running = false }) (q.1 _ refl).1 t
