-- ===== src/Log/Backend/Rounds.antt =====
-- The rounds of the thread of the logger.
use adl_server.Base.{
  ℕ, ◌<◌, true, false, List, [], ◌∷◌, ◌++◌, Bytes, length, Memory, Bool-cases, inl, inr, Result, ok,
  ◌≡◌, refl, sym, ap, ◌∙◌, subst, append-nil, append_assoc, arith,
}
use adl_server.Log.FixedBuffer.{Buffer, text}
use adl_server.Log.FileApp.{IsBounded, IsWorking}
use adl_server.Log.LogFile.{System, Config}
use adl_server.Log.LogFile.Roll.{log_text}
use adl_server.Log.AsyncLogging.{texts, overload}
use adl_server.Log.AsyncLogging.Flow.{Idle, Busy, total}
use adl_server.Log.AsyncLogging.Writer.{exchange-total, write_out-total}
use adl_server.Log.Backend.{Backend, write_next, next_round, thread_goes_on}
use adl_server.Log.Backend.Pieces.{
  Piece, by_thread, thread_text, statements, all_text-thread, thread_text-thread, statements-thread,
}
use adl_server.Log.Backend.Delivery.{
  IsInStep, Follows, few-overload, flush_files-Adds, thread_choice, whole-Adds,
}

module _ (sys : System) (cfg : Config) (size : ℕ) (block : Memory) where
  -- Behind a step there are fewer than 25 buffers to write.
  abbrev pub FewAfter : Result Backend → Type 0
  FewAfter r = (c : Backend) → r ≡ ok c → length c.logger.need < 25

  module _ (positive : 0 < size) where
    exchange-Follows :
        (ps : List Piece) (b : Backend)
        → Idle b.logger
        → FewAfter (next_round sys cfg size block true b)
        → IsInStep sys cfg size ps b
        → Follows sys cfg size block ps [] [] b (next_round sys cfg size block true b)
    unfolding next_round texts
    exchange-Follows ps b idle few s =
        let (c, here, _) = s.orderly.cur in
        let (l, e, o, t, file, busy) =
          exchange-total size positive block b.logger c here s.orderly.front idle in
        let d : Backend = record b { logger = l; left = overload l.need } in
        let runs : next_round sys cfg size block true b ≡ ok d = rw e refl in
        let fewer : length l.need < 25 = few d runs in
        (
          d,
          ps,
          runs,
          record {
            orderly = o;
            rolling = s.rolling;
            held = s.held;
            passed =
                ap (λ (z : List Buffer). thread_text ps ++ texts z) (few-overload l.need fewer)
                ∙ ap (λ (z : Bytes). z ++ texts l.need) (settled ∙ sym file);
            rested = λ off. absurd (cc);
            few = fewer;
          },
          t ∙ sym (append-nil (total b.logger)),
          sym (append-nil (statements ps)),
        )
      where
        settled : thread_text ps ≡ b.logger.file
        settled =
            sym (append-nil (thread_text ps))
            ∙ ap (λ (z : List Buffer). thread_text ps ++ texts z) (sym (s.rested idle.0))
            ∙ s.passed
            ∙ ap (λ (z : List Buffer). b.logger.file ++ texts z) idle.1
            ∙ append-nil b.logger.file

    end-Follows :
        (ps : List Piece) (b : Backend)
        → IsInStep sys cfg size ps b
        → Follows sys cfg size block ps [] [] b (next_round sys cfg size block false b)
    unfolding next_round
    end-Follows ps b s =
        let (g, e, rolling, same) = flush_files-Adds sys cfg size block b.files s.rolling in
        (
          record b { files = g; is_over = true },
          ps,
          rw e refl,
          record {
            orderly = s.orderly;
            rolling = rolling;
            held = same ∙ append-nil (log_text b.files) ∙ s.held;
            passed = s.passed;
            rested = s.rested;
            few = s.few;
          },
          sym (append-nil (total b.logger)),
          sym (append-nil (statements ps)),
        )

    module _ (opens : (name : Bytes) → sys.can_open name ≡ true) (bounded : IsBounded sys.fwrite)
        (working : IsWorking sys.fwrite) where
      write-Follows :
          (l : List Buffer) (ps : List Piece) (b : Backend)
          → b.left ≡ l
          → Busy b.logger
          → IsInStep sys cfg size ps b
          → Follows sys cfg size block ps [] [] b (write_next sys cfg size block l b)
      unfolding write_next texts
      write-Follows (x ∷ rest) ps b here busy s =
          let (f, e, rolling, more) =
            whole-Adds sys cfg size block positive opens bounded working (text x) b.files
              s.rolling in
          (
            record b { files = f; left = rest },
            ps ++ (by_thread (text x) ∷ []),
            rw e refl,
            record {
              orderly = s.orderly;
              rolling = rolling;
              held =
                  more ∙ ap (λ (z : Bytes). z ++ text x) s.held ∙ sym (all_text-thread ps (text x));
              passed =
                  ap (λ (z : Bytes). z ++ texts rest) (thread_text-thread ps (text x))
                  ∙ append_assoc (thread_text ps) (text x) (texts rest)
                  ∙ ap (λ (z : List Buffer). thread_text ps ++ texts z) (sym here)
                  ∙ s.passed;
              rested = λ off. let on = busy.0 in absurd (cc);
              few = s.few;
            },
            sym (append-nil (total b.logger)),
            statements-thread ps (text x) ∙ sym (append-nil (statements ps)),
          )
      write-Follows [] ps b here busy s =
          let (l, w, o, t, spent, none_left, off) =
            write_out-total size positive block b.logger s.orderly.cur s.orderly.front busy s.few in
          let (g, h, rolling, same) = flush_files-Adds sys cfg size block b.files s.rolling in
          (
            record b { logger = l; files = g },
            ps,
            rw (w, h) refl,
            record {
              orderly = o;
              rolling = rolling;
              held = same ∙ append-nil (log_text b.files) ∙ s.held;
              passed =
                  s.passed
                  ∙ sym spent
                  ∙ sym (append-nil l.file)
                  ∙ ap (λ (z : List Buffer). l.file ++ texts z) (sym none_left);
              rested = λ _. here;
              few = subst (λ (z : List Buffer). length z < 25) (sym none_left) (omega arith);
            },
            t ∙ sym (append-nil (total b.logger)),
            sym (append-nil (statements ps)),
          )

      pub thread-Follows :
          (ps : List Piece) (b : Backend)
          → FewAfter (thread_goes_on sys cfg size block b)
          → IsInStep sys cfg size ps b
          → Follows sys cfg size block ps [] [] b (thread_goes_on sys cfg size block b)
      thread-Follows ps b few s = elim (Bool-cases b.is_over) [
        | inl y ↦
            takes (thread_choice sys cfg size block b true b.logger.busy b.running y refl refl)
              (λ z. (
                b,
                ps,
                refl,
                s,
                sym (append-nil (total b.logger)),
                sym (append-nil (statements ps)),
              ))
        | inr m ↦ elim s.orderly.back [
          | inr busy ↦
              takes (thread_choice sys cfg size block b false true b.running m busy.0 refl)
                (λ z. write-Follows b.left ps b refl busy s)
          | inl idle ↦ elim (Bool-cases b.running) [
            | inl on ↦
                takes (thread_choice sys cfg size block b false false true m idle.0 on)
                  (λ z. exchange-Follows ps b idle z s)
            | inr off ↦
                takes (thread_choice sys cfg size block b false false false m idle.0 off)
                  (λ z. end-Follows ps b s)
          ]
        ]
      ]
        where
          takes :
              {r : Result Backend}
              → thread_goes_on sys cfg size block b ≡ r
              → (FewAfter r → Follows sys cfg size block ps [] [] b r)
              → Follows sys cfg size block ps [] [] b (thread_goes_on sys cfg size block b)
          takes e f =
              subst (λ r. Follows sys cfg size block ps [] [] b r) (sym e)
                (f (subst FewAfter e few))
