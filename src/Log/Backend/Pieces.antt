-- ===== src/Log/Backend/Pieces.antt =====
-- The text of the files, in the pieces that the thread and the LOG statements have appended.
use adl_server.Base.{List, [], ◌∷◌, ◌++◌, Bytes, ◌≡◌, refl, sym, ap, ◌∙◌, append-nil, append_assoc}
use adl_server.Log.Backend.{Event, says, states}

pub data Piece : Type 0 where
  by_thread by_statement : Bytes → Piece

-- The whole text, the part that came from the buffers of the thread, and the lines of the statements.
unfoldable pub all_text : List Piece → Bytes
all_text [] = []
all_text (by_thread x ∷ ps) = x ++ all_text ps
all_text (by_statement x ∷ ps) = x ++ all_text ps

unfoldable pub thread_text : List Piece → Bytes
thread_text [] = []
thread_text (by_thread x ∷ ps) = x ++ thread_text ps
thread_text (by_statement x ∷ ps) = thread_text ps

unfoldable pub statements : List Piece → List Bytes
statements [] = []
statements (by_thread x ∷ ps) = statements ps
statements (by_statement x ∷ ps) = x ∷ statements ps

-- What was given to `append`, and the lines of the LOG statements.
unfoldable pub said : List Event → Bytes
said [] = []
said (says msg ∷ es) = msg ++ said es
said (_ ∷ es) = said es

unfoldable pub stated : List Event → List Bytes
stated [] = []
stated (states msg ∷ es) = msg ∷ stated es
stated (_ ∷ es) = stated es

pub all_text-thread :
    (ps : List Piece) (x : Bytes) → all_text (ps ++ (by_thread x ∷ [])) ≡ all_text ps ++ x
unfolding all_text
all_text-thread [] x = append-nil x
all_text-thread (by_thread y ∷ ps) x =
    ap (λ (z : Bytes). y ++ z) (all_text-thread ps x) ∙ sym (append_assoc y (all_text ps) x)
all_text-thread (by_statement y ∷ ps) x =
    ap (λ (z : Bytes). y ++ z) (all_text-thread ps x) ∙ sym (append_assoc y (all_text ps) x)

pub all_text-statement :
    (ps : List Piece) (x : Bytes) → all_text (ps ++ (by_statement x ∷ [])) ≡ all_text ps ++ x
unfolding all_text
all_text-statement [] x = append-nil x
all_text-statement (by_thread y ∷ ps) x =
    ap (λ (z : Bytes). y ++ z) (all_text-statement ps x) ∙ sym (append_assoc y (all_text ps) x)
all_text-statement (by_statement y ∷ ps) x =
    ap (λ (z : Bytes). y ++ z) (all_text-statement ps x) ∙ sym (append_assoc y (all_text ps) x)

pub thread_text-thread :
    (ps : List Piece) (x : Bytes) → thread_text (ps ++ (by_thread x ∷ [])) ≡ thread_text ps ++ x
unfolding thread_text
thread_text-thread [] x = append-nil x
thread_text-thread (by_thread y ∷ ps) x =
    ap (λ (z : Bytes). y ++ z) (thread_text-thread ps x) ∙ sym (append_assoc y (thread_text ps) x)
thread_text-thread (by_statement y ∷ ps) x = thread_text-thread ps x

pub thread_text-statement :
    (ps : List Piece) (x : Bytes) → thread_text (ps ++ (by_statement x ∷ [])) ≡ thread_text ps
unfolding thread_text
thread_text-statement [] x = refl
thread_text-statement (by_thread y ∷ ps) x = ap (λ (z : Bytes). y ++ z) (thread_text-statement ps x)
thread_text-statement (by_statement y ∷ ps) x = thread_text-statement ps x

pub statements-thread :
    (ps : List Piece) (x : Bytes) → statements (ps ++ (by_thread x ∷ [])) ≡ statements ps
unfolding statements
statements-thread [] x = refl
statements-thread (by_thread y ∷ ps) x = statements-thread ps x
statements-thread (by_statement y ∷ ps) x = ap (λ (z : List Bytes). y ∷ z) (statements-thread ps x)

pub statements-statement :
    (ps : List Piece) (x : Bytes)
    → statements (ps ++ (by_statement x ∷ [])) ≡ statements ps ++ (x ∷ [])
unfolding statements
statements-statement [] x = refl
statements-statement (by_thread y ∷ ps) x = statements-statement ps x
statements-statement (by_statement y ∷ ps) x =
    ap (λ (z : List Bytes). y ∷ z) (statements-statement ps x)
