-- ===== src/Log/AsyncLogging/Writer.antt =====
-- The rounds of the logger's writer.
use adl_server.Base.{
  ℕ, ◌<◌, Bool, true, false, List, [], ◌∷◌, ◌++◌, Bytes, length, take, Memory, store, lt→ltb,
  lt→leb_false, if◌then◌else◌, Option, none, some, ok, ◌>>=◌, ◌≡◌, refl, ap, ◌∙◌, ◌⊎◌, inl, inr,
  append-nil, append_assoc, slice, arith,
}
use adl_server.Log.FixedBuffer.{Buffer, text, reset, set_len, IsValid}
use adl_server.Log.AsyncLogging.{
  Logger, deref, split_back, texts, overload, exchange_by, exchange, refill, write_out, back_end,
}
use adl_server.Log.AsyncLogging.Flow.{
  Front, Idle, Busy, IsOrderly, cur_text, total, texts-append, snoc_cons,
}

text_spare : (b : Buffer) → b.len ≡ 0 → text b ≡ []
unfolding text slice
text_spare b z = rw z

-- What is exchanged stands in the same order.
exchanged :
    (f t c a : Bytes) → a ≡ [] → f ++ ((t ++ (c ++ [])) ++ ([] ++ a)) ≡ f ++ ([] ++ (t ++ c))
exchanged f t c a h = rw (h, append-nil c) (ap (λ (z : Bytes). f ++ z) (append-nil (t ++ c)))

exchange_flow :
    (s : Logger) (c : Buffer) {a : Buffer}
    → s.cur ≡ some c
    → s.need ≡ []
    → s.new_1 ≡ some a
    → a.len ≡ 0
    → s.file ++ (texts (s.trans ++ (c ∷ [])) ++ (texts s.need ++ cur_text s.new_1)) ≡ total s
unfolding total cur_text texts
exchange_flow s c {a = a} here n e z =
    rw (here, n, e, texts-append s.trans (c ∷ []))
      (exchanged s.file (texts s.trans) (text c) (text a) (text_spare a z))

module _ (size : ℕ) (positive : 0 < size) (block : Memory) where
  exchange_by_flow :
      (o : Option Buffer) (s : Logger) (c : Buffer) {a : Buffer}
      → s.cur ≡ some c
      → s.need ≡ []
      → s.new_1 ≡ some a
      → a.len ≡ 0
      → total (exchange_by size block o c s) ≡ total s
  unfolding exchange_by total cur_text texts
  exchange_by_flow none s c here n e z = exchange_flow s c here n e z
  exchange_by_flow (some p) s c here n e z = exchange_flow s c here n e z

  exchange_by-total :
      (s : Logger) (c : Buffer)
      → s.cur ≡ some c
      → Front s
      → Idle s
      → (d : Logger) × (exchange_by size block s.prv c s ≡ d)
        × IsOrderly size d
        × (total d ≡ total s)
        × (d.file ≡ s.file)
        × (d.busy ≡ true)
  unfolding exchange_by
  exchange_by-total s c here (inl (t, (p, e, z))) (idle, n, (a, e1, z1), spare) = (
    exchange_by size block (some p) c s,
    ap (λ (o : Option Buffer). exchange_by size block o c s) e,
    record {
      cur = (a, e1, omega (arith, z1, positive));
      front = inl (n, (p, e, z));
      back = inr (refl, refl, inl (c, ap (λ (k : List Buffer). k ++ (c ∷ [])) t, spare));
    },
    exchange_by_flow (some p) s c {a = a} here n e1 z1,
    refl,
    refl,
  )
  exchange_by-total s c here (inr (x, l, t, e)) (idle, n, (a, e1, z1), spare) =
      let (y, k, more) = snoc_cons l c in
      (
        exchange_by size block none c s,
        ap (λ (o : Option Buffer). exchange_by size block o c s) e,
        record {
          cur = (a, e1, omega (arith, z1, positive));
          front = inl (n, spare);
          back = inr (
            refl,
            refl,
            inr (x, y, k, ap (λ (j : List Buffer). j ++ (c ∷ [])) t ∙ ap (◌∷◌ x) more, refl),
          );
        },
        exchange_by_flow none s c {a = a} here n e1 z1,
        refl,
        refl,
      )

  pub exchange-total :
      (s : Logger) (c : Buffer)
      → s.cur ≡ some c
      → Front s
      → Idle s
      → (d : Logger) × (exchange size block s ≡ ok d)
        × IsOrderly size d
        × (total d ≡ total s)
        × (d.file ≡ s.file)
        × (d.busy ≡ true)
  unfolding exchange deref
  exchange-total s c here front idle =
      let (d, e, o, t, same, busy) = exchange_by-total s c here front idle in
      (
        d,
        ap (λ (q : Option Buffer). deref q >>= λ b. ok (exchange_by size block s.prv b s)) here
            ∙ ap ok e,
        o,
        t,
        same,
        busy,
      )

  reset_total : (b : Buffer) → (c : Buffer) × (reset size b ≡ ok c) × (c.len ≡ 0)
  unfolding reset set_len
  reset_total b =
      let e = lt→ltb 0 size positive in
      (record b { len = 0; cells = store b.cells 0 0 }, rw e, refl)

  -- The end of a round, where the buffers to write are `need` and one or both spares were used.
  refilled : (s : Logger) (a b : Buffer) → Logger
  refilled s a b = record s {
    file = s.file ++ texts s.need;
    new_1 = some a;
    new_2 = some b;
    need = [];
    busy = false;
  }

  refilled-IsOrderly :
      (s : Logger) (a b : Buffer)
      → (c : Buffer) × (s.cur ≡ some c) × IsValid size c
      → Front s
      → a.len ≡ 0
      → b.len ≡ 0
      → IsOrderly size (refilled s a b) × (total (refilled s a b) ≡ total s)
  unfolding refilled total texts
  refilled-IsOrderly s a b cur front z w = (
    record { cur = cur; front = front; back = inl (refl, refl, (a, refl, z), (b, refl, w)) },
    append_assoc s.file (texts s.need) (texts s.trans ++ cur_text s.cur),
  )

  refill_one : (x a : Buffer) → reset size x ≡ ok a → refill size block none (x ∷ []) ≡ ok (a, [])
  unfolding refill split_back
  refill_one x a r = rw r

  refill_two :
      (x y a : Buffer) → reset size y ≡ ok a → refill size block none (x ∷ y ∷ []) ≡ ok (a, x ∷ [])
  unfolding refill split_back
  refill_two x y a r = rw r

  write_out_eq :
      (s : Logger) (a b : Buffer) (l : List Buffer)
      → length s.need < 25
      → refill size block s.new_1 (take 2 s.need) ≡ ok (a, l)
      → refill size block s.new_2 l ≡ ok (b, [])
      → write_out size block s ≡ ok (refilled s a b)
  unfolding write_out overload refilled
  write_out_eq s a b l few h k = let all = lt→leb_false 25 (length s.need) few in rw (all, h, k)

  first_refill :
      (s : Logger) (k : List Buffer)
      → s.new_1 ≡ none
      → s.need ≡ k
      → refill size block s.new_1 (take 2 s.need) ≡ refill size block none (take 2 k)
  first_refill s k h e =
      ap (λ (o : Option Buffer). refill size block o (take 2 s.need)) h
      ∙ ap (λ (j : List Buffer). refill size block none (take 2 j)) e

  kept_spare : (o : Option Buffer) (b : Buffer) → o ≡ some b → refill size block o [] ≡ ok (b, [])
  unfolding refill
  kept_spare o b e = rw e

  spent : (s : Logger) (a b : Buffer) → (refilled s a b).file ≡ s.file ++ texts s.need
  unfolding refilled
  spent s a b = refl

  at_rest :
      (s : Logger) (a b : Buffer) → ((refilled s a b).need ≡ []) × ((refilled s a b).busy ≡ false)
  unfolding refilled
  at_rest s a b = (refl, refl)

  pub write_out-total :
      (s : Logger)
      → (c : Buffer) × (s.cur ≡ some c) × IsValid size c
      → Front s
      → Busy s
      → length s.need < 25
      → (d : Logger) × (write_out size block s ≡ ok d)
        × IsOrderly size d
        × (total d ≡ total s)
        × (d.file ≡ s.file ++ texts s.need)
        × (d.need ≡ [])
        × (d.busy ≡ false)
  write_out-total s cur front (busy, n1, inl (x, e, (b, e2, z2))) few =
      let (a, r, z) = reset_total x in
      let (o, t) = refilled-IsOrderly s a b cur front z z2 in
      (
        refilled s a b,
        write_out_eq s a b [] few (first_refill s (x ∷ []) n1 e ∙ refill_one x a r)
            (kept_spare s.new_2 b e2),
        o,
        t,
        spent s a b,
        (at_rest s a b).0,
        (at_rest s a b).1,
      )
  write_out-total s cur front (busy, n1, inr (x, y, l, e, n2)) few =
      let (a, r, z) = reset_total y in
      let (b, r2, z2) = reset_total x in
      let (o, t) = refilled-IsOrderly s a b cur front z z2 in
      (
        refilled s a b,
        write_out_eq s a b (x ∷ []) few (first_refill s (x ∷ y ∷ l) n1 e ∙ refill_two x y a r)
            (ap (λ (p : Option Buffer). refill size block p (x ∷ [])) n2 ∙ refill_one x b r2),
        o,
        t,
        spent s a b,
        (at_rest s a b).0,
        (at_rest s a b).1,
      )

  -- A step of the writer.
  pub back_end-total :
      (s : Logger)
      → IsOrderly size s
      → length s.need < 25
      → (d : Logger) × (back_end size block s ≡ ok d) × IsOrderly size d × (total d ≡ total s)
  unfolding back_end
  back_end-total s o few = go o.back
    where
      go :
          Idle s ⊎ Busy s
          → (d : Logger) × (back_end size block s ≡ ok d) × IsOrderly size d × (total d ≡ total s)
      go (inl idle) =
          let (d, e, p, t, _, _) = exchange-total s o.cur.0 o.cur.1 o.front idle in
          (d, choice idle.0 ∙ e, p, t)
        where
          choice : s.busy ≡ false → back_end size block s ≡ exchange size block s
          choice h =
              ap (λ (b : Bool). if b then write_out size block s else exchange size block s) h
      go (inr busy) =
          let (d, e, p, t, _, _, _) = write_out-total s o.cur o.front busy few in
          (d, choice busy.0 ∙ e, p, t)
        where
          choice : s.busy ≡ true → back_end size block s ≡ write_out size block s
          choice h =
              ap (λ (b : Bool). if b then write_out size block s else exchange size block s) h
