-- ===== src/Log/AsyncLogging.antt =====
-- src/log/asyncLogging.cpp: log lines are appended to a current buffer by any thread, under a lock; a
-- writer thread takes the buffers that are full, under the lock, and then writes them to the file
-- without it. `none` is a null pointer, and a vector is a list with its back at the end.
pub mod Flow
pub mod Writer
pub mod Interleaving
pub mod Dropped
use adl_server.Base.{
  ℕ, zero, suc, ◌+◌, Bool, true, false, List, [], ◌∷◌, ◌++◌, Bytes, length, take, Memory, ltb, leb,
  if◌then◌else◌, Option, none, some, Result, ok, fault, check, assert_failed, out_of_bounds, ◌>>=◌,
  ◌>>◌,
}
use adl_server.Log.FixedBuffer.{Buffer, text, append, avail, reset}

-- `new_1`, `new_2` and `need` are the local variables of `threadFunc`; `busy` tells that its thread
-- is between the exchange and the end of the round; `file` holds the bytes given to the log file.
pub record Logger : Type 0 where
  pub cur : Option Buffer
  pub prv : Option Buffer
  pub trans : List Buffer
  pub new_1 : Option Buffer
  pub new_2 : Option Buffer
  pub need : List Buffer
  pub file : Bytes
  pub busy : Bool

unfoldable pub deref : Option Buffer → Result Buffer
deref none = fault out_of_bounds
deref (some b) = ok b

-- A new buffer, over a block that holds any bytes.
abbrev pub new_buffer : Memory → Buffer
new_buffer block = record { cells = block; len = 0 }

abbrev pub start : Memory → Logger
start block = record {
  cur = some (new_buffer block);
  prv = some (new_buffer block);
  trans = [];
  new_1 = some (new_buffer block);
  new_2 = some (new_buffer block);
  need = [];
  file = [];
  busy = false;
}

-- The spare buffer, or a new one.
unfoldable pub next_buffer : Memory → Option Buffer → Buffer
next_buffer block none = new_buffer block
next_buffer block (some p) = p

-- The last element and those before it.
unfoldable pub split_back : Buffer → List Buffer → List Buffer × Buffer
split_back x [] = ([], x)
split_back x (y ∷ l) = let (front, last) = split_back y l in (x ∷ front, last)

unfoldable pub texts : List Buffer → Bytes
texts [] = []
texts (b ∷ l) = text b ++ texts l

-- Where 25 buffers or more wait, all but two are dropped.
unfoldable pub overload : List Buffer → List Buffer
overload l = if leb 25 (length l) then take 2 l else l

-- `size` is `kLargeBuffer`; `block` is what new memory holds.
module _ (size : ℕ) (block : Memory) where
  unfoldable pub put_line : Bytes → Buffer → Result Buffer
  put_line msg b = do
    free ← avail size b
    if leb (length msg + 1) free then append size msg b else ok b

  unfoldable pub log_into : Bytes → Buffer → Logger → Result Logger
  log_into msg c s = do
    free ← avail size c
    if leb (length msg + 1) free
        then (do d ← append size msg c; ok (record s { cur = some d }))
        else (do
          d ← put_line msg (next_buffer block s.prv)
          ok (record s { trans = s.trans ++ (c ∷ []); cur = some d; prv = none }))

  -- `append`, after `start`; `DIE` ends the program as a failing assertion does.
  unfoldable pub log : Bytes → Logger → Result Logger
  log msg s = do check (ltb (length msg) size) assert_failed; c ← deref s.cur; log_into msg c s

  -- The part of a round under the lock. A null `cur_` would be dereferenced by the write.
  unfoldable pub exchange_by : Option Buffer → Buffer → Logger → Logger
  exchange_by none c s = record s {
    trans = s.need;
    need = s.trans ++ (c ∷ []);
    cur = s.new_1;
    new_1 = none;
    prv = s.new_2;
    new_2 = none;
    busy = true;
  }
  exchange_by (some p) c s = record s {
    trans = s.need;
    need = s.trans ++ (c ∷ []);
    cur = s.new_1;
    new_1 = none;
    busy = true;
  }

  unfoldable pub exchange : Logger → Result Logger
  exchange s = do c ← deref s.cur; ok (exchange_by s.prv c s)

  -- `if (!newBuf)`: the back of the vector becomes the new buffer.
  unfoldable pub refill : Option Buffer → List Buffer → Result (Buffer × List Buffer)
  refill (some b) l = ok (b, l)
  refill none [] = fault out_of_bounds
  refill none (x ∷ l) = do let (front, last) = split_back x l; b ← reset size last; ok (b, front)

  -- The rest of the round.
  unfoldable pub write_out : Logger → Result Logger
  write_out s = do
    (a, l) ← refill s.new_1 (take 2 (overload s.need))
    (b, m) ← refill s.new_2 l
    ok (record s {
      file = s.file ++ texts (overload s.need);
      new_1 = some a;
      new_2 = some b;
      need = m;
      busy = false;
    })

  -- The next step of the writer's thread.
  unfoldable pub back_end : Logger → Result Logger
  back_end s = if s.busy then write_out s else exchange s
