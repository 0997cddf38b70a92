-- ===== src/Log/Stream.antt =====
-- src/log/logStream.cpp and logStream.h: the operators `<<`, one constructor for each kind of operand.
-- The texts that `std::to_string` and `snprintf` make of numbers and pointers are part of the operand.
pub mod Render
use adl_server.Base.{
  ℕ, ◌+◌, Bool, true, false, List, [], ◌∷◌, ◌++◌, Bytes, codes, length, take, leb, if◌then◌else◌,
  Option, none, some, Result, ok, ◌>>=◌,
}
use adl_server.Log.FixedBuffer.{
  Buffer, copy, text, append, append_string, append_char, avail, add_len,
}

-- `integer` holds `std::to_string(v)`, `formatted` what snprintf would write for "%p" or "%.12g".
pub data Operand : Type 0 where
  flag : Bool → Operand
  integer : Bytes → Operand
  formatted : Bytes → Operand
  char : ℕ → Operand
  c_string : Option Bytes → Operand
  string : Bytes → Operand
  buffer : Buffer → Operand
  buf_len : Bytes → Operand
  end_line : Operand

module _ (size : ℕ) where
  -- `if (needed <= buf_.avail()) …`
  unfoldable pub when_fits : ℕ → (Buffer → Result Buffer) → Buffer → Result Buffer
  when_fits needed act b = do free ← avail size b; if leb needed free then act b else ok b

  -- `snprintf(buf_.current(), 32, …)` and `addlen` of what it returns: it writes at most 31 bytes
  -- and a NUL, and returns the length of the whole text.
  unfoldable pub print_into : Bytes → Buffer → Result Buffer
  print_into t b =
      add_len size (length t) (record b { cells = copy b.cells b.len (take 31 t ++ (0 ∷ [])) })

  unfoldable pub append_c_string : Option Bytes → Buffer → Result Buffer
  append_c_string none = when_fits 6 (append size (codes "(null)"))
  append_c_string (some t) = when_fits (length t) (append size t)

  unfoldable pub stream : Operand → Buffer → Result Buffer
  stream (flag v) = when_fits 1 (append size (if v then codes "1" else codes "0"))
  stream (integer t) = when_fits (length t) (append_string size t)
  stream (formatted t) = when_fits 32 (print_into t)
  stream (char c) = when_fits 1 (append size (c ∷ []))
  stream (c_string t) = append_c_string t
  stream (string t) = when_fits (length t) (append_string size t)
  stream (buffer v) = when_fits v.len (append size (text v))
  stream (buf_len t) = when_fits (length t) (append size t)
  stream end_line = when_fits 1 (append_char size b'\n')

  -- `ls << a << b << …`
  unfoldable pub stream_all : List Operand → Buffer → Result Buffer
  stream_all [] b = ok b
  stream_all (o ∷ os) b = do c ← stream o b; stream_all os c
