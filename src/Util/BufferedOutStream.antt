-- ===== src/Util/BufferedOutStream.antt =====
-- cbindings/util/bufferedoutstream.cpp: a writer that keeps what it is given while a write is in
-- progress. `self` is the address of the object, which it passes to the library as the handler of
-- its writes; the library calls back later. The object's methods return its new fields.
pub mod Traffic
pub mod Append
pub mod Steps
pub mod Writes
pub mod Answers
pub mod Delivery
pub mod Drain
pub mod Session
use gocusp.Cusp.OutStream
use gocusp.Base.{
  Bool, Option, false, if◌then◌else◌, length, ltb, none, some, suc, true, zero, ℕ, ◌%◌, ◌*◌, ◌+◌,
  ◌==◌, ◌^◌,
}
use gocusp.Cusp.Classes.{class_of}
use gocusp.Cusp.EndPoint.{assert_pointer}
use gocusp.Cusp.Ref.{Ref}
use gocusp.Runtime.Engine.{Bytes, Engine, Pointer}
use gocusp.Runtime.Handles.{out_stream}
use gocusp.Runtime.World.{M, assertion, check, pure, stop, ◌>>=◌, ◌>>◌}
use gocusp.Util.Memory.{Allocator, memcpy, read_block, realloc}

-- BufferedOutStream::Handler
pub record Handler : Type 0 where
  pub on_reset : Pointer → M (Unit {0})

pub record BufferedOutStream : Type 0 where
  pub os : Ref out_stream
  pub ready : Bool
  pub buf : Option Bytes
  pub buf_size : ℕ
  pub buf_alloc : ℕ
  pub handler : Pointer
  pub shutdown_request : Pointer

-- BUF_MIN_ALLOC
abbrev pub buf_min_alloc : ℕ
buf_min_alloc = 1024

-- A size_t
abbrev pub size_t : ℕ → ℕ
size_t n = n % 2 ^ 64

-- while (newAlloc < size) newAlloc *= 2; of at most `fuel` rounds
pub doubled : ℕ → ℕ → ℕ → ℕ
doubled zero size new_alloc = new_alloc
doubled (suc fuel) size new_alloc =
    let rest = doubled fuel size (size_t (new_alloc * 2)) in
    if ltb new_alloc size then rest else new_alloc

-- The fields that the constructor sets.
abbrev pub unused : Ref out_stream → Pointer → BufferedOutStream
unused os handler = record {
  os = os;
  ready = true;
  buf = none;
  buf_size = 0;
  buf_alloc = 0;
  handler = handler;
  shutdown_request = 0;
}

-- BufferedOutStream(os, handler)
unfoldable pub create : Ref out_stream → Pointer → M BufferedOutStream
create os handler = do
  own ← (class_of out_stream).copy os
  check ((class_of out_stream).is_valid own)
  assert_pointer handler
  pure (unused own handler)

module _ (A : Allocator) where
  abbrev pub reallocated : BufferedOutStream → ℕ → Option Bytes → M BufferedOutStream
  reallocated b new_alloc none = stop assertion
  reallocated b new_alloc (some bytes) = pure (record b { buf = some bytes; buf_alloc = new_alloc })

  -- allocBuf
  unfoldable pub alloc_buf : ℕ → BufferedOutStream → M BufferedOutStream
  unfolding doubled
  alloc_buf size b =
      if ltb b.buf_alloc size
      then (let new_alloc =
            doubled 64 size (if ltb size buf_min_alloc then buf_min_alloc else size) in
          reallocated b new_alloc (realloc A b.buf new_alloc))
      else pure b

  -- appendBuf
  unfoldable pub append_buf : Bytes → BufferedOutStream → M BufferedOutStream
  unfolding alloc_buf
  append_buf bytes b = do
    let new_size = size_t (b.buf_size + length bytes)
    b1 ← alloc_buf new_size b
    copied ← memcpy b1.buf b1.buf_size bytes
    pure (record b1 { buf = copied; buf_size = new_size })

  module _ (E : Engine) (self : Pointer) where
    unfoldable pub write : Bytes → BufferedOutStream → M BufferedOutStream
    unfolding append_buf
    write bytes b =
        if b.ready
        then (do OutStream.write E b.os bytes self; pure (record b { ready = false }))
        else append_buf bytes b

module _ (E : Engine) (self : Pointer) where
  unfoldable pub get_priority : BufferedOutStream → M ℕ
  get_priority b = OutStream.get_priority E b.os

  unfoldable pub set_priority : ℕ → BufferedOutStream → M (Unit {0})
  set_priority priority b = OutStream.set_priority E b.os priority

  unfoldable pub shutdown : Pointer → BufferedOutStream → M BufferedOutStream
  shutdown handler b =
      if b.ready
      then (do OutStream.shutdown E b.os handler; pure (record b { shutdown_request = handler }))
      else pure (record b { shutdown_request = handler })

  -- free(NULL) and clearing the sizes of no buffer change nothing: they are 0 already.
  abbrev pub freed_buf : BufferedOutStream → BufferedOutStream
  freed_buf b = elim b.buf [
    | none ↦ record b { ready = false }
    | some bytes ↦ record b { ready = false; buf = none; buf_size = 0; buf_alloc = 0 }
  ]

  unfoldable pub reset : BufferedOutStream → M BufferedOutStream
  reset b = do OutStream.reset E b.os; pure (freed_buf b)

  -- ~BufferedOutStream(), which ends with the destructor of `os`
  unfoldable pub destroy : BufferedOutStream → M (Unit {0})
  unfolding reset
  destroy b = do b1 ← reset b; (class_of out_stream).destruct b1.os

  unfoldable pub on_ready : BufferedOutStream → M BufferedOutStream
  on_ready b =
      if ltb 0 b.buf_size
      then (do
        bytes ← read_block b.buf b.buf_size
        OutStream.write E b.os bytes self
        pure (record b { buf_size = 0 }))
      else if b.shutdown_request == 0
      then pure (record b { ready = true })
      else (do OutStream.shutdown E b.os b.shutdown_request; pure b)

-- onReset
unfoldable pub on_reset : Handler → BufferedOutStream → M (Unit {0})
on_reset handler b = handler.on_reset b.handler
