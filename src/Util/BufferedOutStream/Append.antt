-- ===== src/Util/BufferedOutStream/Append.antt =====
-- bufferedoutstream.cpp: allocBuf and appendBuf, and the memory behind the buffer.
use Prim.Native.Nat.{max}
use gocusp.Base.{
  Bool-cases, Option, [], ap, arith, drop, if◌then◌else◌, inl, inr, length, length-append,
  length-tabulate, le→leb, ltb, ltb→lt, lt→ltb, refl, some, suc, tabulate, take, take-append_left,
  take_all, true, zero, ℕ, ◌++◌, ◌+◌, ◌-◌, ◌<◌, ◌^◌, ◌∙◌, ◌∷◌, ◌≡◌, ◌≤◌,
}
use gocusp.Runtime.Engine.{Bytes}
use gocusp.Runtime.World.{Run, World, returns, start}
use gocusp.Util.BufferedOutStream.{
  BufferedOutStream, alloc_buf, append_buf, buf_min_alloc, doubled, size_t,
}
use gocusp.Util.Memory.{Allocator, block, memcpy}

-- What the buffer still has to send.
abbrev pub unsent : BufferedOutStream → Bytes
unsent b = take b.buf_size (block b.buf)

-- The buffer's memory holds its content.
pub record IsSound (b : BufferedOutStream) : Type 0 where
  pub block_length : length (block b.buf) ≡ b.buf_alloc
  pub fits : b.buf_size ≤ b.buf_alloc

-- With room for it, `bytes` was appended: only the buffer changed.
pub record Appended (bytes : Bytes) (b : BufferedOutStream) (w : World)
    (run : Run BufferedOutStream) : Type 0 where
  pub content : Option Bytes
  pub size : ℕ
  pub alloc : ℕ
  pub returned : run ≡ returns (record b { buf = content; buf_size = size; buf_alloc = alloc }) w
  pub sound : IsSound (record b { buf = content; buf_size = size; buf_alloc = alloc })
  pub sized : size ≡ b.buf_size + length bytes
  pub joined : take size (block content) ≡ unsent b ++ bytes
  pub enough : alloc ≤ max b.buf_alloc (max buf_min_alloc size)

pub length-take : (n : ℕ) (xs : Bytes) → n ≤ length xs → length (take n xs) ≡ n
length-take zero xs h = refl
length-take (suc n) [] h = absurd (omega arith)
length-take (suc n) (x ∷ xs) h = ap suc (length-take n xs (omega arith))

take-front : (xs ys : Bytes) → take (length xs) (xs ++ ys) ≡ xs
take-front [] ys = refl
take-front (x ∷ xs) ys = ap (◌∷◌ x) (take-front xs ys)

length-drop : (n : ℕ) (xs : Bytes) → length (drop n xs) ≡ length xs - n
length-drop zero xs = omega arith
length-drop (suc n) [] = omega arith
length-drop (suc n) (x ∷ xs) = omega (arith, length-drop n xs)

-- The loop of allocBuf never runs, since it starts at no less than `size`.
doubled_enough : (fuel size n : ℕ) → size ≤ n → doubled fuel size n ≡ n
unfolding doubled
doubled_enough zero size n h = refl
doubled_enough (suc fuel) size n h = ground (arith)

size_t-small : (n : ℕ) → n < 2 ^ 64 → size_t n ≡ n
size_t-small n h = omega arith

copied :
    (p : Option Bytes) (n : ℕ) (bytes : Bytes) (w : World)
    → n + length bytes ≤ length (block p)
    → memcpy p n bytes w
      ≡ returns (some (take n (block p) ++ bytes ++ drop (n + length bytes) (block p))) w
copied p n bytes w h = rw (le→leb (n + length bytes) (length (block p)) h) refl

-- After allocBuf the memory has room for `size` bytes and starts with what it held.
record Resized (A : Allocator) (size : ℕ) (b : BufferedOutStream) (w : World) : Type 0 where
  pub content : Option Bytes
  pub alloc : ℕ
  pub returned : alloc_buf A size b w ≡ returns (record b { buf = content; buf_alloc = alloc }) w
  pub block_length : length (block content) ≡ alloc
  pub room : size ≤ alloc
  pub kept : take b.buf_size (block content) ≡ unsent b
  pub enough : alloc ≤ max b.buf_alloc (max buf_min_alloc size)

module _ (A : Allocator) (size : ℕ) (b : BufferedOutStream) (w : World) (sound : IsSound b) where
  grown_to :
      (n : ℕ)
      → (if ltb size buf_min_alloc then buf_min_alloc else size) ≡ n
      → size ≤ n
      → n ≤ max buf_min_alloc size
      → b.buf_alloc < size
      → A.has_room n ≡ true
      → Resized A size b w
  unfolding alloc_buf
  grown_to n start size-n n-max small room =
      let old = block b.buf in
      let tail = tabulate (n - length old) A.junk in
      let whole : take n old ≡ old = take_all n old (omega (arith, sound.block_length)) in
      record {
        content = some (take n old ++ tail);
        alloc = n;
        returned =
            rw (lt→ltb b.buf_alloc size small, start, doubled_enough 64 size n size-n, room) refl;
        block_length = rw whole (
            length-append old tail
            ∙ omega (arith, sound.block_length, length-tabulate (n - length old) A.junk));
        room = size-n;
        kept =
            rw whole (
              take-append_left b.buf_size old tail (omega (arith, sound.block_length, sound.fits)));
        enough = omega arith;
      }

  alloc_buf-Resized : A.has_room (max buf_min_alloc size) ≡ true → Resized A size b w
  unfolding alloc_buf
  alloc_buf-Resized room = elim (Bool-cases (ltb b.buf_alloc size)) [
    | inl small ↦
        grown_to (max buf_min_alloc size) (ground arith) (omega arith) (omega arith)
          (ltb→lt b.buf_alloc size small) room
    | inr large ↦ record {
      content = b.buf;
      alloc = b.buf_alloc;
      returned = rw large refl;
      block_length = sound.block_length;
      room = ground arith;
      kept = refl;
      enough = omega arith;
    }
  ]

-- A slice that starts where the kept part ends.
take-joined :
    (n : ℕ) (old bytes rest : Bytes)
    → n ≤ length old
    → take (n + length bytes) (take n old ++ bytes ++ rest) ≡ take n old ++ bytes
take-joined n old bytes rest h =
    let xs = take n old ++ bytes in
    let same : n + length bytes ≡ length xs =
      omega (arith, length-append (take n old) bytes, length-take n old h) in
    rw same (take-front xs rest)

length-joined :
    (n : ℕ) (old bytes : Bytes)
    → n + length bytes ≤ length old
    → length (take n old ++ bytes ++ drop (n + length bytes) old) ≡ length old
length-joined n old bytes h =
    let xs = take n old ++ bytes in
    let rest = drop (n + length bytes) old in
    omega (
      arith,
      length-append xs rest,
      length-append (take n old) bytes,
      length-take n old,
      length-drop (n + length bytes) old,
    )

-- With room for it, `bytes` is appended to what the buffer has to send, within the buffer's memory.
pub append_buf-Appended :
    (A : Allocator) (bytes : Bytes) (b : BufferedOutStream) (w : World)
    → IsSound b
    → b.buf_size + length bytes < 2 ^ 64
    → A.has_room (max buf_min_alloc (b.buf_size + length bytes)) ≡ true
    → Appended bytes b w (append_buf A bytes b w)
unfolding append_buf
append_buf-Appended A bytes b w sound small room =
    let size = b.buf_size + length bytes in
    let r = alloc_buf-Resized A size b w sound room in
    let inside : size ≤ length (block r.content) = omega (arith, r.block_length, r.room) in
    record {
      content = some (take b.buf_size (block r.content) ++ bytes ++ drop size (block r.content));
      size = size;
      alloc = r.alloc;
      returned =
          rw (size_t-small size small, r.returned)
            (rw (copied r.content b.buf_size bytes w inside) refl);
      sound = record {
        block_length = length-joined b.buf_size (block r.content) bytes inside ∙ r.block_length;
        fits = r.room;
      };
      sized = refl;
      joined =
          take-joined b.buf_size (block r.content) bytes (drop size (block r.content)) (omega arith)
          ∙ ap (λ xs. xs ++ bytes) r.kept;
      enough = r.enough;
    }
