-- ===== src/Util/BufferedOutStream/Writes.antt =====
-- bufferedoutstream.cpp: `write` and `shutdown`, as the client calls them.
use gocusp.Cusp.OutStream
use gocusp.Util.BufferedOutStream
use Prim.Native.Nat.{max}
use gocusp.Base.{
  Bool, ap, append-nil, append_assoc, arith, false, length, length-append, refl, some, subst, sym,
  take, true, ℕ, ◌++◌, ◌+◌, ◌<◌, ◌==◌, ◌^◌, ◌∙◌, ◌∷◌, ◌≡◌, ◌≤◌,
}
use gocusp.Cusp.Behaviour.Streams.{engine_step-quiet, shutdown-live, write-live}
use gocusp.Cusp.Lifecycle.{==-refl, object_at}
use gocusp.Cusp.Ref.{ref}
use gocusp.Ml.{pos}
use gocusp.Runtime.Engine.{
  Bytes, Engine, Log, Obj, Pointer, out_stream_ready, out_stream_shutdown, out_stream_write,
}
use gocusp.Runtime.Handles.{out_stream}
use gocusp.Runtime.World.{World, returns}
use gocusp.Util.BufferedOutStream.{BufferedOutStream, append_buf, buf_min_alloc}
use gocusp.Util.BufferedOutStream.Append.{append_buf-Appended, length-take, unsent}
use gocusp.Util.BufferedOutStream.Steps.{Goes, Going, over, waiting, writing}
use gocusp.Util.BufferedOutStream.Traffic.{AcceptsInTurn, is_idle, is_shut, written}
use gocusp.Util.Memory.{Allocator, block}

module _ (s : Obj) (l : Log) where
  pub written-write :
      (bytes : Bytes) (p : Pointer)
      → written s (out_stream_write s bytes p ∷ l) ≡ written s l ++ bytes
  written-write bytes p = rw (==-refl s) refl

  pub idle-write :
      (bytes : Bytes) (p : Pointer) → is_idle s (out_stream_write s bytes p ∷ l) ≡ false
  idle-write bytes p = rw (==-refl s) refl

  pub idle-ready : is_idle s (out_stream_ready s ∷ l) ≡ true
  idle-ready = rw (==-refl s) refl

  pub shut-shutdown : (p : Pointer) → is_shut s (out_stream_shutdown s p ∷ l) ≡ true
  shut-shutdown p = rw (==-refl s) refl

  idle-shutdown : (p : Pointer) → is_idle s (out_stream_shutdown s p ∷ l) ≡ is_idle s l
  idle-shutdown p = refl

module _ {h : ℕ} {s : Obj} {closing : Bool} {total : Bytes} {b : BufferedOutStream} {w : World}
    (g : Going h s closing total b w) where
  pub all_written : b.buf_size ≡ 0 → written s w.log ≡ total
  all_written z =
      let e : written s w.log ++ take 0 (block b.buf) ≡ total =
        subst (λ n. written s w.log ++ take n (block b.buf) ≡ total) z g.delivered in
      sym (append-nil (written s w.log)) ∙ e

  pub length-unsent : length (unsent b) ≡ b.buf_size
  length-unsent =
      length-take b.buf_size (block b.buf) (omega (arith, g.sound.block_length, g.sound.fits))

  pub size_at_most : b.buf_size ≤ length total
  size_at_most =
      rw (sym g.delivered)
        (omega (arith, length-append (written s w.log) (unsent b), length-unsent))

module _ (E : Engine) (self : Pointer) (s : Obj) (h : ℕ) (bound : (self == 0) ≡ false)
    (turn : AcceptsInTurn s E) (b : BufferedOutStream) (w : World)
    (same_os : b.os ≡ ref out_stream (pos h)) (live : object_at out_stream w h ≡ some s)
    (idle : is_idle s w.log ≡ true) (open_yet : is_shut s w.log ≡ false) where
  pub write-quiet :
      (bytes : Bytes)
      → OutStream.write E b.os bytes self w
        ≡ returns tt (record w { log = out_stream_write s bytes self ∷ w.log })
  write-quiet bytes = rw (same_os) (
      write-live E w h s self bound bytes live
      ∙ engine_step-quiet E (out_stream_write s bytes self) w
          (turn.accepts_write w.log bytes self idle open_yet))

  pub shutdown-quiet :
      (p : Pointer)
      → (p == 0) ≡ false
      → OutStream.shutdown E b.os p w
        ≡ returns tt (record w { log = out_stream_shutdown s p ∷ w.log })
  shutdown-quiet p bound' = rw (same_os) (
      shutdown-live E w h s p bound' live
      ∙ engine_step-quiet E (out_stream_shutdown s p) w
          (turn.accepts_shutdown w.log p idle open_yet))

module _ (A : Allocator) (E : Engine) (self : Pointer) (s : Obj) (h limit : ℕ)
    (bound : (self == 0) ≡ false) (turn : AcceptsInTurn s E) (small : limit < 2 ^ 64)
    (room : (n : ℕ) → n ≤ limit → A.has_room n ≡ true) (least : buf_min_alloc ≤ limit) where
  module _ (total : Bytes) (b : BufferedOutStream) (w : World) where
    pub given_directly :
        (bytes : Bytes)
        → Going h s false total b w
        → b.ready ≡ true
        → b.buf_size ≡ 0
        → b.shutdown_request ≡ 0
        → is_idle s w.log ≡ true
        → is_shut s w.log ≡ false
        → Goes h s false (total ++ bytes) (BufferedOutStream.write A E self bytes b w)
    unfolding BufferedOutStream.write
    given_directly bytes g r z q i o =
        let w1 : World = record w { log = out_stream_write s bytes self ∷ w.log } in
        record {
          buffered = record b { ready = false };
          after = w1;
          returned = rw (r, write-quiet E self s h bound turn b w g.same_os g.live i o bytes) refl;
          going = record {
            same_os = g.same_os;
            live = g.live;
            sound = record { block_length = g.sound.block_length; fits = g.sound.fits };
            delivered =
                rw (written-write s w.log bytes self, z, all_written g z)
                  (append-nil (total ++ bytes));
            bounded = omega (arith, g.bounded, length-append total bytes);
            phase = writing refl q (idle-write s w.log bytes self) o;
          };
        }

    write_busy :
        (bytes : Bytes)
        → b.ready ≡ false
        → BufferedOutStream.write A E self bytes b w ≡ append_buf A bytes b w
    unfolding BufferedOutStream.write
    write_busy bytes r = rw r refl

    pub given_later :
        (bytes : Bytes)
        → Going h s false total b w
        → b.ready ≡ false
        → b.shutdown_request ≡ 0
        → is_idle s w.log ≡ false
        → is_shut s w.log ≡ false
        → length (total ++ bytes) ≤ limit
        → Goes h s false (total ++ bytes) (BufferedOutStream.write A E self bytes b w)
    given_later bytes g r q i o fits =
        let size_bytes : b.buf_size + length bytes ≤ length (total ++ bytes) =
          omega (arith, length-append total bytes, size_at_most g) in
        let a =
          append_buf-Appended A bytes b w g.sound (omega (arith, small))
            (room (max buf_min_alloc (b.buf_size + length bytes)) (omega (arith, least))) in
        record {
          buffered = record b { buf = a.content; buf_size = a.size; buf_alloc = a.alloc };
          after = w;
          returned = write_busy bytes r ∙ a.returned;
          going = record {
            same_os = g.same_os;
            live = g.live;
            sound = a.sound;
            delivered =
                ap (◌++◌ (written s w.log)) a.joined
                ∙ sym (append_assoc (written s w.log) (unsent b) bytes)
                ∙ ap (λ xs. xs ++ bytes) g.delivered;
            bounded =
                omega (arith, a.enough, a.sized, g.bounded, size_bytes, length-append total bytes);
            phase = writing r q i o;
          };
        }

    pub finished_now :
        (p : Pointer)
        → (p == 0) ≡ false
        → Going h s false total b w
        → b.ready ≡ true
        → b.buf_size ≡ 0
        → is_idle s w.log ≡ true
        → is_shut s w.log ≡ false
        → Goes h s true total (BufferedOutStream.shutdown E self p b w)
    unfolding BufferedOutStream.shutdown
    finished_now p bound' g r z i o = record {
      buffered = record b { shutdown_request = p };
      after = record w { log = out_stream_shutdown s p ∷ w.log };
      returned =
          rw (r, shutdown-quiet E self s h bound turn b w g.same_os g.live i o p bound') refl;
      going = record {
        same_os = g.same_os;
        live = g.live;
        sound = record { block_length = g.sound.block_length; fits = g.sound.fits };
        delivered = g.delivered;
        bounded = g.bounded;
        phase = over z i (shut-shutdown s w.log p);
      };
    }

    pub finished_later :
        (p : Pointer)
        → (p == 0) ≡ false
        → Going h s false total b w
        → b.ready ≡ false
        → is_idle s w.log ≡ false
        → is_shut s w.log ≡ false
        → Goes h s true total (BufferedOutStream.shutdown E self p b w)
    unfolding BufferedOutStream.shutdown
    finished_later p bound' g r i o = record {
      buffered = record b { shutdown_request = p };
      after = w;
      returned = rw r refl;
      going = record {
        same_os = g.same_os;
        live = g.live;
        sound = record { block_length = g.sound.block_length; fits = g.sound.fits };
        delivered = g.delivered;
        bounded = g.bounded;
        phase = waiting bound' i o;
      };
    }
