-- ===== src/Util/BufferedOutStream/Answers.antt =====
-- bufferedoutstream.cpp: onReady, in each of its branches.
use gocusp.Base.{
  Bool, append-nil, arith, false, leb, length, le→leb, ltb, refl, true, ℕ, ◌++◌, ◌==◌, ◌∙◌, ◌∷◌,
  ◌≡◌,
}
use gocusp.Runtime.Engine.{
  Bytes, Engine, Obj, Pointer, out_stream_ready, out_stream_shutdown, out_stream_write,
}
use gocusp.Runtime.World.{World}
use gocusp.Util.BufferedOutStream.{BufferedOutStream, on_ready}
use gocusp.Util.BufferedOutStream.Append.{unsent}
use gocusp.Util.BufferedOutStream.Steps.{Goes, Going, Phase}
use gocusp.Util.BufferedOutStream.Traffic.{AcceptsInTurn, is_shut, written}
use gocusp.Util.BufferedOutStream.Writes.{
  idle-ready, idle-write, shut-shutdown, shutdown-quiet, write-quiet, written-write,
}
use gocusp.Util.Memory.{block}

module _ (E : Engine) (self : Pointer) (s : Obj) (h : ℕ) (bound : (self == 0) ≡ false)
    (turn : AcceptsInTurn s E) (closing : Bool) (total : Bytes) (b : BufferedOutStream) (w : World)
    (g : Going h s closing total b w) where
  pub flushed :
      ltb 0 b.buf_size ≡ true
      → is_shut s w.log ≡ false
      → Phase closing (record b { buf_size = 0 }) false (is_shut s w.log)
      → (r : Goes h s closing total
          (on_ready E self b (record w { log = out_stream_ready s ∷ w.log })))
        × (r.buffered.buf_size ≡ 0)
  unfolding on_ready
  flushed some_left o phase =
      let w0 : World = record w { log = out_stream_ready s ∷ w.log } in
      let in_memory : leb b.buf_size (length (block b.buf)) ≡ true =
        le→leb b.buf_size (length (block b.buf))
          (omega (arith, g.sound.block_length, g.sound.fits)) in
      (
        record {
          buffered = record b { buf_size = 0 };
          after = record w0 { log = out_stream_write s (unsent b) self ∷ w0.log };
          returned =
              rw (some_left, in_memory)
                (rw
                  (write-quiet E self s h bound turn b w0 g.same_os g.live (idle-ready s w.log) o
                    (unsent b))
                  refl);
          going = record {
            same_os = g.same_os;
            live = g.live;
            sound = record { block_length = g.sound.block_length; fits = omega arith };
            delivered =
                rw (written-write s w0.log (unsent b) self)
                  (append-nil (written s w.log ++ unsent b) ∙ g.delivered);
            bounded = g.bounded;
            phase = rw (idle-write s w0.log (unsent b) self) phase;
          };
        },
        refl,
      )

  pub rested :
      ltb 0 b.buf_size ≡ false
      → (b.shutdown_request == 0) ≡ true
      → Phase closing (record b { ready = true }) true (is_shut s w.log)
      → Goes h s closing total (on_ready E self b (record w { log = out_stream_ready s ∷ w.log }))
  unfolding on_ready
  rested none_left no_request phase =
      let w0 : World = record w { log = out_stream_ready s ∷ w.log } in
      record {
        buffered = record b { ready = true };
        after = w0;
        returned = rw (none_left, no_request) refl;
        going = record {
          same_os = g.same_os;
          live = g.live;
          sound = record { block_length = g.sound.block_length; fits = g.sound.fits };
          delivered = g.delivered;
          bounded = g.bounded;
          phase = rw (idle-ready s w.log) phase;
        };
      }

  pub shut_down :
      ltb 0 b.buf_size ≡ false
      → (b.shutdown_request == 0) ≡ false
      → is_shut s w.log ≡ false
      → Phase closing b true true
      → (r : Goes h s closing total
          (on_ready E self b (record w { log = out_stream_ready s ∷ w.log })))
        × (is_shut s r.after.log ≡ true)
  unfolding on_ready
  shut_down none_left request o phase =
      let w0 : World = record w { log = out_stream_ready s ∷ w.log } in
      (
        record {
          buffered = b;
          after = record w0 { log = out_stream_shutdown s b.shutdown_request ∷ w0.log };
          returned =
              rw
                (
                  none_left,
                  request,
                  shutdown-quiet E self s h bound turn b w0 g.same_os g.live (idle-ready s w.log) o
                      b.shutdown_request request,
                )
                refl;
          going = record {
            same_os = g.same_os;
            live = g.live;
            sound = g.sound;
            delivered = g.delivered;
            bounded = g.bounded;
            phase = rw (idle-ready s w.log, shut-shutdown s w0.log b.shutdown_request) phase;
          };
        },
        shut-shutdown s w0.log b.shutdown_request,
      )
