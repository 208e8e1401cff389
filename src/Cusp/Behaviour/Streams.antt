-- ===== src/Cusp/Behaviour/Streams.antt =====
-- cusp.cpp and libcusp.sml: the operations of InStream and OutStream on handles in use.
use gocusp.Cusp.InStream
use gocusp.Cusp.OutStream
use gocusp.Base.{arith, false, if◌then◌else◌, refl, some, true, ℕ, ◌==◌, ◌∷◌, ◌≡◌}
use gocusp.Cusp.Lifecycle.{bucket_sub-returns, object_at}
use gocusp.Cusp.Ref.{assert_call_true, ref}
use gocusp.Ml.{pos, ℤ}
use gocusp.Runtime.Engine.{
  Bytes, Call, Engine, in_stream_read, in_stream_reset, out_stream_reset, out_stream_shutdown,
  out_stream_write,
}
use gocusp.Runtime.Exports.Streams.{
  cusp_instream_read, cusp_instream_reset, cusp_outstream_reset, cusp_outstream_shutdown,
  cusp_outstream_write,
}
use gocusp.Runtime.Handles.{Kind, Value, in_stream, out_stream, with_object}
use gocusp.Runtime.World.{M, Run, World, engine_exception, perform_unit, pure, returns, stops, ◌>>◌}

-- What an engine call without a result does to the world.
abbrev pub engine_step : Engine → Call → World → Run (Unit {0})
engine_step E c w =
    if E.raises w.log c then stops engine_exception else returns tt (record w { log = c ∷ w.log })

pub engine_step-quiet :
    (E : Engine) (c : Call) (w : World)
    → E.raises w.log c ≡ false
    → engine_step E c w ≡ returns tt (record w { log = c ∷ w.log })
engine_step-quiet E c w quiet = rw quiet refl

pub with_object-live :
    {A : Type 0} (k : Kind) (w : World) (h : ℕ) (x : Value k) (f : Value k → M A) (y : A)
    → object_at k w h ≡ some x
    → with_object k (pos h) f y w ≡ f x w
with_object-live k w h x f y e = rw (bucket_sub-returns k w h x e)

-- ASSERT_CALL_TRUE of an exported function that makes one engine call and returns true.
asserted-step :
    (E : Engine) (c : Call) (w : World)
    → assert_call_true (do perform_unit E c; pure true) w ≡ engine_step E c w
asserted-step E c w = ground arith

module _ (E : Engine) (w : World) (h s p : ℕ) (bound : (p == 0) ≡ false) where
  pub write-live :
      (bytes : Bytes)
      → object_at out_stream w h ≡ some s
      → OutStream.write E (ref out_stream (pos h)) bytes p w
        ≡ engine_step E (out_stream_write s bytes p) w
  unfolding OutStream.write cusp_outstream_write
  write-live bytes e =
      rw (bound, bucket_sub-returns out_stream w h s e)
        (asserted-step E (out_stream_write s bytes p) w)

  pub shutdown-live :
      object_at out_stream w h ≡ some s
      → OutStream.shutdown E (ref out_stream (pos h)) p w
        ≡ engine_step E (out_stream_shutdown s p) w
  unfolding OutStream.shutdown cusp_outstream_shutdown
  shutdown-live e =
      rw (bound, bucket_sub-returns out_stream w h s e)
        (asserted-step E (out_stream_shutdown s p) w)

  pub read-live :
      (max_count : ℤ)
      → object_at in_stream w h ≡ some s
      → InStream.read E (ref in_stream (pos h)) p max_count w
        ≡ engine_step E (in_stream_read s max_count p) w
  unfolding InStream.read cusp_instream_read
  read-live max_count e =
      rw (bound, bucket_sub-returns in_stream w h s e)
        (asserted-step E (in_stream_read s max_count p) w)

module _ (E : Engine) (w : World) (h s : ℕ) where
  pub out_reset-live :
      object_at out_stream w h ≡ some s
      → OutStream.reset E (ref out_stream (pos h)) w ≡ engine_step E (out_stream_reset s) w
  unfolding OutStream.reset cusp_outstream_reset
  out_reset-live e =
      rw (bucket_sub-returns out_stream w h s e) (asserted-step E (out_stream_reset s) w)

  pub in_reset-live :
      object_at in_stream w h ≡ some s
      → InStream.reset E (ref in_stream (pos h)) w ≡ engine_step E (in_stream_reset s) w
  unfolding InStream.reset cusp_instream_reset
  in_reset-live e =
      rw (bucket_sub-returns in_stream w h s e) (asserted-step E (in_stream_reset s) w)
