-- ===== src/Runtime/Exports/Streams.antt =====
-- libcusp.sml: InStream and OutStream.
use gocusp.Base.{Bool, false, true, ℕ}
use gocusp.Ml.{minus_one, ℤ}
use gocusp.Runtime.Engine.{
  Bytes, Counter, Engine, Pointer, in_stream_counter, in_stream_read, in_stream_reset,
  out_stream_counter, out_stream_get_priority, out_stream_reset, out_stream_set_priority,
  out_stream_shutdown, out_stream_write,
}
use gocusp.Runtime.Handles.{in_stream, out_stream, with_object}
use gocusp.Runtime.World.{M, perform, perform_unit, pure, ◌>>◌}

module _ (E : Engine) where
  unfoldable pub cusp_instream_read : ℤ → ℤ → Pointer → M Bool
  cusp_instream_read h max_count data' =
      with_object in_stream h (λ s. do perform_unit E (in_stream_read s max_count data'); pure true)
        false

  unfoldable pub cusp_instream_reset : ℤ → M Bool
  cusp_instream_reset h =
      with_object in_stream h (λ s. do perform_unit E (in_stream_reset s); pure true) false

  -- cusp_instream_queued_out_of_order, _queued_unread and _bytes_received.
  unfoldable pub cusp_instream_counter : Counter → ℤ → M ℤ
  cusp_instream_counter c h =
      with_object in_stream h (λ s. perform E E.number (in_stream_counter c s)) minus_one

  -- The quiet NaN that 0.0/0.0 gives.
  abbrev pub nan : ℕ
  nan = 0x7fc0_0000

  unfoldable pub cusp_outstream_get_priority : ℤ → M ℕ
  cusp_outstream_get_priority h =
      with_object out_stream h (λ s. perform E E.word (out_stream_get_priority s)) nan

  unfoldable pub cusp_outstream_set_priority : ℤ → ℕ → M Bool
  cusp_outstream_set_priority h priority =
      with_object out_stream h
        (λ s. do perform_unit E (out_stream_set_priority s priority); pure true) false

  unfoldable pub cusp_outstream_write : ℤ → Bytes → Pointer → M Bool
  cusp_outstream_write h bytes data' =
      with_object out_stream h (λ s. do perform_unit E (out_stream_write s bytes data'); pure true)
        false

  unfoldable pub cusp_outstream_shutdown : ℤ → Pointer → M Bool
  cusp_outstream_shutdown h data' =
      with_object out_stream h (λ s. do perform_unit E (out_stream_shutdown s data'); pure true)
        false

  unfoldable pub cusp_outstream_reset : ℤ → M Bool
  cusp_outstream_reset h =
      with_object out_stream h (λ s. do perform_unit E (out_stream_reset s); pure true) false

  -- cusp_outstream_queued_inflight, _queued_to_retransmit and _bytes_sent.
  unfoldable pub cusp_outstream_counter : Counter → ℤ → M ℤ
  cusp_outstream_counter c h =
      with_object out_stream h (λ s. perform E E.number (out_stream_counter c s)) minus_one
