-- ===== src/Cusp/OutStream.antt =====
-- cusp.cpp: OutStream. A priority is the bit pattern of a 32-bit float.
use gocusp.Base.{Bool, false, not, suc, zero, ℕ, ◌%◌, ◌&&◌, ◌/◌, ◌==◌, ◌^◌}
use gocusp.Cusp.EndPoint.{assert_nonneg, assert_pointer}
use gocusp.Cusp.Ref.{Ref, assert_call_true, assert_handle}
use gocusp.Ml.{negsuc, pos, ℤ}
use gocusp.Runtime.Engine.{Bytes, Counter, Engine, Pointer}
use gocusp.Runtime.Exports.Streams.{
  cusp_outstream_counter, cusp_outstream_get_priority, cusp_outstream_reset,
  cusp_outstream_set_priority, cusp_outstream_shutdown, cusp_outstream_write,
}
use gocusp.Runtime.Handles.{out_stream}
use gocusp.Runtime.World.{M, check, pure, ◌>>=◌, ◌>>◌}

pub record WriteHandler : Type 0 where
  pub on_ready : Pointer → M (Unit {0})
  pub on_reset : Pointer → M (Unit {0})

pub record ShutdownHandler : Type 0 where
  pub on_shutdown : Pointer → Bool → M (Unit {0})

-- `priority == priority` is false for a NaN alone: all exponent bits set, and a mantissa bit.
unfoldable pub is_nan : ℕ → Bool
is_nan x = (x / 2 ^ 23 % 2 ^ 8 == 255) && not (x % 2 ^ 23 == 0)

module _ (E : Engine) where
  unfoldable pub get_priority : Ref out_stream → M ℕ
  unfolding is_nan
  get_priority s = do
    assert_handle s.handle
    priority ← cusp_outstream_get_priority E s.handle
    check (not (is_nan priority))
    pure priority

  unfoldable pub set_priority : Ref out_stream → ℕ → M (Unit {0})
  set_priority s priority = do
    assert_handle s.handle
    assert_call_true (cusp_outstream_set_priority E s.handle priority)

  unfoldable pub write : Ref out_stream → Bytes → Pointer → M (Unit {0})
  write s bytes handler = do
    assert_handle s.handle
    assert_pointer handler
    assert_call_true (cusp_outstream_write E s.handle bytes handler)

  unfoldable pub shutdown : Ref out_stream → Pointer → M (Unit {0})
  shutdown s handler = do
    assert_handle s.handle
    assert_pointer handler
    assert_call_true (cusp_outstream_shutdown E s.handle handler)

  unfoldable pub reset : Ref out_stream → M (Unit {0})
  reset s = do assert_handle s.handle; assert_call_true (cusp_outstream_reset E s.handle)

  -- queuedInflight, queuedToRetransmit and bytesSent.
  unfoldable pub counter : Counter → Ref out_stream → M ℤ
  counter c s = do assert_handle s.handle; assert_nonneg (cusp_outstream_counter E c s.handle)

unfoldable pub write_callback : WriteHandler → ℤ → Pointer → M (Unit {0})
write_callback handler (pos zero) data' = do assert_pointer data'; handler.on_ready data'
write_callback handler (pos (suc n)) data' = do assert_pointer data'; check false
write_callback handler (negsuc zero) data' = do assert_pointer data'; handler.on_reset data'
write_callback handler (negsuc (suc n)) data' = do assert_pointer data'; check false

unfoldable pub shutdown_callback : ShutdownHandler → Bool → Pointer → M (Unit {0})
shutdown_callback handler success data' = do assert_pointer data'; handler.on_shutdown data' success
