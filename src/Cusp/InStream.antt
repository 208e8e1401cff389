-- ===== src/Cusp/InStream.antt =====
-- cusp.cpp: InStream.
use gocusp.Base.{Bool, drop, false, suc, take, zero, ℕ}
use gocusp.Cusp.EndPoint.{assert_nonneg, assert_pointer}
use gocusp.Cusp.Ref.{Ref, assert_call_true, assert_handle}
use gocusp.Ml.{negsuc, pos, ℤ}
use gocusp.Runtime.Engine.{Bytes, Counter, Engine, Pointer}
use gocusp.Runtime.Exports.Streams.{cusp_instream_counter, cusp_instream_read, cusp_instream_reset}
use gocusp.Runtime.Handles.{in_stream}
use gocusp.Runtime.World.{M, check, ◌>>◌}

pub record ReadHandler : Type 0 where
  pub on_receive : Pointer → Bytes → M (Unit {0})
  pub on_shutdown : Pointer → M (Unit {0})
  pub on_reset : Pointer → M (Unit {0})

module _ (E : Engine) where
  unfoldable pub read : Ref in_stream → Pointer → ℤ → M (Unit {0})
  read s handler max_count = do
    assert_handle s.handle
    assert_pointer handler
    assert_call_true (cusp_instream_read E s.handle max_count handler)

  unfoldable pub reset : Ref in_stream → M (Unit {0})
  reset s = do assert_handle s.handle; assert_call_true (cusp_instream_reset E s.handle)

  -- queuedOutOfOrder, queuedUnread and bytesReceived.
  unfoldable pub counter : Counter → Ref in_stream → M ℤ
  counter c s = do assert_handle s.handle; assert_nonneg (cusp_instream_counter E c s.handle)

-- `data'` is the array that the SML side passes, from its start; `malloc_ok n` tells whether a block
-- of n bytes can be had, which with n = 0 may be a null pointer.
unfoldable pub read_callback :
    (malloc_ok : ℕ → Bool) → ReadHandler → ℤ → ℕ → Bytes → Pointer → M (Unit {0})
read_callback malloc_ok handler (pos count) ofs bytes user_data = do
  assert_pointer user_data
  check (malloc_ok count)
  handler.on_receive user_data (take count (drop ofs bytes))
read_callback malloc_ok handler (negsuc zero) ofs bytes user_data = do
  assert_pointer user_data
  handler.on_reset user_data
read_callback malloc_ok handler (negsuc (suc zero)) ofs bytes user_data = do
  assert_pointer user_data
  handler.on_shutdown user_data
read_callback malloc_ok handler (negsuc (suc (suc n))) ofs bytes user_data = do
  assert_pointer user_data
  check false
