-- ===== src/Cusp/Host.antt =====
-- cusp.cpp: Host.
use gocusp.Base.{not, ◌==◌}
use gocusp.Cusp.Classes.{in_stream_class}
use gocusp.Cusp.EndPoint.{assert_nonneg, assert_pointer}
use gocusp.Cusp.Ref.{Ref, assert_call_true, assert_handle, ref_of}
use gocusp.Ml.{ℤ}
use gocusp.Runtime.Engine.{Bytes, Counter, Engine, Pointer, ServiceId}
use gocusp.Runtime.Exports.Host.{
  cusp_host_address, cusp_host_connect, cusp_host_counter, cusp_host_instreams, cusp_host_key_str,
  cusp_host_listen, cusp_host_outstreams, cusp_host_to_string, cusp_host_unlisten,
}
use gocusp.Runtime.Handles.{
  address, host, in_stream, in_stream_iterator, out_stream, out_stream_iterator, public_key,
}
use gocusp.Runtime.World.{M, check, pure, ◌>>=◌, ◌>>◌}

pub record ListenHandler : Type 0 where
  pub on_connect : Pointer → ServiceId → Ref in_stream → M (Unit {0})

module _ (E : Engine) where
  unfoldable pub connect : Ref host → ServiceId → M (Ref out_stream)
  connect h service = do
    assert_handle h.handle
    ref_of out_stream (cusp_host_connect E h.handle service)

  unfoldable pub listen : Ref host → Pointer → M ServiceId
  listen h handler = do
    assert_handle h.handle
    assert_pointer handler
    service ← cusp_host_listen E h.handle handler
    check (not (service == 0))
    pure service

  unfoldable pub unlisten : Ref host → ServiceId → M (Unit {0})
  unlisten h service = do
    assert_handle h.handle
    assert_call_true (cusp_host_unlisten E h.handle service)

  -- The call is that of `address`, as in the source.
  unfoldable pub key : Ref host → M (Ref public_key)
  key h = do assert_handle h.handle; ref_of public_key (cusp_host_address E h.handle)

  unfoldable pub key_str : Ref host → M Bytes
  key_str h = do assert_handle h.handle; cusp_host_key_str E h.handle

  unfoldable pub address_of : Ref host → M (Ref address)
  address_of h = do assert_handle h.handle; ref_of address (cusp_host_address E h.handle)

  unfoldable pub to_string : Ref host → M Bytes
  to_string h = do assert_handle h.handle; cusp_host_to_string E h.handle

  unfoldable pub in_streams : Ref host → M (Ref in_stream_iterator)
  in_streams h = do
    assert_handle h.handle
    ref_of in_stream_iterator (cusp_host_instreams E h.handle)

  unfoldable pub out_streams : Ref host → M (Ref out_stream_iterator)
  out_streams h = do
    assert_handle h.handle
    ref_of out_stream_iterator (cusp_host_outstreams E h.handle)

  -- The eight counters of a host: queuedOutOfOrder to lastSend.
  unfoldable pub counter : Counter → Ref host → M ℤ
  counter c h = do assert_handle h.handle; assert_nonneg (cusp_host_counter E c h.handle)

unfoldable pub listen_callback : ListenHandler → ServiceId → ℤ → Pointer → M (Unit {0})
listen_callback handler service instream_handle data' = do
  assert_pointer data'
  is ← in_stream_class.of_handle instream_handle
  handler.on_connect data' service is
  in_stream_class.destruct is
