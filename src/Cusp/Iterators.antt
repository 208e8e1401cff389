-- ===== src/Cusp/Iterators.antt =====
-- cusp.cpp: hasNext and next of the iterators.
use gocusp.Base.{Bool, Option, none, some}
use gocusp.Cusp.Classes.{address_class, host_class}
use gocusp.Cusp.Ref.{Ref, assert_handle, ref_or_invalid}
use gocusp.Ml.{ℤ}
use gocusp.Runtime.Exports.Iterators.{
  cusp_channel_iterator_has_next, cusp_channel_iterator_next, cusp_host_iterator_has_next,
  cusp_host_iterator_next, cusp_instream_iterator_has_next, cusp_instream_iterator_next,
  cusp_outstream_iterator_has_next, cusp_outstream_iterator_next,
}
use gocusp.Runtime.Handles.{
  address, channel_iterator, host, host_iterator, in_stream, in_stream_iterator, out_stream,
  out_stream_iterator,
}
use gocusp.Runtime.World.{M, pure, ◌>>=◌, ◌>>◌}

unfoldable pub host_iterator_has_next : Ref host_iterator → M Bool
host_iterator_has_next i = do assert_handle i.handle; cusp_host_iterator_has_next i.handle

unfoldable pub host_iterator_next : Ref host_iterator → M (Ref host)
host_iterator_next i = do
  assert_handle i.handle
  h ← cusp_host_iterator_next i.handle
  ref_or_invalid host h

unfoldable pub channel_iterator_has_next : Ref channel_iterator → M Bool
channel_iterator_has_next i = do assert_handle i.handle; cusp_channel_iterator_has_next i.handle

abbrev or_garbage : Option ℤ → ℤ → ℤ
or_garbage none g = g
or_garbage (some h) g = h

-- A channel: the address and the host.
pub record Channel : Type 0 where
  pub addr : Ref address
  pub h : Ref host

-- Channel(addr, host) of two objects that go out of scope then, the last one first: its fields are
-- copies.
abbrev channel_of : Ref address → Ref host → M Channel
channel_of a h = do
  addr ← address_class.copy a
  own ← host_class.copy h
  host_class.destruct h
  address_class.destruct a
  pure (record { addr = addr; h = own })

-- `Handle hHost;` has no initial value: `garbage` stands for what the variable holds when the call
-- does not write it.
unfoldable pub channel_iterator_next : ℤ → Ref channel_iterator → M Channel
channel_iterator_next garbage i = do
  assert_handle i.handle
  (addr_handle, written) ← cusp_channel_iterator_next i.handle
  a ← ref_or_invalid address addr_handle
  h ← ref_or_invalid host (or_garbage written garbage)
  channel_of a h

unfoldable pub in_stream_iterator_has_next : Ref in_stream_iterator → M Bool
in_stream_iterator_has_next i = do assert_handle i.handle; cusp_instream_iterator_has_next i.handle

unfoldable pub in_stream_iterator_next : Ref in_stream_iterator → M (Ref in_stream)
in_stream_iterator_next i = do
  assert_handle i.handle
  h ← cusp_instream_iterator_next i.handle
  ref_or_invalid in_stream h

unfoldable pub out_stream_iterator_has_next : Ref out_stream_iterator → M Bool
out_stream_iterator_has_next i = do
  assert_handle i.handle
  cusp_outstream_iterator_has_next i.handle

unfoldable pub out_stream_iterator_next : Ref out_stream_iterator → M (Ref out_stream)
out_stream_iterator_next i = do
  assert_handle i.handle
  h ← cusp_outstream_iterator_next i.handle
  ref_or_invalid out_stream h
