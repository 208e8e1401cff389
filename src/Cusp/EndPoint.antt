-- ===== src/Cusp/EndPoint.antt =====
-- cusp.cpp: EndPoint. A method whose handle is not valid stops at its assertion.
use gocusp.Base.{Bool, if◌then◌else◌, not, ℕ, ◌==◌}
use gocusp.Cusp.Classes.{host_class, in_stream_class, out_stream_class, private_key_class}
use gocusp.Cusp.Ref.{Ref, assert_call_true, assert_handle, ref_of, ref_or_invalid}
use gocusp.Ml.{is_nonneg, ℤ}
use gocusp.Runtime.Engine.{Bytes, Engine, Pointer, ServiceId}
use gocusp.Runtime.Exports.EndPoint.{
  cusp_endpoint_advertise, cusp_endpoint_bytes_received, cusp_endpoint_bytes_sent,
  cusp_endpoint_channels, cusp_endpoint_contact, cusp_endpoint_destroy, cusp_endpoint_hosts,
  cusp_endpoint_key, cusp_endpoint_new, cusp_endpoint_publickey_str, cusp_endpoint_set_rate,
  cusp_endpoint_unadvertise, cusp_endpoint_when_safe_to_destroy,
}
use gocusp.Runtime.Handles.{
  abortable, address, channel_iterator, end_point, host, host_iterator, in_stream, out_stream,
  private_key,
}
use gocusp.Runtime.World.{M, check, pure, ◌>>=◌, ◌>>◌}

-- The handlers that the static callbacks call, found by the user data.
pub record SafeToDestroyHandler : Type 0 where
  pub on_safe_to_destroy : Pointer → M (Unit {0})

pub record ContactHandler : Type 0 where
  pub on_contact : Pointer → Ref host → Ref out_stream → M (Unit {0})
  pub on_contact_fail : Pointer → M (Unit {0})

pub record AdvertiseHandler : Type 0 where
  pub on_connect : Pointer → Ref host → Ref in_stream → M (Unit {0})

-- assert(p)
abbrev pub assert_pointer : Pointer → M (Unit {0})
assert_pointer p = check (not (p == 0))

-- int64_t b = ...; assert(b >= 0); return b;
abbrev pub assert_nonneg : M ℤ → M ℤ
assert_nonneg m = do b ← m; check (is_nonneg b); pure b

module _ (E : Engine) where
  -- The key is passed by value: a copy that goes out of scope at the end.
  unfoldable pub create : ℤ → Ref private_key → Bool → ℕ → ℕ → M (Ref end_point)
  create port key encrypt pk_suites sym_suites = do
    own ← private_key_class.copy key
    handle ← cusp_endpoint_new E port own.handle encrypt pk_suites sym_suites
    e ← ref_or_invalid end_point handle
    private_key_class.destruct own
    pure e

  unfoldable pub destroy : Ref end_point → M (Unit {0})
  destroy e = do assert_handle e.handle; assert_call_true (cusp_endpoint_destroy E e.handle)

  unfoldable pub when_safe_to_destroy : Ref end_point → Pointer → M (Ref abortable)
  when_safe_to_destroy e handler = do
    assert_handle e.handle
    assert_pointer handler
    ref_of abortable (cusp_endpoint_when_safe_to_destroy E e.handle handler)

  unfoldable pub set_rate : Ref end_point → ℤ → M (Unit {0})
  set_rate e rate = do
    assert_handle e.handle
    assert_call_true (cusp_endpoint_set_rate E e.handle rate)

  unfoldable pub key : Ref end_point → M (Ref private_key)
  key e = do assert_handle e.handle; ref_of private_key (cusp_endpoint_key E e.handle)

  unfoldable pub public_key_str : Ref end_point → ℕ → M Bytes
  public_key_str e suite = do assert_handle e.handle; cusp_endpoint_publickey_str E e.handle suite

  unfoldable pub bytes_sent : Ref end_point → M ℤ
  bytes_sent e = do assert_handle e.handle; assert_nonneg (cusp_endpoint_bytes_sent E e.handle)

  unfoldable pub bytes_received : Ref end_point → M ℤ
  bytes_received e = do
    assert_handle e.handle
    assert_nonneg (cusp_endpoint_bytes_received E e.handle)

  unfoldable pub contact : Ref end_point → Ref address → ServiceId → Pointer → M (Ref abortable)
  contact e addr service handler = do
    assert_handle e.handle
    assert_pointer handler
    ref_of abortable (cusp_endpoint_contact E e.handle addr.handle service handler)

  unfoldable pub hosts : Ref end_point → M (Ref host_iterator)
  hosts e = do assert_handle e.handle; ref_of host_iterator (cusp_endpoint_hosts E e.handle)

  unfoldable pub channels : Ref end_point → M (Ref channel_iterator)
  channels e = do
    assert_handle e.handle
    ref_of channel_iterator (cusp_endpoint_channels E e.handle)

  unfoldable pub advertise : Ref end_point → ServiceId → Pointer → M (Unit {0})
  advertise e service handler = do
    assert_handle e.handle
    assert_pointer handler
    assert_call_true (cusp_endpoint_advertise E e.handle service handler)

  unfoldable pub unadvertise : Ref end_point → ServiceId → M (Unit {0})
  unadvertise e service = do
    assert_handle e.handle
    assert_call_true (cusp_endpoint_unadvertise E e.handle service)

unfoldable pub safe_to_destroy_callback : SafeToDestroyHandler → Pointer → M (Unit {0})
safe_to_destroy_callback handler data' = do assert_pointer data'; handler.on_safe_to_destroy data'

-- The objects that a callback makes of its handles are destructed when it returns, the last one
-- first. No handler of the repository assigns to the references that it gets.
unfoldable pub contact_callback : ContactHandler → ℤ → ℤ → Pointer → M (Unit {0})
contact_callback handler host_handle os_handle data' = do
  assert_pointer data'
  if is_nonneg host_handle
      then (do
        h ← host_class.of_handle host_handle
        os ← out_stream_class.of_handle os_handle
        handler.on_contact data' h os
        out_stream_class.destruct os
        host_class.destruct h)
      else handler.on_contact_fail data'

unfoldable pub advertise_callback : AdvertiseHandler → ℤ → ℤ → Pointer → M (Unit {0})
advertise_callback handler host_handle stream_handle data' = do
  assert_pointer data'
  h ← host_class.of_handle host_handle
  stream ← in_stream_class.of_handle stream_handle
  handler.on_connect data' h stream
  in_stream_class.destruct stream
  host_class.destruct h
