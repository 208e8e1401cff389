-- ===== src/Runtime/Exports/Host.antt =====
-- libcusp.sml: Host.
use gocusp.Base.{Bool, Option, [], false, none, some, true, ◌++◌, ◌∷◌}
use gocusp.Ml.{minus_one, ℤ}
use gocusp.Runtime.Engine.{
  Bytes, Counter, Engine, Obj, Pointer, ServiceId, address_to_string, host_address, host_connect,
  host_counter, host_in_streams, host_key, host_listen, host_out_streams, host_unlisten,
  public_key_to_string,
}
use gocusp.Runtime.Handles.{
  address, bucket_alloc, host, in_stream_iterator, out_stream, out_stream_iterator, public_key,
  with_object,
}
use gocusp.Runtime.World.{M, perform, perform_unit, pure, ◌>>=◌, ◌>>◌}

module _ (E : Engine) where
  unfoldable pub cusp_host_connect : ℤ → ServiceId → M ℤ
  cusp_host_connect h service =
      with_object host h
        (λ x. do os ← perform E E.object (host_connect x service); bucket_alloc out_stream os)
        minus_one

  unfoldable pub cusp_host_listen : ℤ → Pointer → M ServiceId
  cusp_host_listen h data' = with_object host h (λ x. perform E E.word (host_listen x data')) 0

  unfoldable pub cusp_host_unlisten : ℤ → ServiceId → M Bool
  cusp_host_unlisten h service =
      with_object host h (λ x. do perform_unit E (host_unlisten x service); pure true) false

  unfoldable pub cusp_host_key : ℤ → M ℤ
  cusp_host_key h =
      with_object host h
        (λ x. do key ← perform E E.object (host_key x); bucket_alloc public_key key) minus_one

  unfoldable pub cusp_host_key_str : ℤ → M Bytes
  cusp_host_key_str h =
      with_object host h
        (λ x. do key ← perform E E.object (host_key x); perform E E.text (public_key_to_string key))
        []

  abbrev address_handle : Option Obj → M ℤ
  address_handle none = pure minus_one
  address_handle (some a) = bucket_alloc address a

  unfoldable pub cusp_host_address : ℤ → M ℤ
  cusp_host_address h =
      with_object host h (λ x. do a ← perform E E.maybe_object (host_address x); address_handle a)
        minus_one

  -- getOpt (Option.map Address.toString addr, "*")
  abbrev pub address_text : Option Obj → M Bytes
  address_text none = pure (b'*' ∷ [])
  address_text (some a) = perform E E.text (address_to_string a)

  unfoldable pub cusp_host_to_string : ℤ → M Bytes
  cusp_host_to_string h =
      with_object host h
        (λ x. do
          addr ← perform E E.maybe_object (host_address x)
          key ← perform E E.object (host_key x)
          key_text ← perform E E.text (public_key_to_string key)
          addr_text ← address_text addr
          pure (key_text ++ (b' ' ∷ b'<' ∷ []) ++ addr_text ++ (b'>' ∷ [])))
        []

  unfoldable pub cusp_host_instreams : ℤ → M ℤ
  cusp_host_instreams h =
      with_object host h
        (λ x. do
          streams ← perform E E.objects (host_in_streams x)
          bucket_alloc in_stream_iterator streams)
        minus_one

  unfoldable pub cusp_host_outstreams : ℤ → M ℤ
  cusp_host_outstreams h =
      with_object host h
        (λ x. do
          streams ← perform E E.objects (host_out_streams x)
          bucket_alloc out_stream_iterator streams)
        minus_one

  -- The eight counters of a host: cusp_host_queued_out_of_order to cusp_host_last_send.
  unfoldable pub cusp_host_counter : Counter → ℤ → M ℤ
  cusp_host_counter c h = with_object host h (λ x. perform E E.number (host_counter c x)) minus_one
