-- ===== src/Runtime/Exports/EndPoint.antt =====
-- libcusp.sml: the main loop, EndPoint and Address.
use gocusp.Base.{Bool, Option, [], false, if◌then◌else◌, none, some, sym, true, ℕ, ◌∷◌}
use gocusp.Ml.{minus_one, minus_two, ℤ}
use gocusp.Runtime.Engine.{
  Bytes, Call, Counter, Engine, Obj, Pointer, ServiceId, address_from_string, address_to_string,
  bytes_received, bytes_sent, end_point_advertise, end_point_channels, end_point_contact,
  end_point_counter, end_point_destroy, end_point_hosts, end_point_key, end_point_new,
  end_point_set_rate, end_point_unadvertise, end_point_when_safe_to_destroy, main_is_running,
  main_poll, main_run, main_run_sigint, main_stop, private_key_pubkey, public_key_to_string,
}
use gocusp.Runtime.Handles.{
  abortable, address, bucket_alloc, channel_iterator, end_point, host_iterator, private_key,
  with_object,
}
use gocusp.Runtime.World.{M, perform, perform_unit, pure, returns, ◌>>=◌, ◌>>◌}

module _ (E : Engine) where
  unfoldable pub cusp_main : M (Unit {0})
  cusp_main = perform_unit E main_run

  unfoldable pub cusp_main_sigint : M (Unit {0})
  cusp_main_sigint = perform_unit E main_run_sigint

  unfoldable pub cusp_main_running : M Bool
  cusp_main_running = perform E E.flag main_is_running

  unfoldable pub cusp_stop_main : M (Unit {0})
  cusp_stop_main = perform_unit E main_stop

  unfoldable pub cusp_process_events : M (Unit {0})
  cusp_process_events = perform_unit E main_poll

  -- `EndPoint.new ... handle _ => ~2`
  abbrev new_end_point : Call → M ℤ
  new_end_point c w =
      if E.raises w.log c
      then returns minus_two (record w { log = c ∷ w.log })
      else (do e ← perform E E.object c; bucket_alloc end_point e) w

  unfoldable pub cusp_endpoint_new : ℤ → ℤ → Bool → ℕ → ℕ → M ℤ
  cusp_endpoint_new port key encrypt pk sym =
      with_object private_key key (λ k. new_end_point (end_point_new port k encrypt pk sym))
        minus_one

  unfoldable pub cusp_endpoint_destroy : ℤ → M Bool
  cusp_endpoint_destroy h =
      with_object end_point h (λ e. do perform_unit E (end_point_destroy e); pure true) false

  unfoldable pub cusp_endpoint_when_safe_to_destroy : ℤ → Pointer → M ℤ
  cusp_endpoint_when_safe_to_destroy h data' =
      with_object end_point h
        (λ e. do
          unhook ← perform E E.object (end_point_when_safe_to_destroy e data')
          bucket_alloc abortable unhook)
        minus_one

  unfoldable pub cusp_endpoint_set_rate : ℤ → ℤ → M Bool
  cusp_endpoint_set_rate h rate =
      with_object end_point h (λ e. do perform_unit E (end_point_set_rate e rate); pure true) false

  unfoldable pub cusp_endpoint_key : ℤ → M ℤ
  cusp_endpoint_key h =
      with_object end_point h
        (λ e. do key ← perform E E.object (end_point_key e); bucket_alloc private_key key) minus_one

  unfoldable pub cusp_endpoint_publickey_str : ℤ → ℕ → M Bytes
  cusp_endpoint_publickey_str h suite =
      with_object end_point h
        (λ e. do
          key ← perform E E.object (end_point_key e)
          pk ← perform E E.object (private_key_pubkey key suite)
          perform E E.text (public_key_to_string pk))
        []

  unfoldable pub cusp_endpoint_counter : Counter → ℤ → M ℤ
  cusp_endpoint_counter c h =
      with_object end_point h (λ e. perform E E.number (end_point_counter c e)) minus_one

  unfoldable pub cusp_endpoint_bytes_sent : ℤ → M ℤ
  unfolding cusp_endpoint_counter
  cusp_endpoint_bytes_sent = cusp_endpoint_counter bytes_sent

  unfoldable pub cusp_endpoint_bytes_received : ℤ → M ℤ
  unfolding cusp_endpoint_counter
  cusp_endpoint_bytes_received = cusp_endpoint_counter bytes_received

  unfoldable pub cusp_endpoint_contact : ℤ → ℤ → ServiceId → Pointer → M ℤ
  cusp_endpoint_contact h addr service data' =
      with_object end_point h
        (λ e.
          with_object address addr
            (λ a. do
              unhook ← perform E E.object (end_point_contact e a service data')
              bucket_alloc abortable unhook)
            minus_one)
        minus_one

  unfoldable pub cusp_endpoint_hosts : ℤ → M ℤ
  cusp_endpoint_hosts h =
      with_object end_point h
        (λ e. do hosts ← perform E E.objects (end_point_hosts e); bucket_alloc host_iterator hosts)
        minus_one

  unfoldable pub cusp_endpoint_channels : ℤ → M ℤ
  cusp_endpoint_channels h =
      with_object end_point h
        (λ e. do
          channels ← perform E E.channels (end_point_channels e)
          bucket_alloc channel_iterator channels)
        minus_one

  unfoldable pub cusp_endpoint_advertise : ℤ → ServiceId → Pointer → M Bool
  cusp_endpoint_advertise h service data' =
      with_object end_point h
        (λ e. do perform_unit E (end_point_advertise e service data'); pure true) false

  unfoldable pub cusp_endpoint_unadvertise : ℤ → ServiceId → M Bool
  cusp_endpoint_unadvertise h service =
      with_object end_point h (λ e. do perform_unit E (end_point_unadvertise e service); pure true)
        false

  abbrev alloc_some : (Obj → M ℤ) → Option Obj → ℤ → M ℤ
  alloc_some f none y = pure y
  alloc_some f (some x) y = f x

  unfoldable pub cusp_address_from_string : Bytes → M ℤ
  cusp_address_from_string str = do
    found ← perform E E.maybe_object (address_from_string str)
    alloc_some (bucket_alloc address) found minus_two

  unfoldable pub cusp_address_to_string : ℤ → M Bytes
  cusp_address_to_string h = with_object address h (λ a. perform E E.text (address_to_string a)) []
