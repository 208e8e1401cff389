-- ===== src/Demo/Client.antt =====
-- cbindings/demo/client.cpp: a client that contacts a server, sends it a service to connect back to,
-- and then writes a text each second. What it prints is left out, the calls for the texts that it
-- prints are not. `self` is the address of the client.
pub mod Main
pub mod Lifetime
pub mod Hello
use gocusp.Cusp.Address
use gocusp.Cusp.EndPoint
use gocusp.Cusp.Event
use gocusp.Cusp.Host
use gocusp.Cusp.InStream
use gocusp.Cusp.Keys
use gocusp.Cusp.OutStream
use gocusp.Base.{Bool, [], if◌then◌else◌, suc, true, zero, ℕ, ◌+◌, ◌==◌, ◌∷◌}
use gocusp.Cusp.Classes.{class_of}
use gocusp.Cusp.Init.{cusp_main_is_running, cusp_main_stop}
use gocusp.Cusp.Iterators.{
  in_stream_iterator_has_next, in_stream_iterator_next, out_stream_iterator_has_next,
  out_stream_iterator_next,
}
use gocusp.Cusp.Ref.{Ref, ref}
use gocusp.Cusp.SuiteQueries.{public_key_set_defaults, symmetric_set_defaults}
use gocusp.Ml.{is_nonneg, minus_one, pos, ℤ}
use gocusp.Runtime.Engine.{Bytes, Engine, Pointer}
use gocusp.Runtime.Handles.{
  Kind, abortable, address, end_point, event, host, in_stream, in_stream_iterator, out_stream,
  out_stream_iterator, private_key,
}
use gocusp.Runtime.World.{M, check, pure, ◌>>=◌, ◌>>◌}
use gocusp.Util.BiDiConn.{service_bytes}

pub record Client : Type 0 where
  pub event : Ref event
  pub ep : Ref end_point
  pub host : Ref host
  pub is : Ref in_stream
  pub os : Ref out_stream

-- "some data"
abbrev pub some_data : Bytes
some_data = 115 ∷ 111 ∷ 109 ∷ 101 ∷ 32 ∷ 100 ∷ 97 ∷ 116 ∷ 97 ∷ []

-- TIME_SECOND
abbrev pub time_second : ℤ
time_second = pos 1000000000

-- x = X(), where X() goes out of scope then without a handle
abbrev pub cleared : (k : Kind) → Ref k → M (Ref k)
cleared k x = (class_of k).assign x (ref k minus_one)

module _ (E : Engine) (self : Pointer) where
  -- Client(localPort, hostname), after cuspInit()
  unfoldable pub construct : ℤ → Bytes → M Client
  construct local_port hostname = do
    created ← Event.create E self
    event_ ← (class_of event).assign (ref event minus_one) created
    (class_of event).destruct created
    key ← Keys.create E
    public_keys ← public_key_set_defaults E
    symmetric ← symmetric_set_defaults E
    made ← EndPoint.create E local_port key true public_keys symmetric
    (class_of private_key).destruct key
    ep ← (class_of end_point).assign (ref end_point minus_one) made
    (class_of end_point).destruct made
    addr ← Address.from_string E hostname
    Address.to_string E addr
    abortable_ ← EndPoint.contact E ep addr 23 self
    (class_of abortable).destruct abortable_
    (class_of address).destruct addr
    pure (record {
      event = event_;
      ep = ep;
      host = ref host minus_one;
      is = ref in_stream minus_one;
      os = ref out_stream minus_one;
    })

  -- if (is.isValid()) { is.reset(); is = InStream(); }
  unfoldable pub close_in : Ref in_stream → M (Ref in_stream)
  close_in is =
      if is_nonneg is.handle then (do InStream.reset E is; cleared in_stream is) else pure is

  unfoldable pub close_out : Ref out_stream → M (Ref out_stream)
  close_out os =
      if is_nonneg os.handle then (do OutStream.reset E os; cleared out_stream os) else pure os

  -- The body of ~Client(), before cuspShutdown()
  unfoldable pub destroy : Client → M Client
  unfolding close_in close_out
  destroy c = do
    event_ ← if is_nonneg c.event.handle then cleared event c.event else pure c.event
    is ← close_in c.is
    os ← close_out c.os
    host_ ← if is_nonneg c.host.handle then cleared host c.host else pure c.host
    ep ← cleared end_point c.ep
    pure (record { event = event_; ep = ep; host = host_; is = is; os = os })

  -- The destructors of the fields, after cuspShutdown()
  unfoldable pub destruct_fields : Client → M (Unit {0})
  destruct_fields c = do
    (class_of out_stream).destruct c.os
    (class_of in_stream).destruct c.is
    (class_of host).destruct c.host
    (class_of end_point).destruct c.ep
    (class_of event).destruct c.event

  unfoldable pub shutdown : Pointer → Client → M (Unit {0})
  shutdown handler c = do
    if is_nonneg c.event.handle then Event.cancel E c.event else pure tt
    if is_nonneg c.os.handle then OutStream.shutdown E c.os self else pure tt
    if handler == 0 then pure tt else (do
      abortable_ ← EndPoint.when_safe_to_destroy E c.ep handler
      (class_of abortable).destruct abortable_)

  -- onContact(h, stream)
  unfoldable pub on_contact : Ref host → Ref out_stream → Client → M Client
  on_contact h stream c = do
    own ← (class_of host).assign c.host h
    Host.to_string E own
    service ← Host.listen E own self
    os ← (class_of out_stream).assign c.os stream
    OutStream.write E os (service_bytes service) self
    pure (record c { host = own; os = os })

  unfoldable pub on_contact_fail : Client → M Client
  on_contact_fail c = do cusp_main_stop E; pure c

  -- The loops that count the streams of the host, with a bound on the rounds
  pub count_in_streams : ℕ → Ref in_stream_iterator → M ℕ
  count_in_streams zero it = pure 0
  count_in_streams (suc rounds) it =
      let rest = count_in_streams rounds it in
      do
        more ← in_stream_iterator_has_next it
        if more
            then (do
              s ← in_stream_iterator_next it
              (class_of in_stream).destruct s
              count ← rest
              pure (suc count))
            else pure 0

  pub count_out_streams : ℕ → Ref out_stream_iterator → M ℕ
  count_out_streams zero it = pure 0
  count_out_streams (suc rounds) it =
      let rest = count_out_streams rounds it in
      do
        more ← out_stream_iterator_has_next it
        if more
            then (do
              s ← out_stream_iterator_next it
              (class_of out_stream).destruct s
              count ← rest
              pure (suc count))
            else pure 0

  -- onConnect(service, stream). The count is printed.
  unfoldable pub on_connect : ℕ → Ref in_stream → Client → M (Client × ℕ)
  on_connect rounds stream c = do
    own ← (class_of in_stream).copy stream
    is ← (class_of in_stream).assign c.is own
    (class_of in_stream).destruct own
    InStream.read E is self minus_one
    ins ← Host.in_streams E c.host
    count_in ← count_in_streams rounds ins
    (class_of in_stream_iterator).destruct ins
    outs ← Host.out_streams E c.host
    count_out ← count_out_streams rounds outs
    (class_of out_stream_iterator).destruct outs
    pure (record c { is = is }, count_in + count_out)

  unfoldable pub on_receive : Client → M Client
  on_receive c = do InStream.read E c.is self minus_one; pure c

  unfoldable pub on_shutdown : Client → M Client
  on_shutdown c = do
    if is_nonneg c.os.handle then OutStream.shutdown E c.os self else pure tt
    pure c

  unfoldable pub on_reset : Client → M Client
  unfolding close_in close_out
  on_reset c = do
    is ← close_in c.is
    os ← close_out c.os
    running ← cusp_main_is_running E
    if running then cusp_main_stop E else pure tt
    pure (record c { is = is; os = os })

  unfoldable pub on_ready : Client → M Client
  on_ready c = do check (is_nonneg c.os.handle); Event.reschedule_in E c.event time_second; pure c

  unfoldable pub on_shutdown_done : Bool → Client → M Client
  on_shutdown_done success c = do
    if success then pure tt else (do OutStream.reset E c.os; cusp_main_stop E)
    os ← cleared out_stream c.os
    pure (record c { os = os })

  unfoldable pub on_event : Client → M Client
  on_event c = do OutStream.write E c.os some_data self; pure c
