-- ===== src/Util/SingleCycle/ServerCycle.antt =====
-- singlecycleconn.cpp: SingleCycleServer::Conn, the server's side of a cycle.
use gocusp.Util.BiDiConn
use gocusp.Base.{
  List, ap, append-nil, append_assoc, false, refl, some, true, ℕ, ◌++◌, ◌==◌, ◌∷◌, ◌≡◌,
}
use gocusp.Cusp.Lifecycle.{object_at}
use gocusp.Ml.{minus_one}
use gocusp.Runtime.Engine.{
  Bytes, Engine, Log, Pointer, in_stream_read, out_stream_shutdown, out_stream_write,
}
use gocusp.Runtime.Handles.{in_stream, out_stream}
use gocusp.Runtime.World.{World, returns, ◌>>=◌}
use gocusp.Util.BiDiConn.{BiDiConn, Owned, on_shutdown, still_there}
use gocusp.Util.SingleCycle.{RequestHandler, ServerConn, no_bytes, server_events}
use gocusp.Util.SingleCycle.Receive.{
  IsOpen, joined, read_log, receive_all, receive_all-joined, send_open, shutdown_open,
}

module _ (E : Engine) (self : Pointer) (hi ho si : ℕ) (bound : (self == 0) ≡ false)
    (takes_reads : (l : Log) → E.raises l (in_stream_read si minus_one self) ≡ false) where
  abbrev with_request : Bytes → Owned ServerConn → Owned ServerConn
  with_request all x = record x { owner = record x.owner { request = all } }

  collects :
      (calls : RequestHandler) (bytes : Bytes) (x : Owned ServerConn) (w : World)
      → (server_events E self calls).on_receive_data bytes x w
        ≡ returns
            (some (record x { owner = record x.owner { request = x.owner.request ++ bytes } }))
            w
  unfolding server_events
  collects calls bytes x w = refl

  answered_with :
      (calls : RequestHandler) (so : ℕ) (reply : Bytes) (x : Owned ServerConn) (w w1 : World)
      → IsOpen hi ho x.conn
      → object_at out_stream w1 ho ≡ some so
      → x.owner.send_ready ≡ true
      → no_bytes reply ≡ false
      → calls.on_request x.owner.handler x.owner.request x.conn.host_ w ≡ returns reply w1
      → E.raises w1.log (out_stream_write so reply self) ≡ false
      → on_shutdown E self (server_events E self calls) x w
        ≡ returns
            (some (record x { owner = record x.owner { response = reply } }))
            (record w1 { log = out_stream_write so reply self ∷ w1.log })
  unfolding server_events on_shutdown
  answered_with calls so reply x w w1 open_ live ready some_reply asked quiet = rw (asked) (
      rw (some_reply, ready)
        (rw (send_open E self hi ho si bound takes_reads so x.conn w1 open_ live reply quiet) refl))

  done_sending :
      (calls : RequestHandler) (so : ℕ) (x : Owned ServerConn) (w : World)
      → IsOpen hi ho x.conn
      → object_at out_stream w ho ≡ some so
      → x.owner.send_ready ≡ true
      → E.raises w.log (out_stream_shutdown so self) ≡ false
      → BiDiConn.on_ready E self (server_events E self calls) x w
        ≡ returns (some x) (record w { log = out_stream_shutdown so self ∷ w.log })
  unfolding server_events BiDiConn.on_ready
  done_sending calls so x w open_ live ready quiet =
      rw (ready)
        (rw (shutdown_open E self hi ho si bound takes_reads so x.conn w open_ live quiet) refl)

  -- A connection of a server that is ready to send, with both streams open under handles in
  -- use and a self address that is not null: when a request arrives in any number of chunks,
  -- ends, and the library reports READY after that, the request handler is asked once, with
  -- the chunks joined to what had arrived before, its reply is written once and whole, and
  -- then the out stream is shut down; the reply is not empty, and the engine must take the
  -- reads, the write and the shutdown.
  pub server_cycle :
      (calls : RequestHandler) (so : ℕ) (chunks : List Bytes) (reply : Bytes) (x : Owned ServerConn)
      (w w1 : World)
      → IsOpen hi ho x.conn
      → object_at in_stream w hi ≡ some si
      → object_at out_stream w1 ho ≡ some so
      → x.owner.send_ready ≡ true
      → no_bytes reply ≡ false
      → calls.on_request x.owner.handler
          (x.owner.request ++ joined chunks)
          x.conn.host_
          (record w { log = read_log self si chunks w.log })
        ≡ returns reply w1
      → E.raises w1.log (out_stream_write so reply self) ≡ false
      → E.raises (out_stream_write so reply self ∷ w1.log) (out_stream_shutdown so self) ≡ false
      → let events = server_events E self calls in
        let all = x.owner.request ++ joined chunks in
        (do
          r ← receive_all E self events chunks x
          replied ← still_there r (on_shutdown E self events)
          still_there replied (BiDiConn.on_ready E self events))
          w
        ≡ returns
            (some (record x { owner = record x.owner { request = all; response = reply } }))
            (record w1 {
              log = out_stream_shutdown so self ∷ out_stream_write so reply self ∷ w1.log;
            })
  server_cycle calls so chunks reply x w w1 open_ live live' ready some_reply asked write_quiet
        shutdown_quiet =
      let all = x.owner.request ++ joined chunks in
      let got =
        receive_all-joined E self hi ho si bound takes_reads (server_events E self calls)
          (λ bytes y. record y { request = y.request ++ bytes }) (collects calls)
          (λ y. ap (λ r. record y { request = r }) (append-nil y.request))
          (λ a b y. ap (λ r. record y { request = r }) (append_assoc y.request a b)) chunks x w
          open_ live in
      let replied =
        answered_with calls so reply (with_request all x)
          (record w { log = read_log self si chunks w.log }) w1 open_ live' ready some_reply asked
          write_quiet in
      rw (got) (
        rw (replied) (
          done_sending calls so
            (record x { owner = record x.owner { request = all; response = reply } })
            (record w1 { log = out_stream_write so reply self ∷ w1.log }) open_ live' ready
            shutdown_quiet))
