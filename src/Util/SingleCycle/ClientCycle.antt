-- ===== src/Util/SingleCycle/ClientCycle.antt =====
-- singlecycleconn.cpp: SingleCycleConn, the client's side of a cycle.
use gocusp.Util.BiDiConn
use gocusp.Base.{List, [], ap, append-nil, append_assoc, false, refl, some, ℕ, ◌++◌, ◌==◌, ◌∷◌, ◌≡◌}
use gocusp.Cusp.Lifecycle.{object_at}
use gocusp.Ml.{minus_one}
use gocusp.Runtime.Engine.{
  Bytes, Engine, Log, Pointer, in_stream_read, out_stream_shutdown, out_stream_write,
}
use gocusp.Runtime.Handles.{in_stream, out_stream}
use gocusp.Runtime.World.{World, pure, returns, ◌>>=◌, ◌>>◌}
use gocusp.Util.BiDiConn.{BiDiConn, Owned, on_ready, on_shutdown, still_there}
use gocusp.Util.SingleCycle.{Client, ResponseHandler, client_events, no_bytes}
use gocusp.Util.SingleCycle.Receive.{
  IsOpen, joined, read_log, receive_all, receive_all-joined, send_open, shutdown_open,
}

module _ (E : Engine) (self : Pointer) (hi ho si : ℕ) (bound : (self == 0) ≡ false)
    (takes_reads : (l : Log) → E.raises l (in_stream_read si minus_one self) ≡ false) where
  -- A client's connection with both streams open, the in stream under a handle in use, and a
  -- self address that is not null: when a response arrives in any number of chunks and ends,
  -- each chunk is followed by one read of the in stream, and then the response handler is
  -- called once, with the chunks joined to what had arrived before. The engine must take the
  -- reads.
  pub client_response :
      (calls : ResponseHandler) (chunks : List Bytes) (x : Owned Client) (w : World)
      → IsOpen hi ho x.conn
      → object_at in_stream w hi ≡ some si
      → let events = client_events E self calls in
        let all = x.owner.response ++ joined chunks in
        (do r ← receive_all E self events chunks x; still_there r (on_shutdown E self events)) w
        ≡ (do
          calls.on_response x.owner.handler all
          pure (some (record x { owner = record x.owner { response = all } })))
            (record w { log = read_log self si chunks w.log })
  unfolding client_events on_shutdown
  client_response calls chunks x w open_ live =
      rw
        (receive_all-joined E self hi ho si bound takes_reads (client_events E self calls)
          (λ bytes y. record y { response = y.response ++ bytes }) (λ bytes y v. refl)
          (λ y. ap (λ r. record y { response = r }) (append-nil y.response))
          (λ a b y. ap (λ r. record y { response = r }) (append_assoc y.response a b)) chunks x w
          open_ live)
        refl

  -- A client with a request that is not empty, over a connection whose out stream is under a
  -- handle in use, with a self address that is not null: the first READY writes the whole
  -- request, the second shuts the out stream down, and nothing else is called, where the
  -- engine takes both calls.
  pub client_request :
      (calls : ResponseHandler) (so : ℕ) (x : Owned Client) (w : World)
      → IsOpen hi ho x.conn
      → object_at out_stream w ho ≡ some so
      → no_bytes x.owner.request ≡ false
      → E.raises w.log (out_stream_write so x.owner.request self) ≡ false
      → E.raises (out_stream_write so x.owner.request self ∷ w.log) (out_stream_shutdown so self)
        ≡ false
      → let events = client_events E self calls in
        (do r ← on_ready E self events x; still_there r (on_ready E self events)) w
        ≡ returns (some (record x { owner = record x.owner { request = [] } })) (record w {
          log = out_stream_shutdown so self ∷ out_stream_write so x.owner.request self ∷ w.log;
        })
  unfolding client_events BiDiConn.on_ready
  client_request calls so x w open_ live some_request write_quiet shutdown_quiet =
      rw
        (
          some_request,
          send_open E self hi ho si bound takes_reads so x.conn w open_ live x.owner.request
              write_quiet,
        )
        (rw
          (shutdown_open E self hi ho si bound takes_reads so x.conn
            (record w { log = out_stream_write so x.owner.request self ∷ w.log }) open_ live
            shutdown_quiet)
          refl)
