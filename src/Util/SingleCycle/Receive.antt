-- ===== src/Util/SingleCycle/Receive.antt =====
-- singlecycleconn.cpp and bidiconn.cpp: what arrives in chunks, and what is sent, over a connection
-- whose two streams are open.
use gocusp.Cusp.InStream
use gocusp.Cusp.OutStream
use gocusp.Util.BiDiConn
use gocusp.Base.{List, Option, [], ap, false, refl, some, true, ℕ, ◌++◌, ◌==◌, ◌∙◌, ◌∷◌, ◌≡◌}
use gocusp.Cusp.Behaviour.Streams.{engine_step-quiet, read-live, shutdown-live, write-live}
use gocusp.Cusp.Lifecycle.{object_at}
use gocusp.Cusp.Ref.{ref}
use gocusp.Ml.{is_nonneg, minus_one, pos}
use gocusp.Runtime.Engine.{
  Bytes, Engine, Log, Pointer, in_stream_read, out_stream_shutdown, out_stream_write,
}
use gocusp.Runtime.Handles.{in_stream, out_stream}
use gocusp.Runtime.World.{M, World, pure, returns, ◌>>=◌}
use gocusp.Util.BiDiConn.{BiDiConn, ConnHandler, Owned, on_receive, send_data, still_there}

-- The chunks that arrive, one after the other.
pub receive_all :
    {C : Type 0} → Engine → Pointer → ConnHandler C → List Bytes → Owned C → M (Option (Owned C))
receive_all E self handler [] x = pure (some x)
receive_all E self handler (b ∷ bs) x = do
  r ← on_receive E self handler b x
  still_there r (receive_all E self handler bs)

abbrev pub joined : List Bytes → Bytes
joined [] = []
joined (b ∷ bs) = b ++ joined bs

module _ (self si : ℕ) where
  -- The calls so far, with a read for each chunk.
  abbrev pub read_log : List Bytes → Log → Log
  read_log [] l = l
  read_log (b ∷ bs) l = read_log bs (in_stream_read si minus_one self ∷ l)

module _ (hi ho : ℕ) where
  -- A connection whose two streams are open.
  pub record IsOpen (c : BiDiConn) : Type 0 where
    pub in_open : c.is ≡ ref in_stream (pos hi)
    pub out_open : c.os ≡ ref out_stream (pos ho)

module _ (E : Engine) (self : Pointer) (hi ho si : ℕ) (bound : (self == 0) ≡ false)
    (takes_reads : (l : Log) → E.raises l (in_stream_read si minus_one self) ≡ false) where
  pub read_open :
      (c : BiDiConn) (w : World)
      → IsOpen hi ho c
      → object_at in_stream w hi ≡ some si
      → InStream.read E c.is self minus_one w
        ≡ returns tt (record w { log = in_stream_read si minus_one self ∷ w.log })
  read_open c w open_ live = rw (open_.in_open) (
      read-live E w hi si self bound minus_one live
      ∙ engine_step-quiet E (in_stream_read si minus_one self) w (takes_reads w.log))

  pub receive_one :
      {C : Type 0} (handler : ConnHandler C) (bytes : Bytes) (x : Owned C) (y : C) (w : World)
      → IsOpen hi ho x.conn
      → object_at in_stream w hi ≡ some si
      → handler.on_receive_data bytes x w ≡ returns (some (record x { owner = y })) w
      → on_receive E self handler bytes x w
        ≡ returns
            (some (record x { owner = y }))
            (record w { log = in_stream_read si minus_one self ∷ w.log })
  unfolding on_receive
  receive_one handler bytes x y w open_ live e =
      let in_valid : is_nonneg x.conn.is.handle ≡ true =
        ap (λ r. is_nonneg r.handle) open_.in_open in
      let out_valid : is_nonneg x.conn.os.handle ≡ true =
        ap (λ r. is_nonneg r.handle) open_.out_open in
      rw (in_valid, out_valid, e) (rw (read_open x.conn w open_ live) refl)

  pub receive_all-joined :
      {C : Type 0} (handler : ConnHandler C) (add : Bytes → C → C)
      → ((bytes : Bytes) (x : Owned C) (w : World)
          → handler.on_receive_data bytes x w
            ≡ returns (some (record x { owner = add bytes x.owner })) w)
      → ((y : C) → add [] y ≡ y)
      → ((a b : Bytes) (y : C) → add b (add a y) ≡ add (a ++ b) y)
      → (chunks : List Bytes) (x : Owned C) (w : World) → IsOpen hi ho x.conn
      → object_at in_stream w hi ≡ some si
      → receive_all E self handler chunks x w
        ≡ returns
            (some (record x { owner = add (joined chunks) x.owner }))
            (record w { log = read_log self si chunks w.log })
  unfolding receive_all
  receive_all-joined handler add adds nothing both [] x w open_ live = rw (nothing x.owner) refl
  receive_all-joined handler add adds nothing both (b ∷ bs) x w open_ live =
      rw (receive_one handler b x (add b x.owner) w open_ live (adds b x w)) (
        receive_all-joined handler add adds nothing both bs (record x { owner = add b x.owner })
          (record w { log = in_stream_read si minus_one self ∷ w.log }) open_ live
        ∙ rw (both b (joined bs) x.owner) refl)

  module _ (so : ℕ) (c : BiDiConn) (w : World) (open_ : IsOpen hi ho c)
      (live : object_at out_stream w ho ≡ some so) where
    pub out_valid : is_nonneg c.os.handle ≡ true
    out_valid = ap (λ r. is_nonneg r.handle) open_.out_open

    pub send_open :
        (bytes : Bytes)
        → E.raises w.log (out_stream_write so bytes self) ≡ false
        → send_data E self bytes c w
          ≡ returns tt (record w { log = out_stream_write so bytes self ∷ w.log })
    unfolding send_data
    send_open bytes quiet = rw (out_valid) (
        rw (open_.out_open) (
          write-live E w ho so self bound bytes live
          ∙ engine_step-quiet E (out_stream_write so bytes self) w quiet))

    pub shutdown_open :
        E.raises w.log (out_stream_shutdown so self) ≡ false
        → BiDiConn.shutdown E self c w
          ≡ returns true (record w { log = out_stream_shutdown so self ∷ w.log })
    unfolding BiDiConn.shutdown
    shutdown_open quiet =
        let stopped : OutStream.shutdown E c.os self w
            ≡ returns tt (record w { log = out_stream_shutdown so self ∷ w.log }) =
          rw (open_.out_open) (
            shutdown-live E w ho so self bound live
            ∙ engine_step-quiet E (out_stream_shutdown so self) w quiet) in
        rw (out_valid) (rw stopped refl)
