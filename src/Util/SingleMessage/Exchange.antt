-- ===== src/Util/SingleMessage/Exchange.antt =====
-- singlemessageoutstream.cpp and singlemessageinstream.cpp: a message that is sent, and one that
-- arrives.
use gocusp.Cusp.InStream
use gocusp.Cusp.OutStream
use gocusp.Base.{ap, false, refl, some, ℕ, ◌==◌, ◌∙◌, ◌∷◌, ◌≡◌}
use gocusp.Cusp.Behaviour.Streams.{engine_step-quiet, read-live, shutdown-live, write-live}
use gocusp.Cusp.Lifecycle.{==-refl, IsValidAt, object_at}
use gocusp.Cusp.Lifecycle.Copy.{copy-Copied}
use gocusp.Cusp.Ref.{ref}
use gocusp.Ml.{minus_one, pos}
use gocusp.Runtime.Engine.{
  Bytes, Engine, Pointer, in_stream_read, out_stream_shutdown, out_stream_write,
}
use gocusp.Runtime.Handles.{in_stream, out_stream}
use gocusp.Runtime.World.{World, returns, ◌>>=◌}
use gocusp.Util.SingleMessage.{
  SingleMessageInStream, receiver, receiver_on_receive, sender, sender_on_ready,
}

-- A SingleMessageOutStream over a stream whose handle is in use, with a handler and a self
-- address that are not null: creating it writes the whole message to the stream, and READY then
-- shuts the stream down, and the engine gets no other call. The free list of the bucket of out
-- streams must link exactly its free cells, and the engine must take both calls.
pub message_sent :
    (E : Engine) (self : Pointer) (w : World) (h s handler : ℕ) (msg : Bytes)
    → (self == 0) ≡ false
    → (handler == 0) ≡ false
    → IsValidAt out_stream w
    → object_at out_stream w h ≡ some s
    → E.raises w.log (out_stream_write s msg self) ≡ false
    → E.raises (out_stream_write s msg self ∷ w.log) (out_stream_shutdown s self) ≡ false
    → (after : World) × ((do
      sent ← sender E self (ref out_stream (pos h)) msg handler
      sender_on_ready E self sent)
          w
        ≡ returns tt after)
      × (after.log ≡ (out_stream_shutdown s self ∷ out_stream_write s msg self ∷ w.log))
unfolding sender sender_on_ready
message_sent E self w h s handler msg bound bound' v live write_quiet shutdown_quiet =
    let c = copy-Copied out_stream w h s v live in
    let here : object_at out_stream c.after c.handle ≡ some s =
      c.change.objects c.handle ∙ rw (==-refl c.handle) refl in
    let same_log : c.after.log ≡ w.log = ap (λ u. u.log) c.change.only in
    let w1 : World = record c.after { log = out_stream_write s msg self ∷ c.after.log } in
    let written : OutStream.write E (ref out_stream (pos c.handle)) msg self c.after
        ≡ returns tt w1 =
      write-live E c.after c.handle s self bound msg here
      ∙ engine_step-quiet E (out_stream_write s msg self) c.after (rw same_log write_quiet) in
    let stopped : OutStream.shutdown E (ref out_stream (pos c.handle)) self w1
        ≡ returns tt (record w1 { log = out_stream_shutdown s self ∷ w1.log }) =
      shutdown-live E w1 c.handle s self bound here
      ∙ engine_step-quiet E (out_stream_shutdown s self) w1 (rw same_log shutdown_quiet) in
    (
      record w1 { log = out_stream_shutdown s self ∷ w1.log },
      rw (c.returned, bound', written, stopped) refl,
      ap (λ l. out_stream_shutdown s self ∷ out_stream_write s msg self ∷ l) same_log,
    )

-- A SingleMessageInStream over a stream whose handle is in use, with a handler and a self
-- address that are not null: once a first chunk has arrived the buffer holds it, and the engine
-- has got one read in all, so that it is not asked for the rest of the message. The free list of
-- the bucket of in streams must link exactly its free cells, and the engine must take the read.
pub second_chunk_unread :
    (E : Engine) (self : Pointer) (w : World) (h s handler : ℕ) (chunk : Bytes)
    → (self == 0) ≡ false
    → (handler == 0) ≡ false
    → IsValidAt in_stream w
    → object_at in_stream w h ≡ some s
    → E.raises w.log (in_stream_read s minus_one self) ≡ false
    → (r : SingleMessageInStream) × (after : World) × ((do
      receiving ← receiver E self (ref in_stream (pos h)) handler
      receiver_on_receive E self chunk receiving)
          w
        ≡ returns r after)
      × (r.buffer ≡ chunk)
      × (after.log ≡ (in_stream_read s minus_one self ∷ w.log))
unfolding receiver receiver_on_receive
second_chunk_unread E self w h s handler chunk bound bound' v live quiet =
    let c = copy-Copied in_stream w h s v live in
    let here : object_at in_stream c.after c.handle ≡ some s =
      c.change.objects c.handle ∙ rw (==-refl c.handle) refl in
    let same_log : c.after.log ≡ w.log = ap (λ u. u.log) c.change.only in
    let asked : InStream.read E (ref in_stream (pos c.handle)) self minus_one c.after
        ≡ returns tt (record c.after { log = in_stream_read s minus_one self ∷ c.after.log }) =
      read-live E c.after c.handle s self bound minus_one here
      ∙ engine_step-quiet E (in_stream_read s minus_one self) c.after (rw same_log quiet) in
    (
      record { is = ref in_stream (pos c.handle); handler = handler; buffer = chunk },
      record c.after { log = in_stream_read s minus_one self ∷ c.after.log },
      rw (c.returned, bound', asked) refl,
      refl,
      ap (λ l. in_stream_read s minus_one self ∷ l) same_log,
    )
