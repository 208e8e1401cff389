-- ===== src/Stream/OutStreamQueue/Calls.antt =====
-- out-stream-queue.sml: the calls of the client and the messages of the reader.
use gocusp.Base.{
  Bool-cases, List, Option, [], ap, append-nil, false, inl, inr, none, refl, some, true, ℕ, ◌++◌,
  ◌∙◌, ◌∷◌, ◌≡◌,
}
use gocusp.Ml.{negate, pos}
use gocusp.Runtime.Engine.{Bytes, Pointer}
use gocusp.Stream.Heap.{Heap, Segment}
use gocusp.Stream.OutStreamQueue.{
  Notice, Queue, State, am_connected, am_done, am_reset, am_shutdown, became_complete, became_reset,
  call_writer, check_done, do_reset, is_reset, is_some, reset, retransmit_bytes_by, shut_down,
  shutdown, shutdown_in, to_retransmit, write, write_in, writer_reset,
}
use gocusp.Stream.OutStreamQueue.Account.{
  IsAccounted, Keeps, OnSome, call_writer-IsAccounted, make_progress-IsAccounted, tell-IsAccounted,
  update_rts-IsAccounted, waiting,
}
use gocusp.Stream.OutStreamQueue.Pull.{recv_barrier, recv_reset}

module _ (H : Heap) (answer : Notice → Queue H → Queue H) (keeps : Keeps H answer) where
  pub do_reset-IsAccounted :
      (q : Queue H) (out held : List Segment)
      → IsAccounted H q out held
      → IsAccounted H (do_reset H answer q) out held
  unfolding do_reset
  do_reset-IsAccounted q out held a =
      let q1 : Queue H = record q {
        state = am_reset;
        retransmit = H.new;
        retransmit_bytes = pos 0;
        writer = none;
        shutdowner = none;
        buffer = none;
        events = became_reset ∷ retransmit_bytes_by (negate q.retransmit_bytes) ∷ q.events;
      } in
      let a1 : IsAccounted H q1 out held = record {
        flying = a.flying;
        counted = a.counted;
        queued = λ open_yet. cc;
        kept = λ open_yet. cc;
        in_order = λ open_yet. cc;
        no_more = λ s. refl;
        dropped = λ r. (refl, λ g. H.total-new g);
      } in
      let a2 =
        call_writer-IsAccounted H answer keeps (λ p. shut_down p false) q.shutdowner q1 out held
          a1 in
      call_writer-IsAccounted H answer keeps writer_reset q.writer
        (call_writer H answer (λ p. shut_down p false) q.shutdowner q1) out held a2

  -- `write` on a stream that is connected.
  started-IsAccounted :
      (bytes : Bytes) (p : Pointer) (q : Queue H) (out held : List Segment)
      → q.state ≡ am_connected
      → is_some q.buffer ≡ false
      → IsAccounted H q out held
      → IsAccounted H
          (record q { buffer = some bytes; writer = some p; given = q.given ++ bytes })
          out
          held
  started-IsAccounted bytes p q out held at_state vacant a = record {
    flying = a.flying;
    counted = a.counted;
    queued = a.queued;
    kept = a.kept;
    in_order = λ o.
        ap (λ xs. xs ++ bytes)
          (a.in_order (ap is_reset at_state)
            ∙ ap (λ xs. q.moved ++ xs) (nothing_waiting q.buffer vacant)
            ∙ append-nil q.moved);
    no_more = λ s. cc;
    dropped = λ r. cc;
  }
    where
      nothing_waiting : (b : Option Bytes) → is_some b ≡ false → waiting b ≡ []
      nothing_waiting none e = refl
      nothing_waiting (some b) e = cc

  -- `shutdown` on a stream that is connected.
  shut-IsAccounted :
      (p : Pointer) (q : Queue H) (out held : List Segment)
      → is_reset q.state ≡ false
      → is_some q.buffer ≡ false
      → IsAccounted H q out held
      → IsAccounted H (record q { state = am_shutdown to_retransmit; shutdowner = some p }) out held
  shut-IsAccounted p q out held open_yet vacant a = record {
    flying = a.flying;
    counted = a.counted;
    queued = λ o. a.queued open_yet;
    kept = λ o. a.kept open_yet;
    in_order = λ o. a.in_order open_yet;
    no_more = λ s. buffer_none q.buffer vacant;
    dropped = λ r. cc;
  }
    where
      buffer_none : (b : Option Bytes) → is_some b ≡ false → b ≡ none
      buffer_none none e = refl
      buffer_none (some b) e = cc

  write_in-IsAccounted :
      (s : State) (bytes : Bytes) (p : Pointer) (q : Queue H) (out held : List Segment)
      → q.state ≡ s
      → is_some q.buffer ≡ false
      → IsAccounted H q out held
      → OnSome (λ q'. IsAccounted H q' out held) (write_in H answer s bytes p q)
  write_in-IsAccounted (am_shutdown r) bytes p q out held at_state vacant a = tt
  write_in-IsAccounted am_reset bytes p q out held at_state vacant a =
      keeps (writer_reset p) q out held a
  write_in-IsAccounted am_connected bytes p q out held at_state vacant a =
      make_progress-IsAccounted H answer keeps
        (record q { buffer = some bytes; writer = some p; given = q.given ++ bytes }) out held
        (started-IsAccounted bytes p q out held at_state vacant a)

  pub write-IsAccounted :
      (bytes : Bytes) (p : Pointer) (q : Queue H) (out held : List Segment)
      → IsAccounted H q out held
      → OnSome (λ q'. IsAccounted H q' out held) (write H answer bytes p q)
  unfolding write
  write-IsAccounted bytes p q out held a = elim (Bool-cases (is_some q.buffer)) [
    | inl waits ↦ rw waits tt
    | inr vacant ↦ rw vacant (write_in-IsAccounted q.state bytes p q out held refl vacant a)
  ]

  shutdown_in-IsAccounted :
      (s : State) (p : Pointer) (q : Queue H) (out held : List Segment)
      → q.state ≡ s
      → is_some q.buffer ≡ false
      → IsAccounted H q out held
      → OnSome (λ q'. IsAccounted H q' out held) (shutdown_in H answer s p q)
  shutdown_in-IsAccounted (am_shutdown r) p q out held at_state vacant a = tt
  shutdown_in-IsAccounted am_reset p q out held at_state vacant a =
      keeps (shut_down p false) q out held a
  shutdown_in-IsAccounted am_connected p q out held at_state vacant a =
      update_rts-IsAccounted H (record q { state = am_shutdown to_retransmit; shutdowner = some p })
        out held (shut-IsAccounted p q out held (ap is_reset at_state) vacant a)

  pub shutdown-IsAccounted :
      (p : Pointer) (q : Queue H) (out held : List Segment)
      → IsAccounted H q out held
      → OnSome (λ q'. IsAccounted H q' out held) (shutdown H answer p q)
  unfolding shutdown
  shutdown-IsAccounted p q out held a = elim (Bool-cases (is_some q.buffer)) [
    | inl waits ↦ rw waits tt
    | inr vacant ↦ rw vacant (shutdown_in-IsAccounted q.state p q out held refl vacant a)
  ]

  pub reset-IsAccounted :
      (q : Queue H) (out held : List Segment)
      → IsAccounted H q out held
      → IsAccounted H (reset H answer q) out held
  unfolding reset
  reset-IsAccounted q out held a =
      update_rts-IsAccounted H (do_reset H answer q) out held (do_reset-IsAccounted q out held a)

  -- The shutdowner is no part of the account.
  without_shutdowner :
      (q : Queue H) (out held : List Segment)
      → IsAccounted H q out held
      → IsAccounted H (record q { shutdowner = none; events = became_complete ∷ q.events }) out held
  without_shutdowner q out held a = record {
    flying = a.flying;
    counted = a.counted;
    queued = a.queued;
    kept = a.kept;
    in_order = a.in_order;
    no_more = a.no_more;
    dropped = a.dropped;
  }

  pub check_done-IsAccounted :
      (q : Queue H) (out held : List Segment)
      → IsAccounted H q out held
      → IsAccounted H (check_done H answer q) out held
  unfolding check_done
  check_done-IsAccounted q out held a = elim (Bool-cases (am_done H answer q)) [
    | inl over' ↦ rw over' (
        call_writer-IsAccounted H answer keeps (λ p. shut_down p true) q.shutdowner
          (record q { shutdowner = none; events = became_complete ∷ q.events }) out held
          (without_shutdowner q out held a))
    | inr more ↦ rw more a
  ]

  pub recv_barrier-IsAccounted :
      (barrier : ℕ) (q : Queue H) (out held : List Segment)
      → IsAccounted H q out held
      → IsAccounted H (recv_barrier H answer barrier q) out held
  unfolding recv_barrier
  recv_barrier-IsAccounted barrier q out held a =
      make_progress-IsAccounted H answer keeps (record q { barrier = barrier }) out held
        (record {
          flying = a.flying;
          counted = a.counted;
          queued = a.queued;
          kept = a.kept;
          in_order = a.in_order;
          no_more = a.no_more;
          dropped = a.dropped;
        })

  pub recv_reset-IsAccounted :
      (q : Queue H) (out held : List Segment)
      → IsAccounted H q out held
      → IsAccounted H (recv_reset H answer q) out held
  unfolding recv_reset
  recv_reset-IsAccounted q out held a =
      tell-IsAccounted H became_complete (do_reset H answer q) out held
        (do_reset-IsAccounted q out held a)
